-- ===== src/Inventory/Ledger/PriceCalls.antt =====
-- `UpdateProduct`, and what it leaves of a product's price.
use order_hub.Base.{
  Uuid, Time, String, ◌≡◌, refl, ap, ◌∙◌, ◌⊎◌, inl, inr, Bool, true, false, not, Option, none, some,
  List, [], ◌∷◌, arith, ◌==◌, Bool-cases, if◌then◌else◌,
}
use order_hub.Base.Int.{ℤ}
use order_hub.Base.Rows.{update_where, find_where}
use order_hub.Base.Store.{World, ok, Error, pool, pure, guard, ◌>>◌}
use order_hub.Base.Post.{Post, Post-bind, Post-query, Post-exec_pool, Post-guard_then}
use order_hub.Inventory.Models.{Db, Product}
use order_hub.Inventory.Errors.{InventoryError, Context, sku_already_exists, currency_not_rub}
use order_hub.Inventory.Repo.Products
use order_hub.Inventory.Repo.Products.{ProductFields, has_id, patch_row}
use order_hub.Inventory.Service.Types.{ProductPatch}
use order_hub.Inventory.Service.Catalog.{
  update_product, fields_of, no_fields, check_sku, write_fields, is_other, currency_fits,
}
use order_hub.Inventory.Guards.{Managed, Managed-then}

-- what each product costs
unfoldable pub price_list : List Product → List (Uuid × ℤ)
price_list [] = []
price_list (p ∷ ps) = (p.id, p.price_cents) ∷ price_list ps

price_list-update :
    (id : Uuid) (f : ProductFields) (now : Time) (ps : List Product)
    → price_list (update_where (has_id id) (patch_row f now) ps) ≡ price_list ps
unfolding price_list update_where
price_list-update id f now [] = refl
price_list-update id f now (p ∷ ps) = elim (Bool-cases (p.id == id)) [
  | inl hit ↦ rw hit (ap (λ t. (p.id, p.price_cents) ∷ t) (price_list-update id f now ps))
  | inr miss ↦ rw miss (ap (λ t. (p.id, p.price_cents) ∷ t) (price_list-update id f now ps))
]

-- the caller manages the product; stock and reservations are as they were, and so is every price
pub record Edited (ctx : Context) (id : Uuid) (d d' : Db) : Type 0 where
  pub managed : Managed ctx id d
  pub inventories : d'.inventories ≡ d.inventories
  pub reservations : d'.reservations ≡ d.reservations
  pub prices : price_list d'.products ≡ price_list d.products

update_row-ok :
    (lower : String → String) (id : Uuid) (f : ProductFields) (now : Time) (d d' : Db)
    → Products.update_row lower id f now d ≡ ok (tt, d')
    → d' ≡ record d { products = update_where (has_id id) (patch_row f now) d.products }
unfolding Products.update_row
update_row-ok lower id f now d d' e = ground arith

module _ (lower : String → String) (ctx : Context) (id : Uuid) (w : World Db) where
  abbrev X : Error InventoryError → World Db → Type 0
  X _ v = (v.db ≡ w.db) ⊎ Edited ctx id w.db v.db

  abbrev Q : {A : Type 0} → A → World Db → Type 0
  Q _ v = Edited ctx id w.db v.db

  untouched : (v : World Db) → v.db ≡ w.db → Managed ctx id w.db → Edited ctx id w.db v.db
  untouched v kept m = record {
    managed = m;
    inventories = ap (λ d. d.inventories) kept;
    reservations = ap (λ d. d.reservations) kept;
    prices = ap (λ d. price_list d.products) kept;
  }

  check_lem :
      (p : Product) (sku : Option String) (v : World Db)
      → v.db ≡ w.db
      → Post (λ _ u. u.db ≡ w.db) X (check_sku lower p sku v)
  unfolding Products.get_by_vendor_and_sku
  check_lem p none v kept = kept
  check_lem p (some sku) v kept =
      Post-bind (λ _ u. u.db ≡ w.db) (λ _ u. u.db ≡ w.db) X
        (Products.get_by_vendor_and_sku lower pool p.vendor_id sku)
        (λ found. guard (not (is_other p.id found)) sku_already_exists) v
        (Post-query (λ _ u. u.db ≡ w.db) X pool _ v (λ _. kept) (λ _. inl kept))
        (λ found u still. guard_lem (not (is_other p.id found)) u still)
    where
      guard_lem :
          (b : Bool) (u : World Db)
          → u.db ≡ w.db
          → Post (λ _ t. t.db ≡ w.db) X (guard b sku_already_exists u)
      guard_lem true u still = still
      guard_lem false u still = inl still

  fields_lem :
      (p : Product) (f : ProductFields) (now : Time) (v : World Db)
      → v.db ≡ w.db
      → Managed ctx id w.db
      → Post Q X (Products.update_fields lower pool p.id f now v)
  unfolding Products.update_fields
  fields_lem p f now v kept m =
      Post-exec_pool Q X (Products.update_row lower p.id f now) v
        (λ _ d gs e.
          let table = update_row-ok lower p.id f now w.db d (rw kept at e) in
          record {
            managed = m;
            inventories = ap (λ t. t.inventories) table;
            reservations = ap (λ t. t.reservations) table;
            prices =
                ap (λ t. price_list t.products) table ∙ price_list-update p.id f now w.db.products;
          })
        (λ _ _. inl kept)

  reread_lem :
      (i : Uuid) (v : World Db) → Edited ctx id w.db v.db → Post Q X (Products.get_by_id pool i v)
  unfolding Products.get_by_id
  reread_lem i v h =
      Post-query Q X pool (λ d. Products.found_or_error (find_where (has_id i) d.products)) v
        (λ gs. answer_lem (find_where (has_id i) v.db.products) (record v { faults = gs }) h)
        (λ _. inr h)
    where
      answer_lem :
          (o : Option Product) (u : World Db)
          → Edited ctx id w.db u.db
          → Post Q X (Products.found_or_error o, u)
      answer_lem none u k = inr k
      answer_lem (some p) u k = k

  write_lem :
      (p : Product) (f : ProductFields) (v : World Db)
      → v.db ≡ w.db
      → Managed ctx id w.db
      → Post Q X (write_fields lower p f v)
  write_lem p f v kept m =
      Post-bind (λ _ u. u.db ≡ w.db) Q X (check_sku lower p f.sku)
        (λ _. Products.update_fields lower pool p.id f v.clock >> Products.get_by_id pool p.id) v
        (check_lem p f.sku v kept)
        (λ _ u still.
          Post-bind Q Q X (Products.update_fields lower pool p.id f v.clock)
            (λ _. Products.get_by_id pool p.id) u (fields_lem p f v.clock u still m)
            (λ _ t h. reread_lem p.id t h))

  -- `UpdateProduct` returns only if the caller is an admin or the vendor of the product. Whatever the
  -- patch says, a price in it included, every product costs afterwards what it did, and the stock and
  -- the reservations are as they were. Where it fails that holds too.
  pub update_product-Edited :
      (patch : ProductPatch)
      → Post
          (λ _ v. Edited ctx id w.db v.db)
          (λ _ v. (v.db ≡ w.db) ⊎ Edited ctx id w.db v.db)
          (update_product lower ctx id patch w)
  unfolding update_product
  update_product-Edited patch =
      Managed-then ctx w X (λ _ _ k. inl k) Q id
        (λ p.
          guard (currency_fits patch.currency_code) currency_not_rub
          >> (if no_fields (fields_of patch)
              then pure (some p)
              else write_fields lower p (fields_of patch)))
        (λ p u (kept, _, found) may.
          Post-guard_then Q X (currency_fits patch.currency_code) currency_not_rub
            (if no_fields (fields_of patch)
              then pure (some p)
              else write_fields lower p (fields_of patch))
            u (λ _. edit_lem p u kept (p, found, may)) (λ _. inl kept))
    where
      edit_lem :
          (p : Product) (u : World Db)
          → u.db ≡ w.db
          → Managed ctx id w.db
          → Post Q X (
              (if no_fields (fields_of patch)
                  then pure (some p)
                  else write_fields lower p (fields_of patch))
                u)
      edit_lem p u kept m = elim (Bool-cases (no_fields (fields_of patch))) [
        | inl empty ↦ rw empty (untouched u kept m)
        | inr full ↦ rw full (write_lem p (fields_of patch) u kept m)
      ]
