-- ===== src/Inventory/Ledger/CreateCall.antt =====
-- `CreateProduct`.
use order_hub.Base.{
  suc, Uuid, Time, String, ◌≡◌, refl, sym, ap, ◌∙◌, inl, inr, Bool, true, false, not, ◌&&◌, ◌||◌,
  Option, some, ◌∷◌, arith, ◌==◌, Bool-cases,
}
use order_hub.Base.Int.{zero-+ℤ}
use order_hub.Base.Text.{trim_space}
use order_hub.Base.Rows.{any_where}
use order_hub.Base.Store.{
  World, Result, ok, err, ok_injective, tx_conn, pure, guard, clock_now, ◌>>=◌, ◌>>◌,
}
use order_hub.Base.Post.{
  Post, Post-bind, Post-query, Post-exec_tx, Post-guard_then, Post-transaction, Post-mono,
}
use order_hub.Inventory.Models.{Db, Product}
use order_hub.Inventory.Errors.{
  InventoryError, Context, Role, Run, require_auth, is_admin, is_vendor, forbidden,
  currency_not_rub, sku_already_exists,
}
use order_hub.Inventory.Repo.Stock.{of_product}
use order_hub.Inventory.Repo.Products
use order_hub.Inventory.Repo.Products.{
  same_sku, product_allowed, has_id, empty_stock, ensure_row, create_row,
}
use order_hub.Inventory.Service.Types.{ProductInput}
use order_hub.Inventory.Service.Catalog.{
  create_product, insert_product, must_rub, absent, new_product,
}
use order_hub.Inventory.Guards.{require_auth_lem}
use order_hub.Inventory.Ledger.Sums.{sum_stock, StockKeys, IsConsistent}
use order_hub.Inventory.Ledger.Statements.{Kept, At}

-- the row that a product becomes
abbrev stored : Uuid → Product → Product
stored id p = record p { id = id; is_active = true }

-- the product of a request, which is active whatever the request says
abbrev pub added : Uuid → ProductInput → Time → Product
added id input now = record {
  id = id;
  vendor_id = input.vendor_id;
  sku = trim_space input.sku;
  name = trim_space input.name;
  description = trim_space input.description;
  price_cents = input.price_cents;
  currency_code = "RUB";
  is_active = true;
  created_at = now;
  updated_at = now;
}

module _ (lower : String → String) where
  -- the product that is wanted has been added: it is new, no other of its vendor has its SKU, it has a row in the stock, and the database
  -- is consistent
  pub record Created (wanted : Product) (d : Db) (q : Product) (d' : Db) : Type 0 where
    pub row : q ≡ wanted
    pub products : d'.products ≡ q ∷ d.products
    pub new_sku : any_where (same_sku lower q.vendor_id q.sku) d.products ≡ false
    pub in_stock : any_where (of_product q.id) d'.inventories ≡ true
    pub reservations : d'.reservations ≡ d.reservations
    pub consistent : IsConsistent d'

  create_row-ok :
      (p q : Product) (d d' : Db)
      → create_row lower p d ≡ ok (q, d')
      → (d' ≡ record d { products = q ∷ d.products; next_id = suc d.next_id })
        × (any_where (same_sku lower q.vendor_id q.sku) d.products ≡ false)
        × (q ≡ stored d.next_id p)
  unfolding create_row
  create_row-ok p q d d' e =
      elim (Bool-cases (
        product_allowed lower (stored d.next_id p)
        && not (any_where (same_sku lower p.vendor_id p.sku) d.products))) [
          | inl fine ↦
              let pair : (
                stored d.next_id p,
                record d { products = (stored d.next_id p) ∷ d.products; next_id = suc d.next_id },
              )
                  ≡ (q, d') =
                ok_injective (rw fine at e) in
              let same : stored d.next_id p ≡ q = ap (λ x. x.0) pair in
              (
                sym (ap (λ x. x.1) pair)
                    ∙ ap
                        (λ (x : Product). record d {
                          products = x ∷ d.products;
                          next_id = suc d.next_id;
                        })
                        same,
                rw (← same) (second _ _ fine),
                sym same,
              )
          | inr refused ↦
              let bad : Path (Result InventoryError (Product × Db)) (err _) (ok (q, d')) =
                rw refused at e in
              cc
        ]
    where
      second : (a b : Bool) → (a && not b) ≡ true → b ≡ false
      second a b h = ground arith

  ensure_row-ok :
      (pid : Uuid) (now : Time) (d d' : Db)
      → ensure_row pid now d ≡ ok (tt, d')
      → IsConsistent d
      → (d'.products ≡ d.products)
        × (d'.reservations ≡ d.reservations)
        × (any_where (of_product pid) d'.inventories ≡ true)
        × IsConsistent d'
  unfolding ensure_row any_where sum_stock StockKeys
  ensure_row-ok pid now d d' e c = elim (Bool-cases (any_where (of_product pid) d.inventories)) [
    | inl there ↦
        let same : d ≡ d' = ap (λ x. x.1) (ok_injective (rw there at e)) in
        rw (← same) (refl, refl, there, c)
    | inr new ↦ elim (Bool-cases (any_where (has_id pid) d.products)) [
      | inl known ↦
          let same : record d { inventories = empty_stock pid now ∷ d.inventories } ≡ d' =
            ap (λ x. x.1) (ok_injective (rw (new, known) at e)) in
          rw (← same) (
            refl,
            refl,
            ground arith,
            record {
              stock_keys = (new, c.stock_keys);
              item_keys = c.item_keys;
              allowed = c.allowed;
              positive = c.positive;
              ledger = λ p. nothing_held p ∙ c.ledger p;
            },
          )
      | inr unknown ↦
          let bad : Path (Result InventoryError (Unit {0} × Db)) (err _) (ok (tt, d')) =
            rw (new, unknown) at e in
          cc
    ]
  ]
    where
      nothing_held :
          (p : Uuid)
          → sum_stock (λ r. r.reserved) p (empty_stock pid now ∷ d.inventories)
            ≡ sum_stock (λ r. r.reserved) p d.inventories
      nothing_held p = elim (Bool-cases (pid == p)) [
        | inl hit ↦ rw hit (zero-+ℤ _)
        | inr miss ↦ rw miss (zero-+ℤ _)
      ]

  -- the caller is an admin, or the vendor that the product is given to
  abbrev pub MayCreate : Context → Uuid → Type 0
  MayCreate ctx vendor =
      (user : Uuid) × (role : Role) × (ctx.user_id ≡ some user)
      × (ctx.role ≡ some role)
      × (((is_admin role || is_vendor role) && not (is_vendor role && not (vendor == user))) ≡ true)

  module _ (w : World Db) (c : IsConsistent w.db) where
    abbrev InTx : Db → World Db → Type 0
    InTx d v = At w.db w.clock d v

    abbrev Made : Product → Product → Db → Type 0
    Made p q d =
        (q ≡ stored w.db.next_id p)
        × (d.products ≡ q ∷ w.db.products)
        × (any_where (same_sku lower q.vendor_id q.sku) w.db.products ≡ false)
        × (d.reservations ≡ w.db.reservations)
        × IsConsistent d

    create_lem :
        (p : Product) (v : World Db)
        → InTx w.db v
        → Post
            (λ q u. (u.db ≡ w.db) × Made p q u.tx)
            (Kept w.db)
            (Products.create lower tx_conn p v)
    unfolding Products.create
    create_lem p v h =
        Post-exec_tx (λ q u. (u.db ≡ w.db) × Made p q u.tx) (Kept w.db) (create_row lower p) v
          (λ q d gs e.
            let (table, free, same) = create_row-ok p q w.db d (rw h.tx at e) in
            (
              h.db,
              rw table (
                same,
                refl,
                free,
                refl,
                record {
                  stock_keys = c.stock_keys;
                  item_keys = c.item_keys;
                  allowed = c.allowed;
                  positive = c.positive;
                  ledger = c.ledger;
                },
              ),
            ))
          (λ _ _. h.db)

    ensure_lem :
        (p q : Product) (v : World Db)
        → v.db ≡ w.db
        → Made p q v.tx
        → Post
            (λ _ u. (u.db ≡ w.db) × Created (stored w.db.next_id p) w.db q u.tx)
            (Kept w.db)
            (Products.ensure_inventory_row tx_conn q.id v)
    unfolding Products.ensure_inventory_row
    ensure_lem p q v kept (row, products, free, reservations, fine) =
        Post-exec_tx (λ _ u. (u.db ≡ w.db) × Created (stored w.db.next_id p) w.db q u.tx)
          (Kept w.db) (ensure_row q.id v.clock) v
          (λ _ d gs e.
            let (same, rest, there, still) = ensure_row-ok q.id v.clock v.tx d e fine in
            (
              kept,
              record {
                row = row;
                products = same ∙ products;
                new_sku = free;
                in_stock = there;
                reservations = rest ∙ reservations;
                consistent = still;
              },
            ))
          (λ _ _. kept)

    insert_lem :
        (p : Product)
        → Post
            (λ q v. Created (stored w.db.next_id p) w.db q v.db)
            (Kept w.db)
            (insert_product lower p w)
    unfolding insert_product Products.get_by_vendor_and_sku
    insert_lem p =
        Post-transaction (λ q d. Created (stored w.db.next_id p) w.db q d)
          (Products.get_by_vendor_and_sku lower tx_conn p.vendor_id p.sku >>= add p) w
          (λ gs.
            Post-bind (λ _ v. InTx w.db v)
              (λ q v. (v.db ≡ w.db) × Created (stored w.db.next_id p) w.db q v.tx) (Kept w.db)
              (Products.get_by_vendor_and_sku lower tx_conn p.vendor_id p.sku) (add p)
              (record w { tx = w.db; faults = gs })
              (Post-query (λ _ v. InTx w.db v) (Kept w.db) tx_conn _
                (record w { tx = w.db; faults = gs })
                (λ _. record { db = refl; tx = refl; clock = refl }) (λ _. refl))
              (λ o v h.
                Post-guard_then (λ q u. (u.db ≡ w.db) × Created (stored w.db.next_id p) w.db q u.tx)
                  (Kept w.db) (absent o) sku_already_exists (store p) v
                  (λ _.
                    Post-bind (λ q u. (u.db ≡ w.db) × Made p q u.tx)
                      (λ q u. (u.db ≡ w.db) × Created (stored w.db.next_id p) w.db q u.tx)
                      (Kept w.db) (Products.create lower tx_conn p)
                      (λ q. Products.ensure_inventory_row tx_conn q.id >> pure q) v
                      (create_lem p v h)
                      (λ q u (kept, made).
                        Post-bind
                          (λ _ t. (t.db ≡ w.db) × Created (stored w.db.next_id p) w.db q t.tx)
                          (λ x t. (t.db ≡ w.db) × Created (stored w.db.next_id p) w.db x t.tx)
                          (Kept w.db) (Products.ensure_inventory_row tx_conn q.id) (λ _. pure q) u
                          (ensure_lem p q u kept made) (λ _ _ k. k)))
                  (λ _. h.db)))
      where
        store : Product → Run Product
        store x = Products.create lower tx_conn x >>= λ q.
            Products.ensure_inventory_row tx_conn q.id >> pure q

        add : Product → Option Product → Run Product
        add x o = guard (absent o) sku_already_exists >> store x

  -- From consistent tables, `CreateProduct` leaves the tables as they were or returns a product.
  -- Then the caller is an admin or the vendor that the product is given to, no other product of
  -- that vendor has the SKU, the product has been added with the vendor, SKU, names and price of the
  -- input, active whatever the input says, and with a row in the stock, the reservations are as they were, and the database is consistent.
  pub create_product-Created :
      (ctx : Context) (input : ProductInput) (w : World Db)
      → IsConsistent w.db
      → Post
          (λ q v.
            MayCreate ctx input.vendor_id × Created (added w.db.next_id input w.clock) w.db q v.db)
          (Kept w.db)
          (create_product lower ctx input w)
  unfolding create_product
  create_product-Created ctx input w c =
      Post-bind (λ a v. (v ≡ w) × (ctx.user_id ≡ some a.0) × (ctx.role ≡ some a.1)) Done (Kept w.db)
        (require_auth ctx) (λ (user, role). checks user role) w
        (require_auth_lem ctx w (Kept w.db) (λ _ _ k. k))
        (λ (user, role) v (same, who, as_role). rw same (
          Post-guard_then Done (Kept w.db) (is_admin role || is_vendor role) forbidden
            (guard (not (is_vendor role && not (input.vendor_id == user))) forbidden >> rest) w
            (λ seller.
              Post-guard_then Done (Kept w.db)
                (not (is_vendor role && not (input.vendor_id == user))) forbidden rest w
                (λ own.
                  Post-guard_then Done (Kept w.db) (must_rub input.currency_code) currency_not_rub
                    insert w
                    (λ _.
                      Post-mono (λ q u. Created (added w.db.next_id input w.clock) w.db q u.db) Done
                        (Kept w.db) _ (insert_lem w c (new_product input w.clock))
                        (λ q u made. ((user, role, who, as_role, rw (seller, own) refl), made)))
                    (λ _. refl))
                (λ _. refl))
            (λ _. refl)))
    where
      Done : Product → World Db → Type 0
      Done q v =
          MayCreate ctx input.vendor_id × Created (added w.db.next_id input w.clock) w.db q v.db

      insert : Run Product
      insert = clock_now >>= λ now. insert_product lower (new_product input now)

      rest : Run Product
      rest = guard (must_rub input.currency_code) currency_not_rub >> insert

      checks : Uuid → Role → Run Product
      checks user role =
          guard (is_admin role || is_vendor role) forbidden
          >> (guard (not (is_vendor role && not (input.vendor_id == user))) forbidden >> rest)
