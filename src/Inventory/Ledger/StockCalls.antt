-- ===== src/Inventory/Ledger/StockCalls.antt =====
-- `SetStock` and `AdjustStock`.
use order_hub.Base.{
  ℕ, Uuid, Time, ◌≡◌, refl, ◌∙◌, ◌⊎◌, inl, inr, Bool, false, not, ◌&&◌, List, [], ◌∷◌, arith, ltb,
  ◌==◌,
}
use order_hub.Base.Int.{ℤ, pos, leb_ℤ, ◌+ℤ◌}
use order_hub.Base.Rows.{update_where, any_where, find_where}
use order_hub.Base.Store.{World, ok, Error, pool, exec, pure, ◌>>=◌, ◌>>◌}
use order_hub.Base.Post.{Post, Post-bind, Post-query, Post-exec_pool, Post-mono}
use order_hub.Inventory.Models.{Inventory, Db}
use order_hub.Inventory.Errors.{InventoryError, Context, Run}
use order_hub.Inventory.Repo.Stock
use order_hub.Inventory.Repo.Stock.{
  of_product, row_allowed, set_row, can_adjust, adjust_row, update_stock,
}
use order_hub.Inventory.Service.StockLevels.{set_stock, adjust_stock, managed_product}
use order_hub.Inventory.Guards.{MayManage, Managed, Loaded, managed_product_lem}
use order_hub.Inventory.Ledger.Sums.{sum_stock, IsConsistent}
use order_hub.Inventory.Ledger.Keys.{update-StockKeys, update-AllAllowed}
use order_hub.Inventory.Ledger.Statements.{update_stock-ok}

reserved-update :
    (fits : Inventory → Bool) (set : Inventory → Inventory) (p : Uuid)
    → ((r : Inventory) → (set r).product_id ≡ r.product_id)
    → ((r : Inventory) → (set r).reserved ≡ r.reserved)
    → (rows : List Inventory)
    → sum_stock (λ r. r.reserved) p (update_where fits set rows)
      ≡ sum_stock (λ r. r.reserved) p rows
unfolding sum_stock update_where
reserved-update fits set p keeps holds [] = refl
reserved-update fits set p keeps holds (r ∷ rows) =
    ground (arith, keeps r, holds r, reserved-update fits set p keeps holds rows)

-- the tables after an update of the stock
abbrev pub restocked : (Inventory → Bool) → (Inventory → Inventory) → Db → Db
restocked fits set d = record d { inventories = update_where fits set d.inventories }

-- An update that the CHECKs accept and that holds nothing back keeps the invariant.
restocked-IsConsistent :
    (fits : Inventory → Bool) (set : Inventory → Inventory) (d : Db)
    → ((r : Inventory) → (set r).product_id ≡ r.product_id)
    → ((r : Inventory) → (set r).reserved ≡ r.reserved)
    → any_where (λ r. fits r && not (row_allowed (set r))) d.inventories ≡ false
    → IsConsistent d
    → IsConsistent (restocked fits set d)
restocked-IsConsistent fits set d keeps holds fine c = record {
  stock_keys = update-StockKeys fits set keeps d.inventories c.stock_keys;
  item_keys = c.item_keys;
  allowed = update-AllAllowed fits set d.inventories c.allowed fine;
  positive = c.positive;
  ledger = λ p. reserved-update fits set p keeps holds d.inventories ∙ c.ledger p;
}

-- the caller manages the product, its stock is written, and the database is consistent
pub record Restocked (ctx : Context) (id : Uuid) (fits : Inventory → Bool)
    (set : Inventory → Inventory) (d d' : Db) : Type 0 where
  pub managed : Managed ctx id d
  pub written : d' ≡ restocked fits set d
  pub consistent : IsConsistent d'

module _ (ctx : Context) (id : Uuid) (w : World Db) (c : IsConsistent w.db)
    (fits : Inventory → Bool) (set : Time → Inventory → Inventory)
    (keeps : (r : Inventory) → (set w.clock r).product_id ≡ r.product_id)
    (holds : (r : Inventory) → (set w.clock r).reserved ≡ r.reserved) where
  abbrev Written : Db → Type 0
  Written d = Restocked ctx id fits (set w.clock) w.db d

  abbrev X : Error InventoryError → World Db → Type 0
  X _ v = (v.db ≡ w.db) ⊎ Written v.db

  -- the statement on the pool, and the query of the row that follows it
  restock_lem :
      {A : Type 0} (f : ℕ → Run A) (v : World Db)
      → v.db ≡ w.db
      → v.clock ≡ w.clock
      → Managed ctx id w.db
      → ((n : ℕ) (u : World Db) → Written u.db → Post (λ _ t. Written t.db) X (f n u))
      → Post (λ _ t. Written t.db) X ((exec pool (update_stock fits (set v.clock)) >>= f) v)
  restock_lem f v kept at managed next =
      Post-bind (λ _ u. Written u.db) (λ _ t. Written t.db) X
        (exec pool (update_stock fits (set v.clock))) f v
        (Post-exec_pool (λ _ u. Written u.db) X (update_stock fits (set v.clock)) v
          (λ n d gs e. written n d (rw (kept, at) at e)) (λ _ _. inl kept))
        next
    where
      written : (n : ℕ) (d : Db) → update_stock fits (set w.clock) w.db ≡ ok (n, d) → Written d
      written n d e =
          let (fine, _, table) = update_stock-ok fits (set w.clock) w.db n d e in
          record {
            managed = managed;
            written = table;
            consistent =
                rw table (restocked-IsConsistent fits (set w.clock) w.db keeps holds fine c);
          }

  get_lem : (v : World Db) → Written v.db → Post (λ _ t. Written t.db) X (Stock.get pool id v)
  unfolding Stock.get
  get_lem v h =
      Post-query (λ _ t. Written t.db) X pool (λ d. ok (find_where (of_product id) d.inventories)) v
        (λ _. h) (λ _. inr h)

  abbrev write : {A : Type 0} → (ℕ → Run A) → Run A
  write f v = (exec pool (update_stock fits (set v.clock)) >>= f) v

  -- a call that checks, writes, and reads the row again
  managed_lem :
      {A : Type 0} (f : ℕ → Run A)
      → ((n : ℕ) (u : World Db) → Written u.db → Post (λ _ t. Written t.db) X (f n u))
      → Post (λ _ t. Written t.db) X ((managed_product ctx id >> (write f >> Stock.get pool id)) w)
  managed_lem f next =
      Post-bind (λ p v. (v.db ≡ w.db) × (v.clock ≡ w.clock) × Managed ctx id w.db)
        (λ _ t. Written t.db) X (managed_product ctx id) (λ _. write f >> Stock.get pool id) w
        (Post-mono (λ p v. Loaded ctx w X (λ _ _ k. inl k) id p v × MayManage ctx p.vendor_id)
          (λ p v. (v.db ≡ w.db) × (v.clock ≡ w.clock) × Managed ctx id w.db) X _
          (managed_product_lem ctx w X (λ _ _ k. inl k) id)
          (λ p v ((kept, at, found), may). (kept, at, (p, found, may))))
        (λ p v (kept, at, managed).
          Post-bind (λ _ t. Written t.db) (λ _ t. Written t.db) X (write f) (λ _. Stock.get pool id)
            v (restock_lem f v kept at managed next) (λ _ u h. get_lem u h))

abbrev pub is_product : Uuid → Inventory → Bool
is_product id r = r.product_id == id

-- the row with so much available
abbrev pub with_available : ℤ → Time → Inventory → Inventory
with_available n now r = record {
  product_id = r.product_id;
  available = n;
  reserved = r.reserved;
  updated_at = now;
}

-- the rows of the product where the sum is not below zero
abbrev pub stays_above : Uuid → ℤ → Inventory → Bool
stays_above id delta r = r.product_id == id && leb_ℤ (pos 0) (r.available +ℤ delta)

-- `SetStock` keeps the database consistent. It returns only if the caller is an admin or the vendor of
-- the product; then the available stock of that product alone is what was asked. Where it fails it has
-- written nothing, or all of that and could not read the row again.
pub set_stock-Restocked :
    (ctx : Context) (id : Uuid) (available : ℤ) (w : World Db)
    → IsConsistent w.db
    → Post
        (λ _ v. Restocked ctx id (is_product id) (with_available available w.clock) w.db v.db)
        (λ _ v.
          (v.db ≡ w.db)
          ⊎ Restocked ctx id (is_product id) (with_available available w.clock) w.db v.db)
        (set_stock ctx id available w)
unfolding set_stock Stock.set_available
set_stock-Restocked ctx id available w c =
    managed_lem ctx id w c (of_product id) (set_row available) (λ _. refl) (λ _. refl)
      (λ _. pure tt) (λ _ _ h. h)

-- `AdjustStock` keeps the database consistent. It returns only if the caller is an admin or the vendor of
-- the product; then the change is added to the available stock of that product, unless the sum is below
-- zero: the stock is left as it was, and the caller is not told. Where it fails it has written nothing,
-- or all of that and could not read the row again.
pub adjust_stock-Restocked :
    (ctx : Context) (id : Uuid) (delta : ℤ) (w : World Db)
    → IsConsistent w.db
    → Post
        (λ _ v.
          Restocked ctx id
            (stays_above id delta)
            (λ r. with_available (r.available +ℤ delta) w.clock r)
            w.db
            v.db)
        (λ _ v.
          (v.db ≡ w.db)
          ⊎ Restocked ctx id
              (stays_above id delta)
              (λ r. with_available (r.available +ℤ delta) w.clock r)
              w.db
              v.db)
        (adjust_stock ctx id delta w)
unfolding adjust_stock Stock.adjust_available
adjust_stock-Restocked ctx id delta w c =
    managed_lem ctx id w c (can_adjust id delta) (adjust_row delta) (λ _. refl) (λ _. refl)
      (λ n. pure (ltb 0 n)) (λ _ _ h. h)
