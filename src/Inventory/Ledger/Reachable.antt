-- ===== src/Inventory/Ledger/Reachable.antt =====
-- Calls one after another, each with whatever fails in it.
use order_hub.Base.{ℕ, Uuid, ◌≡◌, String, Option, List, false, ◌⊎◌, inl, inr}
use order_hub.Base.Int.{ℤ}
use order_hub.Base.Rows.{any_where, count_where}
use order_hub.Base.Store.{World, Result}
use order_hub.Base.Post.{Post-map, Post-either}
use order_hub.Inventory.Models.{Inventory, Product, Db}
use order_hub.Inventory.Errors.{InventoryError, Context}
use order_hub.Inventory.Repo.Stock.{of_product, set_row, can_adjust, adjust_row}
use order_hub.Inventory.Service.Types.{ReserveItem, ReserveResult, ProductPatch}
use order_hub.Inventory.Service.Catalog.{update_product}
use order_hub.Inventory.Service.StockLevels.{set_stock, adjust_stock}
use order_hub.Inventory.Service.Reserving.{reserve, release, confirm}
use order_hub.Inventory.Ledger.Sums.{IsConsistent}
use order_hub.Inventory.Ledger.Reserving.{DistinctItems, total_stock}
use order_hub.Inventory.Ledger.Statements.{Kept}
use order_hub.Inventory.Ledger.Listing.{holds_stock}
use order_hub.Inventory.Ledger.ReserveCall.{reserve-IsConsistent}
use order_hub.Inventory.Ledger.ReleaseCall.{Released, release-Released}
use order_hub.Inventory.Ledger.ConfirmCall.{id_names_stock, confirm-changes_nothing}
use order_hub.Inventory.Ledger.StockCalls.{Restocked, set_stock-Restocked, adjust_stock-Restocked}
use order_hub.Inventory.Ledger.PriceCalls.{Edited, update_product-Edited}
use order_hub.Inventory.Service.Types.{ProductInput}
use order_hub.Inventory.Service.Catalog.{create_product}
use order_hub.Inventory.Ledger.CreateCall.{Created, added, MayCreate, create_product-Created}

-- A call, from the tables before it to the tables after it, whether it returns or fails. A request to
-- reserve lists no product twice, and at a confirmation no reservation's identifier is a product's.
pub data Call (lower : String → String) (d d' : Db) : Type 0 where
  reserving :
      (w v : World Db) (r : Result InventoryError ReserveResult) (oid : Uuid)
      (items : List ReserveItem)
      → DistinctItems items
      → reserve oid items w ≡ (r, v)
      → d ≡ w.db
      → d' ≡ v.db
      → Call lower d d'
  releasing :
      (w v : World Db) (r : Result InventoryError ℕ) (oid : Uuid)
      → release oid w ≡ (r, v)
      → d ≡ w.db
      → d' ≡ v.db
      → Call lower d d'
  confirming :
      (w v : World Db) (r : Result InventoryError ℕ) (oid : Uuid)
      → any_where (id_names_stock oid w.db) w.db.reservations ≡ false
      → confirm oid w ≡ (r, v)
      → d ≡ w.db
      → d' ≡ v.db
      → Call lower d d'
  setting :
      (w v : World Db) (r : Result InventoryError (Option Inventory)) (ctx : Context) (id : Uuid)
      (available : ℤ)
      → set_stock ctx id available w ≡ (r, v)
      → d ≡ w.db
      → d' ≡ v.db
      → Call lower d d'
  adjusting :
      (w v : World Db) (r : Result InventoryError (Option Inventory)) (ctx : Context) (id : Uuid)
      (delta : ℤ)
      → adjust_stock ctx id delta w ≡ (r, v)
      → d ≡ w.db
      → d' ≡ v.db
      → Call lower d d'
  editing :
      (w v : World Db) (r : Result InventoryError (Option Product)) (ctx : Context) (id : Uuid)
      (patch : ProductPatch)
      → update_product lower ctx id patch w ≡ (r, v)
      → d ≡ w.db
      → d' ≡ v.db
      → Call lower d d'
  creating :
      (w v : World Db) (r : Result InventoryError Product) (ctx : Context) (input : ProductInput)
      → create_product lower ctx input w ≡ (r, v)
      → d ≡ w.db
      → d' ≡ v.db
      → Call lower d d'

pub data Calls (lower : String → String) (d : Db) : Db → Type 0 where
  none_yet : Calls lower d d
  then_call : {d1 d2 : Db} → Calls lower d d1 → Call lower d1 d2 → Calls lower d d2

Call-IsConsistent :
    (lower : String → String) (d d' : Db) → Call lower d d' → IsConsistent d → IsConsistent d'
Call-IsConsistent lower d d' (reserving w v r oid items distinct run before after) c =
    let c1 : IsConsistent w.db = rw (← before) c in
    rw after (
      Post-either (λ u. IsConsistent u.db) r v
        (rw run at (
          Post-map
            (λ res u. IsConsistent u.db × ((p : Uuid) → total_stock p u.db ≡ total_stock p w.db))
            (λ _ u. IsConsistent u.db) (Kept w.db) (λ _ u. IsConsistent u.db) _
            (reserve-IsConsistent oid items w distinct c1) (λ _ u h. h.0) (λ _ u k. rw k c1))))
Call-IsConsistent lower d d' (releasing w v r oid run before after) c =
    let c1 : IsConsistent w.db = rw (← before) c in
    rw after (
      Post-either (λ u. IsConsistent u.db) r v
        (rw run at (
          Post-map
            (λ n u. Released oid w.db u.db × (n ≡ count_where (holds_stock oid) w.db.reservations))
            (λ _ u. IsConsistent u.db) (Kept w.db) (λ _ u. IsConsistent u.db) _
            (release-Released oid w c1) (λ _ u h. h.0.consistent) (λ _ u k. rw k c1))))
Call-IsConsistent lower d d' (confirming w v r oid others run before after) c =
    let c1 : IsConsistent w.db = rw (← before) c in
    rw after (
      Post-either (λ u. IsConsistent u.db) r v
        (rw run at (
          Post-map (λ n u. (u.db ≡ w.db) × (n ≡ 0)) (λ _ u. IsConsistent u.db) (Kept w.db)
            (λ _ u. IsConsistent u.db) _ (confirm-changes_nothing oid w others) (λ _ u h. rw h.0 c1)
            (λ _ u k. rw k c1))))
Call-IsConsistent lower d d' (setting w v r ctx id available run before after) c =
    let c1 : IsConsistent w.db = rw (← before) c in
    rw after (
      Post-either (λ u. IsConsistent u.db) r v
        (rw run at (
          Post-map (λ _ u. Restocked ctx id (of_product id) (set_row available w.clock) w.db u.db)
            (λ _ u. IsConsistent u.db)
            (λ _ u.
              (u.db ≡ w.db)
              ⊎ Restocked ctx id (of_product id) (set_row available w.clock) w.db u.db)
            (λ _ u. IsConsistent u.db) _ (set_stock-Restocked ctx id available w c1)
            (λ _ u h. h.consistent)
            (λ _ u k. elim k [ inl kept ↦ rw kept c1 | inr h ↦ h.consistent ]))))
Call-IsConsistent lower d d' (adjusting w v r ctx id delta run before after) c =
    let c1 : IsConsistent w.db = rw (← before) c in
    rw after (
      Post-either (λ u. IsConsistent u.db) r v
        (rw run at (
          Post-map
            (λ _ u. Restocked ctx id (can_adjust id delta) (adjust_row delta w.clock) w.db u.db)
            (λ _ u. IsConsistent u.db)
            (λ _ u.
              (u.db ≡ w.db)
              ⊎ Restocked ctx id (can_adjust id delta) (adjust_row delta w.clock) w.db u.db)
            (λ _ u. IsConsistent u.db) _ (adjust_stock-Restocked ctx id delta w c1)
            (λ _ u h. h.consistent)
            (λ _ u k. elim k [ inl kept ↦ rw kept c1 | inr h ↦ h.consistent ]))))
Call-IsConsistent lower d d' (creating w v r ctx input run before after) c =
    let c1 : IsConsistent w.db = rw (← before) c in
    rw after (
      Post-either (λ u. IsConsistent u.db) r v
        (rw run at (
          Post-map
            (λ q u.
              MayCreate lower ctx input.vendor_id
              × Created lower (added w.db.next_id input w.clock) w.db q u.db)
            (λ _ u. IsConsistent u.db) (Kept w.db) (λ _ u. IsConsistent u.db) _
            (create_product-Created lower ctx input w c1) (λ _ u h. h.1.consistent)
            (λ _ u k. rw k c1))))
Call-IsConsistent lower d d' (editing w v r ctx id patch run before after) c =
    let c1 : IsConsistent w.db = rw (← before) c in
    rw after (
      Post-either (λ u. IsConsistent u.db) r v
        (rw run at (
          Post-map (λ _ u. Edited ctx id w.db u.db) (λ _ u. IsConsistent u.db)
            (λ _ u. (u.db ≡ w.db) ⊎ Edited ctx id w.db u.db) (λ _ u. IsConsistent u.db) _
            (update_product-Edited lower ctx id w patch) (λ _ u h. edited w.db u.db c1 h)
            (λ _ u k. elim k [ inl kept ↦ rw kept c1 | inr h ↦ edited w.db u.db c1 h ]))))
  where
    edited : (a b : Db) → IsConsistent a → Edited ctx id a b → IsConsistent b
    edited a b k h = record {
      stock_keys = rw h.inventories k.stock_keys;
      item_keys = rw h.reservations k.item_keys;
      allowed = rw h.inventories k.allowed;
      positive = rw h.reservations k.positive;
      ledger = λ p. rw (h.inventories, h.reservations) (k.ledger p);
    }

-- From consistent tables no sequence of calls of `Reserve`, `Release`, `Confirm`, `SetStock`,
-- `AdjustStock`, `CreateProduct` and `UpdateProduct` leads to inconsistent ones, whichever
-- statements fail in them: no stock is below zero, available or reserved, and what a row holds
-- back is what the product's RESERVED reservations hold. A request to reserve lists no product
-- twice, and where a confirmation is made, no identifier of the order's reservations is that of a
-- product in stock.
pub Calls-IsConsistent :
    (lower : String → String) (d d' : Db) → Calls lower d d' → IsConsistent d → IsConsistent d'
Calls-IsConsistent lower d _ none_yet c = c
Calls-IsConsistent lower d d2 (then_call {d1 = d1} calls call) c =
    Call-IsConsistent lower d1 d2 call (Calls-IsConsistent lower d d1 calls c)
