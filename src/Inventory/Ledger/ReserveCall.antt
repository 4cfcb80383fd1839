-- ===== src/Inventory/Ledger/ReserveCall.antt =====
-- `Reserve` as a whole: the test for an earlier reservation, the transaction, and what its caller
-- may rely on.
use order_hub.Base.{
  Uuid, ◌≡◌, refl, ap, sym, ◌∙◌, ◌⊎◌, inl, inr, Bool, true, false, List, [], ◌∷◌, arith,
}
use order_hub.Base.Rows.{any_where, select_where, order_by, insert_by}
use order_hub.Base.Store.{World, pool, transaction, ◌>>◌, guard}
use order_hub.Base.Post.{Post, Post-bind, Post-query, Post-guard_then, Post-transaction, Post-mono}
use order_hub.Inventory.Models.{Reservation, Db}
use order_hub.Inventory.Errors.{Run, reservation_exists}
use order_hub.Inventory.Repo.Reservations
use order_hub.Inventory.Repo.Reservations.{of_item, of_order, earlier}
use order_hub.Inventory.Service.Types.{ReserveItem, ReserveResult, empty_result}
use order_hub.Inventory.Service.Reserving.{is_empty, reserve, reserve_items}
use order_hub.Inventory.Ledger.Sums.{IsConsistent}
use order_hub.Inventory.Ledger.Statements.{Kept}
use order_hub.Inventory.Ledger.Steps.{ItemSteps, reserve_items-ItemSteps}
use order_hub.Inventory.Ledger.Reserving.{
  DistinctItems, AllFresh, total_stock, ItemSteps-IsConsistent,
}

-- the order has no reservation at all
abbrev pub IsNewOrder : Uuid → Db → Type 0
IsNewOrder oid d = any_where (of_order oid) d.reservations ≡ false

nonempty_insert :
    (before : Reservation → Reservation → Bool) (r : Reservation) (rows : List Reservation)
    → is_empty (order_by before (r ∷ rows)) ≡ false
unfolding order_by
nonempty_insert before r rows = go (order_by before rows)
  where
    go : (xs : List Reservation) → is_empty (insert_by before r xs) ≡ false
    go [] = refl
    go (x ∷ xs) = ground arith

-- no row listed, no row there
none_listed :
    (oid : Uuid) (rows : List Reservation)
    → is_empty (order_by earlier (select_where (of_order oid) rows)) ≡ true
    → any_where (of_order oid) rows ≡ false
unfolding select_where any_where
none_listed oid [] h = refl
none_listed oid (r ∷ rows) h =
    ground
      (arith, nonempty_insert earlier r (select_where (of_order oid) rows), none_listed oid rows)

new_order_item :
    (oid pid : Uuid) (rows : List Reservation)
    → any_where (of_order oid) rows ≡ false
    → any_where (of_item oid pid) rows ≡ false
unfolding any_where
new_order_item oid pid [] h = refl
new_order_item oid pid (r ∷ rows) h = ground (arith, new_order_item oid pid rows)

pub new_order_items :
    (oid : Uuid) (items : List ReserveItem) (d : Db) → IsNewOrder oid d → AllFresh oid items d
unfolding AllFresh
new_order_items oid [] d h = tt
new_order_items oid (it ∷ items) d h =
    (new_order_item oid it.product_id d.reservations h, new_order_items oid items d h)

fresh_items :
    (oid : Uuid) (items : List ReserveItem) (d : Db)
    → (items ≡ []) ⊎ IsNewOrder oid d
    → AllFresh oid items d
unfolding AllFresh
fresh_items oid [] d h = tt
fresh_items oid (it ∷ items) d (inl e) = cc
fresh_items oid (it ∷ items) d (inr h) = new_order_items oid (it ∷ items) d h

abbrev pub listed : Uuid → Db → List Reservation
listed oid d = order_by earlier (select_where (of_order oid) d.reservations)

list_by_order_pool :
    (oid : Uuid) (w : World Db)
    → Post
        (λ rows v. (rows ≡ listed oid w.db) × (v.db ≡ w.db))
        (Kept w.db)
        (Reservations.list_by_order pool oid w)
unfolding Reservations.list_by_order
list_by_order_pool oid w =
    Post-query (λ rows v. (rows ≡ listed oid w.db) × (v.db ≡ w.db)) (Kept w.db) pool _ w
      (λ _. (refl, refl)) (λ _. refl)

abbrev pub Outcome : Uuid → List ReserveItem → World Db → ReserveResult → World Db → Type 0
Outcome oid items w res v =
    ((items ≡ []) ⊎ IsNewOrder oid w.db) × ItemSteps oid items w.db empty_result v.db res

reserve_tx :
    (oid : Uuid) (items : List ReserveItem) (w : World Db)
    → IsNewOrder oid w.db
    → Post (Outcome oid items w) (Kept w.db) (transaction (reserve_items oid items empty_result) w)
reserve_tx oid items w fresh =
    Post-transaction
      (λ res d. ((items ≡ []) ⊎ IsNewOrder oid w.db) × ItemSteps oid items w.db empty_result d res)
      (reserve_items oid items empty_result) w
      (λ gs.
        Post-mono (λ res v. (v.db ≡ w.db) × ItemSteps oid items w.db empty_result v.tx res)
          (λ res v.
            (v.db ≡ w.db)
            × (((items ≡ []) ⊎ IsNewOrder oid w.db)
                × ItemSteps oid items w.db empty_result v.tx res))
          (Kept w.db) _
          (reserve_items-ItemSteps w.db w.clock oid items w.db empty_result
            (record w { tx = w.db; faults = gs }) refl
            (record { db = refl; tx = refl; clock = refl }))
          (λ res v (kept, steps). (kept, (inr fresh, steps))))

-- `Reserve` leaves the tables as they were, or it returns; then there were no items or the order
-- had no reservation, and the tables and the result come about by one step for each item, in their
-- order, each of a product that is there and of a quantity that is not 0: where the product is inactive it is
-- passed over with that reason; where it is active, its quantity is taken from the stock and it is
-- RESERVED, or too little is available and it is FAILED.
pub reserve-ItemSteps :
    (oid : Uuid) (items : List ReserveItem) (w : World Db)
    → Post (Outcome oid items w) (Kept w.db) (reserve oid items w)
unfolding reserve
reserve-ItemSteps oid [] w = (inl refl, (refl, refl))
reserve-ItemSteps oid (it ∷ items) w =
    Post-bind (λ rows v. (rows ≡ listed oid w.db) × (v.db ≡ w.db)) (Outcome oid (it ∷ items) w)
      (Kept w.db) (Reservations.list_by_order pool oid)
      (λ rows. guard (is_empty rows) reservation_exists >> body) w (list_by_order_pool oid w)
      (λ rows v (e, kept).
        Post-guard_then (Outcome oid (it ∷ items) w) (Kept w.db) (is_empty rows) reservation_exists
          body v
          (λ none_there.
            let fresh : IsNewOrder oid w.db =
              none_listed oid w.db.reservations (ap is_empty (sym e) ∙ none_there) in
            rw (← kept) (reserve_tx oid (it ∷ items) v (rw (← kept) at fresh)))
          (λ _. kept))
  where
    body : Run ReserveResult
    body = transaction (reserve_items oid (it ∷ items) empty_result)

-- From consistent tables, for an order that lists no product twice: whatever fails on the way,
-- `Reserve` leaves the tables as they were, or it returns a result and a database that is
-- consistent and in which each product has as much stock, available and reserved together, as
-- before.
pub reserve-IsConsistent :
    (oid : Uuid) (items : List ReserveItem) (w : World Db)
    → DistinctItems items
    → IsConsistent w.db
    → Post
        (λ res v. IsConsistent v.db × ((p : Uuid) → total_stock p v.db ≡ total_stock p w.db))
        (Kept w.db)
        (reserve oid items w)
reserve-IsConsistent oid items w distinct c =
    Post-mono (Outcome oid items w) _ (Kept w.db) _ (reserve-ItemSteps oid items w)
      (λ res v (fresh, steps).
        ItemSteps-IsConsistent oid items w.db empty_result v.db res distinct
          (fresh_items oid items w.db fresh) c steps)
