-- ===== src/Inventory/Ledger/RoundTrip.antt =====
-- `Reserve` followed by `Release` of the same order: each product's stock is as it was.
use order_hub.Base.{ℕ, Uuid, ◌≡◌, refl, sym, ap, ◌∙◌, false, List, [], ◌∷◌, arith, ◌==◌}
use order_hub.Base.Int.{ℤ, ◌+ℤ◌, ◌-ℤ◌, int_laws, zero-+ℤ}
use order_hub.Base.Rows.{any_where, count_where}
use order_hub.Base.Store.{World, ok}
use order_hub.Inventory.Models.{Inventory, Reservation, Db, reserved, failed}
use order_hub.Inventory.Service.Reserving.{reserve, release}
use order_hub.Inventory.Service.Types.{ReserveItem, ReserveResult, empty_result}
use order_hub.Inventory.Ledger.Sums.{sum_stock, IsConsistent}
use order_hub.Inventory.Ledger.Others.{held_else, held-eq-else}
use order_hub.Inventory.Ledger.Listing.{holds_stock}
use order_hub.Inventory.Ledger.Steps.{ItemStep, ItemSteps, skip, take, refuse, taken_stock}
use order_hub.Inventory.Ledger.Reserving.{
  IsFresh, AllFresh, DistinctItems, entered_fresh, total_stock, step-AllFresh, step-IsConsistent,
}
use order_hub.Inventory.Ledger.ReserveCall.{
  IsNewOrder, Outcome, reserve-ItemSteps, reserve-IsConsistent, new_order_items,
}
use order_hub.Inventory.Ledger.ReleaseCall.{Released, release-Released}

pub sum_stock-+ :
    (p : Uuid) (rows : List Inventory)
    → sum_stock (λ r. r.available +ℤ r.reserved) p rows
      ≡ sum_stock (λ r. r.available) p rows +ℤ sum_stock (λ r. r.reserved) p rows
unfolding sum_stock
sum_stock-+ p [] = omega int_laws
sum_stock-+ p (r ∷ rows) = grind (int_laws, sum_stock-+ p rows)

step-others :
    (oid : Uuid) (it : ReserveItem) (d : Db)
    → IsFresh oid it.product_id d
    → {d' : Db} {res res' : ReserveResult} (p : Uuid) → ItemStep oid it d res d' res'
    → held_else oid p d'.reservations ≡ held_else oid p d.reservations
unfolding held_else
step-others oid it d fresh p (skip why e _) = ap (λ t. held_else oid p t.reservations) e
step-others oid it d fresh p (take now o a n t e _) =
    rw (e ∙ entered_fresh oid it reserved now (taken_stock it now d) d fresh)
      (ground (arith, zero-+ℤ (held_else oid p d.reservations)))
step-others oid it d fresh p (refuse now o a n e _) =
    rw (e ∙ entered_fresh oid it failed now (taken_stock it now d) d fresh)
      (ground (arith, zero-+ℤ (held_else oid p d.reservations)))

steps-others :
    (oid : Uuid) (items : List ReserveItem) (d : Db) (res : ReserveResult) (d' : Db)
    (res' : ReserveResult) (p : Uuid)
    → DistinctItems items
    → AllFresh oid items d
    → IsConsistent d
    → ItemSteps oid items d res d' res'
    → held_else oid p d'.reservations ≡ held_else oid p d.reservations
unfolding DistinctItems AllFresh
steps-others oid [] d res d' res' p distinct fresh c (e, _) =
    ap (λ t. held_else oid p t.reservations) e
steps-others oid (it ∷ items) d res d' res' p distinct fresh c (d1, res1, s, rest) =
    steps-others oid items d1 res1 d' res' p distinct.1
      (step-AllFresh oid it d fresh.0 c s items distinct.0 fresh.1)
      (step-IsConsistent oid it d fresh.0 c s) rest
    ∙ step-others oid it d fresh.0 p s

none_of_order :
    (oid : Uuid) (rows : List Reservation)
    → any_where (λ (r : Reservation). r.order_id == oid) rows ≡ false
    → any_where (holds_stock oid) rows ≡ false
unfolding any_where
none_of_order oid [] h = refl
none_of_order oid (r ∷ rows) h = ground (arith, none_of_order oid rows)

cancel_right : (a b c d : ℤ) → a +ℤ b ≡ c +ℤ d → b ≡ d → a ≡ c
cancel_right a b c d e f =
    minus_back a b ∙ ap (λ t. t -ℤ b) (e ∙ ap (λ t. c +ℤ t) (sym f)) ∙ sym (minus_back c b)
  where
    minus_back : (x y : ℤ) → x ≡ x +ℤ y -ℤ y
    minus_back x y = omega int_laws

-- From consistent tables, of a new order that lists no product twice: once `Reserve` and then `Release` have returned, each
-- product has as much available, and as much reserved, as before `Reserve`.
pub reserve-release :
    (oid : Uuid) (items : List ReserveItem) (w w1 w2 : World Db) (res : ReserveResult) (n : ℕ)
    → DistinctItems items
    → IsConsistent w.db
    → IsNewOrder oid w.db
    → reserve oid items w ≡ (ok res, w1)
    → release oid w1 ≡ (ok n, w2)
    → (p : Uuid)
    → (sum_stock (λ r. r.available) p w2.db.inventories
        ≡ sum_stock (λ r. r.available) p w.db.inventories)
      × (sum_stock (λ r. r.reserved) p w2.db.inventories
          ≡ sum_stock (λ r. r.reserved) p w.db.inventories)
reserve-release oid items w w1 w2 res n distinct c fresh e1 e2 p =
    let (_, steps) = outcome in
    let (c1, same1) = kept in
    let (done, _) = undone c1 in
    let back : sum_stock (λ r. r.reserved) p w2.db.inventories
        ≡ sum_stock (λ r. r.reserved) p w.db.inventories =
      done.consistent.ledger p
      ∙ held-eq-else oid p w2.db.reservations done.none_held
      ∙ done.others p
      ∙ steps-others oid items w.db empty_result w1.db res p distinct
          (new_order_items oid items w.db fresh) c steps
      ∙ sym (held-eq-else oid p w.db.reservations (none_of_order oid w.db.reservations fresh))
      ∙ sym (c.ledger p) in
    (
      cancel_right _ _ _ _
          (sym (sum_stock-+ p w2.db.inventories)
            ∙ (done.total p ∙ same1 p)
            ∙ sum_stock-+ p w.db.inventories)
          back,
      back,
    )
  where
    outcome : Outcome oid items w res w1
    outcome = rw e1 at (reserve-ItemSteps oid items w)

    kept : IsConsistent w1.db × ((q : Uuid) → total_stock q w1.db ≡ total_stock q w.db)
    kept = rw e1 at (reserve-IsConsistent oid items w distinct c)

    undone :
        IsConsistent w1.db
        → Released oid w1.db w2.db × (n ≡ count_where (holds_stock oid) w1.db.reservations)
    undone c1 = rw e2 at (release-Released oid w1 c1)
