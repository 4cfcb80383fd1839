-- ===== src/Inventory/Ledger/Others.antt =====
-- What the other orders hold: neither `Reserve` nor `Release` of an order touches it.
use order_hub.Base.{Uuid, ◌≡◌, refl, false, List, [], ◌∷◌, arith, if◌then◌else◌}
use order_hub.Base.Int.{ℤ, pos, ◌+ℤ◌}
use order_hub.Base.Rows.{update_where, any_where}
use order_hub.Inventory.Models.{Reservation, ReservationStatus}
use order_hub.Inventory.Repo.Reservations.{of_item, of_order, with_status}
use order_hub.Inventory.Ledger.Sums.{weight, held}
use order_hub.Inventory.Ledger.Listing.{holds_stock}

abbrev pub weight_else : Uuid → Uuid → Reservation → ℤ
weight_else oid p r = if of_order oid r then pos 0 else weight p r

-- what the other orders hold of a product
unfoldable pub held_else : Uuid → Uuid → List Reservation → ℤ
held_else oid p [] = pos 0
held_else oid p (r ∷ rows) = weight_else oid p r +ℤ held_else oid p rows

-- an order that holds nothing leaves all that is held to the others
pub held-eq-else :
    (oid p : Uuid) (rows : List Reservation)
    → any_where (holds_stock oid) rows ≡ false
    → held p rows ≡ held_else oid p rows
unfolding any_where held held_else
held-eq-else oid p [] h = refl
held-eq-else oid p (r ∷ rows) h = ground (arith, held-eq-else oid p rows)

-- a change of the order's own rows is none of the others' business
pub held_else-update :
    (oid pid p : Uuid) (s : ReservationStatus) (rows : List Reservation)
    → held_else oid p (update_where (of_item oid pid) (with_status s) rows) ≡ held_else oid p rows
unfolding held_else update_where
held_else-update oid pid p s [] = refl
held_else-update oid pid p s (r ∷ rows) = ground (arith, held_else-update oid pid p s rows)
