-- ===== src/Inventory/Service/Reserving.antt =====
-- The saga's steps: `Reserve`, `Release`, `Confirm`.
use order_hub.Base.{
  ℕ, ◌+◌, Uuid, str_eq, Bool, true, false, Option, none, some, List, [], ◌∷◌, ◌++◌, ◌==◌,
  if◌then◌else◌, not,
}
use order_hub.Base.Int.{to_int32}
use order_hub.Base.Store.{
  ok, err, pool, tx_conn, service, pure, fail, guard, transaction, ◌>>=◌, ◌>>◌,
}
use order_hub.Inventory.Models.{Product, Reservation, ReservationStatus}
use order_hub.Inventory.Errors.{Run, reservation_exists, currency_not_rub, invalid_quantity}
use order_hub.Inventory.Repo.Stock
use order_hub.Inventory.Repo.Products
use order_hub.Inventory.Repo.Products.{currency_rub}
use order_hub.Inventory.Repo.Reservations
use order_hub.Inventory.Service.Types.{
  ReserveItem, Reason, not_found, inactive, out_of_stock, ReserveResult, empty_result,
}

abbrev pub add_ok : ReserveItem → ReserveResult → ReserveResult
add_ok it res = record res {
  ok_items = res.ok_items ++ (record { product_id = it.product_id; quantity = it.quantity }) ∷ [];
}

abbrev pub add_failed : ReserveItem → Reason → ReserveResult → ReserveResult
add_failed it why res = record res {
  failed =
      res.failed
      ++ (record { product_id = it.product_id; requested = it.quantity; reason = why }) ∷ [];
}

-- what follows `TryReserve` in the loop
unfoldable pub settle : Uuid → ReserveItem → ReserveResult → Bool → Run ReserveResult
settle oid it res true = do
  Reservations.mark_reserved tx_conn oid it.product_id
  pure (add_ok it res)
settle oid it res false = do
  Reservations.mark_failed tx_conn oid it.product_id
  pure (add_failed it out_of_stock res)

-- the writes of the loop for one item that may be sold
unfoldable pub reserve_one : Uuid → ReserveItem → ReserveResult → Run ReserveResult
unfolding settle
reserve_one oid it res = do
  Reservations.upsert_pending tx_conn oid it.product_id (to_int32 it.quantity)
  done ← Stock.try_reserve tx_conn it.product_id (to_int32 it.quantity)
  settle oid it res done

unfoldable pub reserve_found :
    Uuid → ReserveItem → ReserveResult → Option Product → Run ReserveResult
unfolding reserve_one
reserve_found oid it res none = pure (add_failed it not_found res)
reserve_found oid it res (some p) =
    if not p.is_active
    then pure (add_failed it inactive res)
    else if not (str_eq p.currency_code currency_rub)
    then fail (service currency_not_rub)
    else reserve_one oid it res

-- the body of the loop over the items; the product is read through the pool
unfoldable pub reserve_item : Uuid → ReserveItem → ReserveResult → Run ReserveResult
unfolding reserve_found
reserve_item oid it res = do
  guard (not (it.quantity == 0)) invalid_quantity
  p ← Products.get_by_id pool it.product_id
  reserve_found oid it res p

unfoldable pub reserve_items : Uuid → List ReserveItem → ReserveResult → Run ReserveResult
reserve_items oid [] res = pure res
reserve_items oid (it ∷ items) res = do res' ← reserve_item oid it res; reserve_items oid items res'

abbrev pub is_empty {ℓ} : {A : Type ℓ} → List A → Bool
is_empty [] = true
is_empty _ = false

unfoldable pub reserve : Uuid → List ReserveItem → Run ReserveResult
reserve oid [] = pure empty_result
reserve oid (it ∷ items) = do
  existing ← Reservations.list_by_order pool oid
  guard (is_empty existing) reservation_exists
  transaction (reserve_items oid (it ∷ items) empty_result)

abbrev pub is_reserved : ReservationStatus → Bool
is_reserved ReservationStatus.reserved = true
is_reserved _ = false

abbrev pub count_if : Bool → ℕ → ℕ
count_if true n = n + 1
count_if false n = n

-- gives the row's quantity back to the stock, if it holds any
abbrev pub give_back : Reservation → ℕ → Run ℕ
give_back r total =
    if is_reserved r.status
    then (do done ← Stock.release tx_conn r.product_id r.quantity; pure (count_if done total))
    else pure total

unfoldable pub release_one : Uuid → Reservation → ℕ → Run ℕ
release_one oid r total = do
  total' ← give_back r total
  Reservations.mark_released tx_conn oid r.product_id
  pure total'

unfoldable pub release_rows : Uuid → List Reservation → ℕ → Run ℕ
release_rows oid [] total = pure total
release_rows oid (r ∷ rows) total = do
  total' ← release_one oid r total
  release_rows oid rows total'

unfoldable pub release : Uuid → Run ℕ
release oid = transaction do rows ← Reservations.list_by_order tx_conn oid; release_rows oid rows 0

-- The first argument of the repository's `Confirm` is the reservation's own identifier, `r.ID`.
unfoldable pub confirm_one : Reservation → ℕ → Run ℕ
confirm_one r total =
    if is_reserved r.status
    then (do done ← Stock.confirm tx_conn r.id r.quantity; pure (count_if done total))
    else pure total

unfoldable pub confirm_rows : List Reservation → ℕ → Run ℕ
confirm_rows [] total = pure total
confirm_rows (r ∷ rows) total = do total' ← confirm_one r total; confirm_rows rows total'

-- `if err != nil { return nil }` after `ListByOrder`: its error is swallowed
abbrev pub or_nothing : Run (List Reservation) → Run (List Reservation)
or_nothing m w = let (r, w') = m w in elim r [ ok rows ↦ (ok rows, w') | err _ ↦ (ok [], w') ]

unfoldable pub confirm : Uuid → Run ℕ
confirm oid =
    transaction do rows ← or_nothing (Reservations.list_by_order tx_conn oid); confirm_rows rows 0
