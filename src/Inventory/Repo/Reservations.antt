-- ===== src/Inventory/Repo/Reservations.antt =====
-- reservation_repo.go: the statements on the table `reservations`.
use order_hub.Base.{ℕ, suc, Uuid, Time, Bool, List, ◌∷◌, ltb, ◌==◌, if◌then◌else◌, ◌&&◌}
use order_hub.Base.Int.{ℤ, pos, ltb_ℤ}
use order_hub.Base.Rows.{update_where, count_where, select_where, any_where, order_by}
use order_hub.Base.Store.{
  Result, ok, err, database, constraint, Conn, pure, clock_now, query, exec, ◌>>=◌,
}
use order_hub.Inventory.Models.{
  Product, Reservation, ReservationStatus, pending, reserved, released, failed, Db,
}
use order_hub.Inventory.Errors.{InventoryError, Run}

-- `order_id = ? AND product_id = ?`
abbrev pub of_item : Uuid → Uuid → Reservation → Bool
of_item oid pid r = r.order_id == oid && r.product_id == pid

abbrev pub of_order : Uuid → Reservation → Bool
of_order oid r = r.order_id == oid

abbrev pub pending_row : ℤ → Reservation → Reservation
pending_row q r = record r { quantity = q; status = pending }

abbrev pub with_status : ReservationStatus → Reservation → Reservation
with_status s r = record r { status = s }

abbrev pub new_row : Db → Uuid → Uuid → ℤ → Time → Reservation
new_row d oid pid q now = record {
  id = d.next_id;
  order_id = oid;
  product_id = pid;
  quantity = q;
  status = pending;
  created_at = now;
}

-- the rows after `INSERT ... ON CONFLICT (order_id, product_id) DO UPDATE`
abbrev pub upserted : Uuid → Uuid → ℤ → Time → Db → List Reservation
upserted oid pid q now d =
    if any_where (of_item oid pid) d.reservations
    then update_where (of_item oid pid) (pending_row q) d.reservations
    else new_row d oid pid q now ∷ d.reservations

-- the CHECK `quantity > 0` and the foreign key on `products`
abbrev pub upsert_allowed : Uuid → ℤ → Db → Bool
upsert_allowed pid q d = ltb_ℤ (pos 0) q && any_where (λ (p : Product). p.id == pid) d.products

unfoldable pub upsert_row : Uuid → Uuid → ℤ → Time → Db → Result InventoryError (Unit {0} × Db)
upsert_row oid pid q now d =
    if upsert_allowed pid q d
    then ok (tt, record d { reservations = upserted oid pid q now d; next_id = suc d.next_id })
    else err (database constraint)

unfoldable pub upsert_pending : Conn → Uuid → Uuid → ℤ → Run (Unit {0})
upsert_pending c oid pid q = do now ← clock_now; exec c (upsert_row oid pid q now)

unfoldable pub mark_rows :
    ReservationStatus → (Reservation → Bool) → Db → Result InventoryError (ℕ × Db)
mark_rows s fits d = ok (
  count_where fits d.reservations,
  record d { reservations = update_where fits (with_status s) d.reservations },
)

-- `MarkReserved`, `MarkReleased`, `MarkFailed`: one statement each, which differ in the status
unfoldable pub mark : ReservationStatus → Conn → Uuid → Uuid → Run Bool
mark s c oid pid = do n ← exec c (mark_rows s (of_item oid pid)); pure (ltb 0 n)

unfoldable pub mark_reserved : Conn → Uuid → Uuid → Run Bool
unfolding mark
mark_reserved = mark reserved

unfoldable pub mark_released : Conn → Uuid → Uuid → Run Bool
unfolding mark
mark_released = mark released

unfoldable pub mark_failed : Conn → Uuid → Uuid → Run Bool
unfolding mark
mark_failed = mark failed

-- `created_at ASC`
abbrev pub earlier : Reservation → Reservation → Bool
earlier r x = ltb r.created_at x.created_at

unfoldable pub list_by_order : Conn → Uuid → Run (List Reservation)
list_by_order c oid =
    query c (λ d. ok (order_by earlier (select_where (of_order oid) d.reservations)))

unfoldable pub release_by_order : Conn → Uuid → Run ℕ
release_by_order c oid = exec c (mark_rows released (of_order oid))

unfoldable pub confirm_by_order : Conn → Uuid → Run ℕ
confirm_by_order c oid = exec c (mark_rows reserved (of_order oid))

unfoldable pub exists_item : Conn → Uuid → Uuid → Run Bool
exists_item c oid pid = query c (λ d. ok (ltb 0 (count_where (of_item oid pid) d.reservations)))
