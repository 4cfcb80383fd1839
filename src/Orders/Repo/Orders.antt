-- ===== src/Orders/Repo/Orders.antt =====
-- order_repo.go: the statements on the table `orders`.
use Prim.Native.String.{String}
use order_hub.Base.{
  ℕ, suc, Uuid, Time, Bool, true, false, Option, none, some, List, [], ◌∷◌, ltb, ◌==◌,
  if◌then◌else◌, ◌&&◌, not,
}
use order_hub.Base.Int.{ℤ, pos, leb_ℤ, ltb_ℤ, pos_part}
use order_hub.Base.Rows.{
  update_where, count_where, select_where, find_where, any_where, order_by, take, drop,
}
use order_hub.Base.Store.{
  Result, ok, err, database, constraint, Conn, pure, clock_now, query, exec, ◌>>=◌,
}
use order_hub.Orders.Models.{Order, OrderItem, OrderStatus, Bytes, Db, OrderError, Run}

-- `char_length`
abbrev pub char_length : String → ℕ
char_length String.[] = 0
char_length (String.◌∷◌ _ s) = suc (char_length s)

-- the CHECKs of `orders`
abbrev pub order_allowed : Order → Bool
order_allowed o = leb_ℤ (pos 0) o.total_price_cents && char_length o.currency_code == 3

abbrev pub has_id : Uuid → Order → Bool
has_id id o = o.id == id

-- `INSERT`: the row gets a new identifier, which is copied back into the argument
abbrev pub inserted : Order → Db → Db
inserted o d = record d {
  orders = (record o { id = d.next_id }) ∷ d.orders;
  next_id = suc d.next_id;
}

unfoldable pub create_row : Order → Db → Result OrderError (Order × Db)
create_row o d =
    if order_allowed o
    then ok (record o { id = d.next_id }, inserted o d)
    else err (database constraint)

unfoldable pub create : Conn → Order → Run Order
create c o = exec c (create_row o)

abbrev pub of_order : Uuid → OrderItem → Bool
of_order id it = it.order_id == id

-- `Preload("Items")`: a second statement, which runs if the first found a row
abbrev pub with_items : Db → Order → Order
with_items d o = record o { items = select_where (of_order o.id) d.order_items }

unfoldable pub preload : Conn → Option Order → Run (Option Order)
preload c none = pure none
preload c (some o) = query c (λ d. ok (some (with_items d o)))

unfoldable pub get_by_id : Conn → Uuid → Run (Option Order)
unfolding preload
get_by_id c id = do found ← query c (λ d. ok (find_where (has_id id) d.orders)); preload c found

abbrev pub has_id_and_user : Uuid → Uuid → Order → Bool
has_id_and_user id user o = o.id == id && o.user_id == user

unfoldable pub get_by_id_for_user : Conn → Uuid → Uuid → Run (Option Order)
unfolding preload
get_by_id_for_user c id user = do
  found ← query c (λ d. ok (find_where (has_id_and_user id user) d.orders))
  preload c found

-- `UPDATE ... WHERE id = ?` under the CHECKs; gorm sets `updated_at` as well
unfoldable pub update_orders :
    (Order → Bool) → (Order → Order) → Db → Result OrderError (Unit {0} × Db)
update_orders fits set d =
    if any_where (λ o. fits o && not (order_allowed (set o))) d.orders
    then err (database constraint)
    else ok (tt, record d { orders = update_where fits set d.orders })

abbrev or_old : Option Bytes → Option Bytes → Option Bytes
or_old none old = old
or_old (some r) _ = some r

abbrev pub status_row : OrderStatus → Option Bytes → Time → Order → Order
status_row s reason now o = record o {
  status = s;
  cancel_reason = or_old reason o.cancel_reason;
  updated_at = now;
}

unfoldable pub update_status : Conn → Uuid → OrderStatus → Option Bytes → Run (Unit {0})
update_status c id s reason = do
  now ← clock_now
  exec c (update_orders (has_id id) (status_row s reason now))

abbrev pub totals_row : ℤ → String → Time → Order → Order
totals_row total code now o = record o {
  total_price_cents = total;
  currency_code = code;
  updated_at = now;
}

unfoldable pub update_totals : Conn → Uuid → ℤ → String → Run (Unit {0})
update_totals c id total code = do
  now ← clock_now
  exec c (update_orders (has_id id) (totals_row total code now))

pub record OrderListFilter : Type 0 where
  pub user_id : Option Uuid
  pub status : Option OrderStatus
  pub limit : ℤ
  pub offset : ℤ

abbrev same_status : OrderStatus → OrderStatus → Bool
same_status OrderStatus.pending OrderStatus.pending = true
same_status OrderStatus.confirmed OrderStatus.confirmed = true
same_status OrderStatus.cancelled OrderStatus.cancelled = true
same_status _ _ = false

abbrev user_fits : Option Uuid → Uuid → Bool
user_fits none _ = true
user_fits (some u) v = v == u

abbrev status_fits : Option OrderStatus → OrderStatus → Bool
status_fits none _ = true
status_fits (some s) t = same_status t s

abbrev pub matches : OrderListFilter → Order → Bool
matches f o = user_fits f.user_id o.user_id && status_fits f.status o.status

-- `created_at DESC`
abbrev pub newer : Order → Order → Bool
newer o p = ltb p.created_at o.created_at

-- `if f.Limit <= 0 { f.Limit = 20 }`, `if f.Offset < 0 { f.Offset = 0 }`
abbrev pub page_limit : ℤ → ℤ
page_limit limit = if leb_ℤ limit (pos 0) then pos 20 else limit

abbrev pub page_offset : ℤ → ℤ
page_offset offset = if ltb_ℤ offset (pos 0) then pos 0 else offset

abbrev pub page_of : OrderListFilter → List Order → List Order
page_of f rows =
    take (pos_part (page_limit f.limit))
      (drop (pos_part (page_offset f.offset)) (order_by newer (select_where (matches f) rows)))

abbrev pub fill_items : Db → List Order → List Order
fill_items d [] = []
fill_items d (o ∷ os) = with_items d o ∷ fill_items d os

-- the items of the page: one more statement, unless the page is empty
unfoldable pub preload_all : Conn → List Order → Run (List Order)
preload_all c [] = pure []
preload_all c (o ∷ os) = query c (λ d. ok (fill_items d (o ∷ os)))

unfoldable pub list : Conn → OrderListFilter → Run (List Order × ℕ)
unfolding preload_all
list c f = do
  total ← query c (λ d. ok (count_where (matches f) d.orders))
  page ← query c (λ d. ok (page_of f d.orders))
  filled ← preload_all c page
  pure (filled, total)

unfoldable pub exists_order : Conn → Uuid → Run Bool
exists_order c id = query c (λ d. ok (ltb 0 (count_where (has_id id) d.orders)))
