-- ===== src/Orders/Service.antt =====
-- order_service.go, order.go, events.go. `has_bus` says whether the service was given an event bus; the
-- events that a call publishes are returned beside its result, for the bus's own errors are ignored.
use order_hub.Base.{
  ℕ, Uuid, Time, String, str_eq, Bool, true, false, Option, none, some, List, [], ◌∷◌, ◌++◌, ltb,
  ◌==◌, if◌then◌else◌, not, ◌||◌, length,
}
use order_hub.Base.Int.{ℤ, pos, ◌+ℤ◌, ◌*ℤ◌, wrap64}
use order_hub.Base.Rows.{take}
use order_hub.Base.Store.{
  Result, ok, err, pool, tx_conn, service, pure, fail, lift, guard, clock_now, transaction, ◌>>=◌,
  ◌>>◌,
}
use order_hub.Orders.Models.{
  Order, OrderItem, OrderStatus, pending, cancelled, Bytes, Context, Role, Run, is_admin,
  OrderError, unauthorized, forbidden, order_not_found, product_not_found, empty_items,
  quantity_invalid, currency_mismatch, already_cancelled, nil_pointer,
}
use order_hub.Orders.Repo.Orders
use order_hub.Orders.Repo.Orders.{OrderListFilter, page_limit, page_offset}
use order_hub.Orders.Repo.Items
use order_hub.Orders.Pricing.{Price, Prices, Pricing}

abbrev pub currency_rub : String
currency_rub = "RUB"

-- The quantity is a `uint32`.
pub record CreateOrderItem : Type 0 where
  pub product_id : Uuid
  pub quantity : ℕ

pub record OrderItemEvent : Type 0 where
  pub product_id : Uuid
  pub quantity : ℕ
  pub price_cents : ℤ
  pub currency : String
  pub line_total : ℤ

pub record OrderCreatedEvent : Type 0 where
  pub order_id : Uuid
  pub user_id : Uuid
  pub items : List OrderItemEvent
  pub total_cents : ℤ
  pub currency : String
  pub created_at : Time

pub record OrderCancelledEvent : Type 0 where
  pub order_id : Uuid
  pub user_id : Uuid
  pub reason : Bytes
  pub cancelled_at : Time

abbrev auth_user : Option Uuid → Option Role → Run (Uuid × Option Role)
auth_user none _ = fail (service unauthorized)
auth_user (some uid) role = pure (uid, role)

-- `requireAuth`: an absent role is passed on as the empty string
unfoldable pub require_auth : Context → Run (Uuid × Option Role)
require_auth ctx = auth_user ctx.user_id ctx.role

-- `int64(it.Quantity) * price.UnitPriceCents`
abbrev pub line_total : ℕ → Price → ℤ
line_total quantity p = wrap64 (pos quantity *ℤ p.unit_price_cents)

abbrev pub order_item : Time → CreateOrderItem → Price → OrderItem
order_item now it p = record {
  id = 0;
  order_id = 0;
  product_id = it.product_id;
  quantity = it.quantity;
  unit_price_cents = p.unit_price_cents;
  line_total_cents = line_total it.quantity p;
  currency_code = currency_rub;
  created_at = now;
}

-- the checks of the loop for one item: its price
abbrev pub price_for : Prices → CreateOrderItem → Result OrderError Price
price_for prices it =
    if it.quantity == 0 then err (service quantity_invalid) else in_rubles (prices it.product_id)
  where
    in_rubles : Option Price → Result OrderError Price
    in_rubles none = err (service product_not_found)
    in_rubles (some p) =
        if str_eq p.currency_code currency_rub then ok p else err (service currency_mismatch)

-- the loop over the items: the total and the rows, from what has been gathered so far
unfoldable pub price_items :
    Prices
    → Time
    → List CreateOrderItem
    → ℤ
    → List OrderItem
    → Result OrderError (ℤ × List OrderItem)
price_items prices now [] total rows = ok (total, rows)
price_items prices now (it ∷ items) total rows = elim (price_for prices it) [
  | err e ↦ err e
  | ok p ↦
      price_items prices now items (wrap64 (total +ℤ line_total it.quantity p))
        (rows ++ order_item now it p ∷ [])
]

abbrev pub new_order : Uuid → ℤ → Time → Order
new_order user total now = record {
  id = 0;
  user_id = user;
  status = pending;
  total_price_cents = total;
  currency_code = currency_rub;
  cancel_reason = none;
  created_at = now;
  updated_at = now;
  items = [];
}

-- `itemsDB[i].OrderID = order.ID`
abbrev pub set_order : Uuid → List OrderItem → List OrderItem
set_order id [] = []
set_order id (it ∷ its) = (record it { order_id = id }) ∷ set_order id its

-- What follows the loop: the order is created through the pool, its items in the transaction.
unfoldable pub store_order : Uuid → Time → ℤ → List OrderItem → Run (Option Order × List OrderItem)
store_order user now total rows = do
  order ← Orders.create pool (new_order user total now)
  Items.bulk_create tx_conn (set_order order.id rows)
  Orders.update_totals tx_conn order.id total currency_rub
  found ← Orders.get_by_id tx_conn order.id
  pure (found, set_order order.id rows)

-- the body of the transaction
unfoldable pub place_order :
    Uuid → Time → Prices → List CreateOrderItem → Run (Option Order × List OrderItem)
unfolding price_items store_order
place_order user now prices items = do
  (total, rows) ← lift (price_items prices now items (pos 0) [])
  store_order user now total rows

abbrev pub product_ids : List CreateOrderItem → List Uuid
product_ids [] = []
product_ids (it ∷ items) = it.product_id ∷ product_ids items

abbrev item_events : List OrderItem → List OrderItemEvent
item_events [] = []
item_events (it ∷ its) =
    (record {
      product_id = it.product_id;
      quantity = it.quantity;
      price_cents = it.unit_price_cents;
      currency = it.currency_code;
      line_total = it.line_total_cents;
    })
    ∷ item_events its

abbrev pub created_event : Order → List OrderItem → OrderCreatedEvent
created_event o rows = record {
  order_id = o.id;
  user_id = o.user_id;
  items = item_events rows;
  total_cents = o.total_price_cents;
  currency = o.currency_code;
  created_at = o.created_at;
}

-- `if s.events != nil`
abbrev pub announce_created :
    Bool → Option Order → List OrderItem → Run (Option Order × List OrderCreatedEvent)
announce_created false o rows = pure (o, [])
announce_created true none rows = fail (service nil_pointer)
announce_created true (some o) rows = pure (some o, created_event o rows ∷ [])

abbrev pub no_items : List CreateOrderItem → Bool
no_items [] = true
no_items _ = false

unfoldable pub create_order :
    Bool → Pricing → Context → List CreateOrderItem → Run (Option Order × List OrderCreatedEvent)
unfolding place_order
create_order has_bus pricing ctx items = do
  (user, _) ← require_auth ctx
  guard (not (no_items items)) empty_items
  now ← clock_now
  prices ← lift (pricing (product_ids items))
  (order, rows) ← transaction (place_order user now prices items)
  announce_created has_bus order rows

abbrev pub or_not_found : Option Order → Run Order
or_not_found none = fail (service order_not_found)
or_not_found (some o) = pure o

unfoldable pub get_order : Context → Uuid → Run Order
get_order ctx id = do
  (user, role) ← require_auth ctx
  found ← if is_admin role then Orders.get_by_id pool id else Orders.get_by_id_for_user pool id user
  or_not_found found

pub record ListFilter : Type 0 where
  pub user_id : Option Uuid
  pub status : Option OrderStatus
  pub limit : ℤ
  pub offset : ℤ

-- the filter that `ListOrders` passes on
abbrev pub own_filter : Uuid → Option Role → ListFilter → OrderListFilter
own_filter user role f = record {
  user_id = if is_admin role then f.user_id else some user;
  status = f.status;
  limit = page_limit f.limit;
  offset = page_offset f.offset;
}

unfoldable pub list_orders : Context → ListFilter → Run (List Order × ℕ)
list_orders ctx f = do (user, role) ← require_auth ctx; Orders.list pool (own_filter user role f)

unfoldable pub sanitize_reason : Option Bytes → Bytes
sanitize_reason none = []
sanitize_reason (some r) = if ltb 500 (length r) then take 500 r else r

abbrev pub is_cancelled : OrderStatus → Bool
is_cancelled OrderStatus.cancelled = true
is_cancelled _ = false

abbrev pub announce_cancelled :
    Bool → Option Bytes → Time → Option Order → Run (Option Order × List OrderCancelledEvent)
announce_cancelled false reason now o = pure (o, [])
announce_cancelled true reason now none = fail (service nil_pointer)
announce_cancelled true reason now (some o) = pure (
  some o,
  (record {
    order_id = o.id;
    user_id = o.user_id;
    reason = sanitize_reason reason;
    cancelled_at = now;
  })
      ∷ [],
)

-- The order that comes beside `ErrAlreadyCancelled` is dropped: the handler reads the error alone.
unfoldable pub cancel_order :
    Bool → Context → Uuid → Option Bytes → Run (Option Order × List OrderCancelledEvent)
cancel_order has_bus ctx id reason = do
  (user, role) ← require_auth ctx
  found ← Orders.get_by_id pool id
  ord ← or_not_found found
  guard (is_admin role || ord.user_id == user) forbidden
  guard (not (is_cancelled ord.status)) already_cancelled
  Orders.update_status pool id cancelled reason
  after ← Orders.get_by_id pool id
  now ← clock_now
  announce_cancelled has_bus reason now after
