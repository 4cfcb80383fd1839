-- ===== src/Orders/Handler.antt =====
-- The gRPC handlers of the order service (internal/transport/grpc/handler.go). `parse` and `print` stand
-- for `uuid.Parse` and `UUID.String`; `valid` is what the generated `ValidateAll` answers for the request.
-- A message `UUID` is none where the pointer is nil.
use order_hub.Base.{
  ℕ, Uuid, Time, String, str_eq, Bool, true, false, Option, none, some, List, [], ◌∷◌,
  if◌then◌else◌,
}
use order_hub.Base.Int.{ℤ, pos, negsuc, ◌+ℤ◌, leb_ℤ, to_int32, pos_part}
use order_hub.Base.Store.{World, Result, ok, err, Error, service}
use order_hub.Orders.Models.{
  Order, OrderItem, OrderStatus, pending, confirmed, cancelled, Bytes, Db, Context, Role, is_admin,
  OrderError, Run,
}
use order_hub.Orders.Pricing.{Pricing}
use order_hub.Orders.Service
use order_hub.Orders.Service.{CreateOrderItem, ListFilter, OrderCreatedEvent, OrderCancelledEvent}

pub data Code : Type 0 where
  invalid_argument unauthenticated permission_denied not_found failed_precondition internal : Code

-- An answer, a status, or the panic of a conversion of nil.
pub data Reply (A : Type 0) : Type 0 where
  reply : A → Reply A
  status : Code → Reply A
  nil_pointer : Reply A

abbrev pub Handler : Type 0 → Type 0
Handler A = World Db → Reply A × World Db

-- An error that comes from `toCreateInput` is a status already, and is answered as INTERNAL.
unfoldable pub to_status_err : Error OrderError → Code
to_status_err (service OrderError.unauthorized) = Code.unauthenticated
to_status_err (service OrderError.forbidden) = Code.permission_denied
to_status_err (service OrderError.order_not_found) = Code.not_found
to_status_err (service OrderError.empty_items) = Code.invalid_argument
to_status_err (service OrderError.quantity_invalid) = Code.invalid_argument
to_status_err (service OrderError.currency_mismatch) = Code.invalid_argument
to_status_err (service OrderError.already_cancelled) = Code.failed_precondition
to_status_err (service OrderError.already_confirmed) = Code.failed_precondition
to_status_err _ = Code.internal

-- `commonv1.OrderStatus`
pub data ProtoStatus : Type 0 where
  unspecified proto_pending proto_confirmed proto_cancelled : ProtoStatus

unfoldable pub to_proto_status : OrderStatus → ProtoStatus
to_proto_status OrderStatus.pending = ProtoStatus.proto_pending
to_proto_status OrderStatus.confirmed = ProtoStatus.proto_confirmed
to_proto_status OrderStatus.cancelled = ProtoStatus.proto_cancelled

unfoldable pub from_proto_status : ProtoStatus → OrderStatus
from_proto_status ProtoStatus.proto_confirmed = confirmed
from_proto_status ProtoStatus.proto_cancelled = cancelled
from_proto_status _ = pending

-- `current`, `limit` and `total` are `int`s, which these values do not leave; the result is an `int32`
unfoldable pub next_offset : ℤ → ℤ → ℕ → ℤ
next_offset current limit total =
    if leb_ℤ limit (pos 0)
    then negsuc 0
    else if leb_ℤ (pos total) (current +ℤ limit)
    then negsuc 0
    else to_int32 (pos_part (current +ℤ limit))

pub record OrderItemMessage : Type 0 where
  pub product_id : String
  pub quantity : ℕ
  pub unit_price_cents : ℤ
  pub line_total_cents : ℤ
  pub currency_code : String

pub record OrderMessage : Type 0 where
  pub id : String
  pub user_id : String
  pub status : ProtoStatus
  pub items : List OrderItemMessage
  pub total_price_cents : ℤ
  pub currency_code : String
  pub cancel_reason : Bytes
  pub created_at : Time
  pub updated_at : Time

abbrev pub str_or_empty : Option Bytes → Bytes
str_or_empty none = []
str_or_empty (some r) = r

abbrev pub refuse : {A : Type 0} → Code → Handler A
refuse c w = (status c, w)

-- `if err := v.ValidateAll(); err != nil`
abbrev pub validated : {A : Type 0} → Bool → Handler A → Handler A
validated true h = h
validated false h = refuse Code.invalid_argument

-- the service's result, or the status of its error
abbrev pub answer :
    {A B : Type 0} → (A → Reply B) → Result OrderError A × World Db → Reply B × World Db
answer k (ok a, w) = (k a, w)
answer k (err e, w) = (status (to_status_err e), w)

unfoldable pub call : {A B : Type 0} → Run A → (A → Reply B) → Handler B
call m k w = answer k (m w)

-- `if r := req.GetReason(); r != ""`
abbrev pub reason_of : Bytes → Option Bytes
reason_of [] = none
reason_of r = some r

module _ (print : Uuid → String) where
  abbrev to_proto_items : List OrderItem → List OrderItemMessage
  to_proto_items [] = []
  to_proto_items (it ∷ its) =
      (record {
        product_id = print it.product_id;
        quantity = it.quantity;
        unit_price_cents = it.unit_price_cents;
        line_total_cents = it.line_total_cents;
        currency_code = it.currency_code;
      })
      ∷ to_proto_items its

  unfoldable pub to_proto_order : Order → OrderMessage
  unfolding to_proto_status
  to_proto_order o = record {
    id = print o.id;
    user_id = print o.user_id;
    status = to_proto_status o.status;
    items = to_proto_items o.items;
    total_price_cents = o.total_price_cents;
    currency_code = o.currency_code;
    cancel_reason = str_or_empty o.cancel_reason;
    created_at = o.created_at;
    updated_at = o.updated_at;
  }

  abbrev pub order_reply : {A : Type 0} → Option Order × A → Reply OrderMessage
  order_reply (none, _) = nil_pointer
  order_reply (some o, _) = reply (to_proto_order o)

  unfoldable pub to_proto_orders : List Order → List OrderMessage
  unfolding to_proto_order
  to_proto_orders [] = []
  to_proto_orders (o ∷ os) = to_proto_order o ∷ to_proto_orders os

module _ (parse : String → Option Uuid) where
  unfoldable pub from_uuid : Option String → Option Uuid
  from_uuid none = none
  from_uuid (some v) = if str_eq v "" then none else parse v

  -- an identifier and a quantity for each item
  unfoldable pub to_create_input : List (Option String × ℕ) → Option (List CreateOrderItem)
  unfolding from_uuid
  to_create_input [] = some []
  to_create_input ((u, q) ∷ us) = join q (from_uuid u) (to_create_input us)
    where
      join : ℕ → Option Uuid → Option (List CreateOrderItem) → Option (List CreateOrderItem)
      join q (some id) (some its) = some ((record { product_id = id; quantity = q }) ∷ its)
      join q _ _ = none

  abbrev pub status_filter : ProtoStatus → Option OrderStatus
  status_filter ProtoStatus.unspecified = none
  status_filter s = some (from_proto_status s)

  -- who is asked for where no user is named: a caller with a role other than the admin's, themselves
  abbrev pub own_id : Option Role → Option Uuid → Option Uuid
  own_id none user = none
  own_id (some role) user = if is_admin (some role) then none else user

  abbrev pub named_user : Option String → Option String
  named_user none = none
  named_user (some v) = if str_eq v "" then none else some v

  -- the user of the filter; the outer none is an error
  abbrev pub user_filter : Context → Option String → Option (Option Uuid)
  user_filter ctx none = some (own_id ctx.role ctx.user_id)
  user_filter ctx (some v) =
      if is_admin ctx.role
      then (elim (parse v) [ none ↦ none | some id ↦ some (some id) ])
      else none

  abbrev with_limits : ProtoStatus → ℤ → ℤ → Option (Option Uuid) → Option ListFilter
  with_limits s limit offset none = none
  with_limits s limit offset (some user) =
      some (record { user_id = user; status = status_filter s; limit = limit; offset = offset })

  unfoldable pub to_list_filter : Context → ProtoStatus → Option String → ℤ → ℤ → Option ListFilter
  unfolding from_proto_status
  to_list_filter ctx s user limit offset =
      with_limits s limit offset (user_filter ctx (named_user user))

  module _ (print : Uuid → String) where
    abbrev pub parsed : {A : Type 0} → Option Uuid → (Uuid → Handler A) → Handler A
    parsed none k = refuse Code.invalid_argument
    parsed (some id) k = k id

    abbrev pub with_input : {A B : Type 0} → Code → Option A → (A → Handler B) → Handler B
    with_input c none k = refuse c
    with_input c (some a) k = k a

    unfoldable pub create_order :
        Bool → Pricing → Context → Bool → List (Option String × ℕ) → Handler OrderMessage
    unfolding call to_create_input to_proto_order
    create_order has_bus pricing ctx valid items = validated valid (
        with_input Code.internal (to_create_input items)
          (λ its. call (Service.create_order has_bus pricing ctx its) (order_reply print)))

    unfoldable pub get_order : Context → Bool → Option String → Handler OrderMessage
    unfolding call from_uuid to_proto_order
    get_order ctx valid id = validated valid (
        parsed (from_uuid id)
          (λ i. call (Service.get_order ctx i) (λ o. reply (to_proto_order print o))))

    unfoldable pub cancel_order :
        Bool → Context → Bool → Option String → Bytes → Handler OrderMessage
    unfolding call from_uuid to_proto_order
    cancel_order has_bus ctx valid id reason = validated valid (
        parsed (from_uuid id)
          (λ i. call (Service.cancel_order has_bus ctx i (reason_of reason)) (order_reply print)))

    -- the page, the total and the offset of the next page
    unfoldable pub list_orders :
        Context → Bool → ProtoStatus → Option String → ℤ → ℤ → Handler (List OrderMessage × ℤ × ℤ)
    unfolding call to_list_filter to_proto_orders next_offset to_int32
    list_orders ctx valid s user limit offset = validated valid (
        with_input Code.invalid_argument (to_list_filter ctx s user limit offset) (λ f.
          call (Service.list_orders ctx f) (λ (page, total).
            reply (to_proto_orders print page, to_int32 total, next_offset offset limit total))))
