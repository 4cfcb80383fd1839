-- ===== src/Orders/Models.antt =====
-- The rows of the order database (orderhub-order-service/internal/models/models.go), the errors of
-- the service (internal/service/errors.go) and the caller's identity (internal/service/context.go).
use order_hub.Base.{ℕ, Uuid, Time, String, Bool, true, false, Option, List}
use order_hub.Base.Int.{ℤ}
use order_hub.Base.Store.{Action}

-- The strings that the column `status` holds.
pub data OrderStatus : Type 0 where
  pending confirmed cancelled : OrderStatus

-- A text that is cut by its bytes is the list of them.
abbrev pub Bytes : Type 0
Bytes = List ℕ

pub record OrderItem : Type 0 where
  pub id : Uuid
  pub order_id : Uuid
  pub product_id : Uuid
  pub quantity : ℕ
  pub unit_price_cents : ℤ
  pub line_total_cents : ℤ
  pub currency_code : String
  pub created_at : Time

-- In the table `items` is empty: a query that preloads them fills it.
pub record Order : Type 0 where
  pub id : Uuid
  pub user_id : Uuid
  pub status : OrderStatus
  pub total_price_cents : ℤ
  pub currency_code : String
  pub cancel_reason : Option Bytes
  pub created_at : Time
  pub updated_at : Time
  pub items : List OrderItem

-- `next_id` stands for `gen_random_uuid()`.
pub record Db : Type 0 where
  pub orders : List Order
  pub order_items : List OrderItem
  pub next_id : Uuid

-- The `pricing_` errors are those that pricing.go makes by `fmt.Errorf`; `nil_pointer` is the panic of a
-- method on a nil order.
pub data OrderError : Type 0 where
  unauthorized forbidden order_not_found product_not_found empty_items : OrderError
  quantity_invalid currency_mismatch already_cancelled already_confirmed : OrderError
  pricing_failed pricing_missing pricing_inactive nil_pointer : OrderError

pub data Role : Type 0 where
  role_customer role_vendor role_admin : Role
  other_role : String → Role

pub record Context : Type 0 where
  pub user_id : Option Uuid
  pub role : Option Role

abbrev pub Run : Type 0 → Type 0
Run A = Action Db OrderError A

-- `role == RoleAdmin`, where an absent role is the empty string
abbrev pub is_admin : Option Role → Bool
is_admin (Option.some Role.role_admin) = true
is_admin _ = false
