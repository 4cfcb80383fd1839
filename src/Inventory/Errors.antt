-- ===== src/Inventory/Errors.antt =====
-- The errors of the inventory service and the caller's identity
-- (orderhub-inventory-service/internal/service/errors.go, context.go).
use order_hub.Base.{Uuid, String, Bool, true, false, Option, none, some, ◌==◌, ◌&&◌, ◌||◌}
use order_hub.Base.Store.{Action, service, fail, pure}
use order_hub.Inventory.Models.{Db}

pub data InventoryError : Type 0 where
  unauthorized forbidden product_not_found inventory_not_found reservation_empty : InventoryError
  reservation_exists cannot_delete_product_with_reservations sku_already_exists : InventoryError
  inactive_product currency_not_rub invalid_quantity out_of_stock : InventoryError

-- The strings of the type `Role`.
pub data Role : Type 0 where
  role_customer role_admin role_vendor : Role
  other_role : String → Role

-- The values that the interceptor stores in the context.
pub record Context : Type 0 where
  pub user_id : Option Uuid
  pub role : Option Role

abbrev pub Run : Type 0 → Type 0
Run A = Action Db InventoryError A

abbrev pub is_admin : Role → Bool
is_admin Role.role_admin = true
is_admin _ = false

abbrev pub is_vendor : Role → Bool
is_vendor Role.role_vendor = true
is_vendor _ = false

-- `requireAuth`
abbrev auth_fields : Option Uuid → Option Role → Run (Uuid × Role)
auth_fields none _ = fail (service InventoryError.unauthorized)
auth_fields (some uid) none = fail (service InventoryError.unauthorized)
auth_fields (some uid) (some role) = pure (uid, role)

unfoldable pub require_auth : Context → Run (Uuid × Role)
require_auth ctx = auth_fields ctx.user_id ctx.role

-- `role != RoleAdmin && !(role == RoleVendor && p.VendorID == reqUser)`, negated
abbrev pub may_manage : Role → Uuid → Uuid → Bool
may_manage role vendor req_user = is_admin role || (is_vendor role && vendor == req_user)
