-- ===== src/Inventory/Handler/Messages.antt =====
-- The messages, their conversions, and the codes that errors are answered with.
use order_hub.Base.{
  ℕ, Uuid, Time, String, str_eq, Bool, Option, none, some, List, [], ◌∷◌, if◌then◌else◌,
}
use order_hub.Base.Int.{ℤ, pos, negsuc, ◌+ℤ◌, leb_ℤ, to_int32, pos_part}
use order_hub.Base.Store.{World, Error, service}
use order_hub.Inventory.Models.{Product, Inventory, Db}
use order_hub.Inventory.Errors.{InventoryError}
use order_hub.Inventory.Service.Types.{
  ProductInput, ProductPatch, ReserveOkItem, ReserveFailedItem, Reason,
}

-- the `codes` that are used here
pub data Code : Type 0 where
  invalid_argument unauthenticated permission_denied not_found failed_precondition internal : Code

-- An answer, a status, or the panic of a conversion of nil.
pub data Reply (A : Type 0) : Type 0 where
  reply : A → Reply A
  status : Code → Reply A
  nil_pointer : Reply A

abbrev pub Handler : Type 0 → Type 0
Handler A = World Db → Reply A × World Db

unfoldable pub to_status_err : Error InventoryError → Code
to_status_err (service InventoryError.unauthorized) = Code.unauthenticated
to_status_err (service InventoryError.forbidden) = Code.permission_denied
to_status_err (service InventoryError.product_not_found) = Code.not_found
to_status_err (service InventoryError.inventory_not_found) = Code.not_found
to_status_err (service InventoryError.sku_already_exists) = Code.invalid_argument
to_status_err (service InventoryError.currency_not_rub) = Code.invalid_argument
to_status_err (service InventoryError.invalid_quantity) = Code.invalid_argument
to_status_err (service InventoryError.reservation_empty) = Code.invalid_argument
to_status_err (service InventoryError.reservation_exists) = Code.invalid_argument
to_status_err (service InventoryError.out_of_stock) = Code.failed_precondition
to_status_err _ = Code.internal

-- `if u == nil || u.Value == ""`, then `uuid.Parse`
abbrev pub parse_value : (String → Option Uuid) → Option String → Option Uuid
parse_value parse none = none
parse_value parse (some v) = if str_eq v "" then none else parse v

unfoldable pub from_uuid : (String → Option Uuid) → Option String → Option Uuid
from_uuid = parse_value

-- `current`, `limit` and `total` are `int`s, which these values do not leave; the result is an `int32`
unfoldable pub next_offset : ℤ → ℤ → ℕ → ℤ
next_offset current limit total =
    if leb_ℤ limit (pos 0)
    then negsuc 0
    else if leb_ℤ (pos total) (current +ℤ limit)
    then negsuc 0
    else to_int32 (pos_part (current +ℤ limit))

-- the message `ProductInput`
pub record ProductInputMessage : Type 0 where
  pub sku : String
  pub name : String
  pub description : String
  pub price_cents : ℤ
  pub currency_code : String
  pub is_active : Bool

unfoldable pub to_product_input : Option ProductInputMessage → Uuid → Option ProductInput
to_product_input none vendor = none
to_product_input (some m) vendor = some (record {
  vendor_id = vendor;
  sku = m.sku;
  name = m.name;
  description = m.description;
  price_cents = m.price_cents;
  currency_code = m.currency_code;
  is_active = m.is_active;
})

-- The message `ProductPatch` has the fields of the service's patch, each of them a wrapper or nil.
unfoldable pub from_patch : Option ProductPatch → ProductPatch
from_patch none = record {
  sku = none;
  name = none;
  description = none;
  price_cents = none;
  currency_code = none;
  is_active = none;
}
from_patch (some p) = p

pub record ProductMessage : Type 0 where
  pub id : String
  pub vendor_id : String
  pub sku : String
  pub name : String
  pub description : String
  pub price_cents : ℤ
  pub currency_code : String
  pub is_active : Bool
  pub created_at : Time
  pub updated_at : Time

pub record StockMessage : Type 0 where
  pub product_id : String
  pub available : ℤ
  pub reserved : ℤ
  pub updated_at : Time

pub record OkItemMessage : Type 0 where
  pub product_id : String
  pub quantity : ℕ

pub record FailedItemMessage : Type 0 where
  pub product_id : String
  pub requested : ℕ
  pub reason : Reason

module _ (print : Uuid → String) where
  unfoldable pub to_proto_product : Product → ProductMessage
  to_proto_product p = record {
    id = print p.id;
    vendor_id = print p.vendor_id;
    sku = p.sku;
    name = p.name;
    description = p.description;
    price_cents = p.price_cents;
    currency_code = p.currency_code;
    is_active = p.is_active;
    created_at = p.created_at;
    updated_at = p.updated_at;
  }

  unfoldable pub to_proto_stock : Inventory → StockMessage
  to_proto_stock s = record {
    product_id = print s.product_id;
    available = s.available;
    reserved = s.reserved;
    updated_at = s.updated_at;
  }

  unfoldable pub to_proto_products : List Product → List ProductMessage
  unfolding to_proto_product
  to_proto_products [] = []
  to_proto_products (p ∷ ps) = to_proto_product p ∷ to_proto_products ps

  unfoldable pub to_ok_items : List ReserveOkItem → List OkItemMessage
  to_ok_items [] = []
  to_ok_items (it ∷ its) =
      (record { product_id = print it.product_id; quantity = it.quantity }) ∷ to_ok_items its

  unfoldable pub to_failed_items : List ReserveFailedItem → List FailedItemMessage
  to_failed_items [] = []
  to_failed_items (it ∷ its) =
      (record { product_id = print it.product_id; requested = it.requested; reason = it.reason })
      ∷ to_failed_items its
