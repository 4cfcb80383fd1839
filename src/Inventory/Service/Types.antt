-- ===== src/Inventory/Service/Types.antt =====
-- The arguments and results of the service (internal/service/inventory.go).
use order_hub.Base.{ℕ, Uuid, Bool, Option, String, List, []}
use order_hub.Base.Int.{ℤ}

pub record ProductInput : Type 0 where
  pub vendor_id : Uuid
  pub sku : String
  pub name : String
  pub description : String
  pub price_cents : ℤ
  pub currency_code : String
  pub is_active : Bool

pub record ProductPatch : Type 0 where
  pub sku : Option String
  pub name : Option String
  pub description : Option String
  pub price_cents : Option ℤ
  pub currency_code : Option String
  pub is_active : Option Bool

-- The quantity is a `uint32`.
pub record ReserveItem : Type 0 where
  pub product_id : Uuid
  pub quantity : ℕ

-- The strings of the field `Reason`.
pub data Reason : Type 0 where
  not_found inactive out_of_stock : Reason

pub record ReserveOkItem : Type 0 where
  pub product_id : Uuid
  pub quantity : ℕ

pub record ReserveFailedItem : Type 0 where
  pub product_id : Uuid
  pub requested : ℕ
  pub reason : Reason

pub record ReserveResult : Type 0 where
  pub ok_items : List ReserveOkItem
  pub failed : List ReserveFailedItem

abbrev pub empty_result : ReserveResult
empty_result = record { ok_items = []; failed = [] }
