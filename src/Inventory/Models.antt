-- ===== src/Inventory/Models.antt =====
-- The rows of the inventory database (orderhub-inventory-service/internal/models/models.go) and the
-- constraints that the migration puts on them (internal/migrate/migrate.go).
use order_hub.Base.{Uuid, Time, String, Bool, List}
use order_hub.Base.Int.{ℤ}

pub record Product : Type 0 where
  pub id : Uuid
  pub vendor_id : Uuid
  pub sku : String
  pub name : String
  pub description : String
  pub price_cents : ℤ
  pub currency_code : String
  pub is_active : Bool
  pub created_at : Time
  pub updated_at : Time

pub record Inventory : Type 0 where
  pub product_id : Uuid
  pub available : ℤ
  pub reserved : ℤ
  pub updated_at : Time

pub data ReservationStatus : Type 0 where
  pending reserved released failed : ReservationStatus

pub record Reservation : Type 0 where
  pub id : Uuid
  pub order_id : Uuid
  pub product_id : Uuid
  pub quantity : ℤ
  pub status : ReservationStatus
  pub created_at : Time

-- `next_id` stands for `gen_random_uuid()`: the identifier that the next row gets.
pub record Db : Type 0 where
  pub products : List Product
  pub inventories : List Inventory
  pub reservations : List Reservation
  pub next_id : Uuid
