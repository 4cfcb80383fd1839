-- ===== src/Inventory/Tests.antt =====
-- Runs of the inventory service on small tables.
use order_hub.Base.{Uuid, ◌≡◌, refl, true, String, List, [], ◌∷◌, arith}
use order_hub.Base.Int.{pos, ◌+ℤ◌, ◌-ℤ◌, to_int32}
use order_hub.Base.Rows.{any_where, update_where, count_where, find_where, select_where, order_by}
use order_hub.Base.Store.{World, Result, ok, attempt, query, exec, transaction}
use order_hub.Base.Post.{Post}
use order_hub.Inventory.Models.{Product, ReservationStatus, Db}
use order_hub.Inventory.Errors.{InventoryError}
use order_hub.Inventory.Repo.Stock
use order_hub.Inventory.Repo.Products
use order_hub.Inventory.Repo.Reservations
use order_hub.Inventory.Service.Types.{ReserveItem, Reason, ReserveResult}
use order_hub.Inventory.Service.Reserving.{
  reserve, release, confirm, reserve_items, reserve_item, reserve_found, reserve_one, settle,
  release_rows, release_one,
}
use order_hub.Inventory.Ledger.Sums.{sum_stock, held, IsConsistent, StockKeys, ItemKeys}
use order_hub.Inventory.Ledger.Reserving.{DistinctItems, total_stock}
use order_hub.Inventory.Ledger.Statements.{Kept}
use order_hub.Inventory.Ledger.Listing.{holds_stock}
use order_hub.Inventory.Ledger.ReserveCall.{Outcome, reserve-IsConsistent, reserve-ItemSteps}
use order_hub.Inventory.Ledger.ReleaseCall.{Released, release-Released}
use order_hub.Inventory.Ledger.ConfirmCall.{confirm-changes_nothing}
use order_hub.Inventory.Ledger.RoundTrip.{reserve-release}
use order_hub.Base.{Option, none, some, ◌⊎◌, str_eq, if◌then◌else◌}
use order_hub.Inventory.Errors.{Context, Role}
use order_hub.Inventory.Repo.Stock.{of_product, set_row, can_adjust, adjust_row}
use order_hub.Inventory.Repo.Products.{has_id}
use order_hub.Inventory.Service.Types.{ProductPatch}
use order_hub.Inventory.Service.Catalog.{update_product}
use order_hub.Inventory.Service.StockLevels.{set_stock, adjust_stock}
use order_hub.Inventory.Ledger.StockCalls.{Restocked, set_stock-Restocked, adjust_stock-Restocked}
use order_hub.Inventory.Ledger.PriceCalls.{Edited, update_product-Edited}
use order_hub.Inventory.Ledger.Reachable.{Call, Calls, Calls-IsConsistent}
use order_hub.Inventory.Handler.Messages.{from_uuid, Reply, Code, to_proto_product}
use order_hub.Inventory.Handler.Calls.{get_product}
use order_hub.Inventory.Handler.Codes.{get_product_lem}
use order_hub.Base.{ℕ}
use order_hub.Inventory.Ledger.Returning.{release-Returns}
use order_hub.Inventory.Service.Types.{ProductInput}
use order_hub.Inventory.Service.Catalog.{create_product}
use order_hub.Inventory.Ledger.CreateCall.{Created, added, MayCreate, create_product-Created}

abbrev product : Uuid → String → Product
product id sku = record {
  id = id;
  vendor_id = 50;
  sku = sku;
  name = sku;
  description = "";
  price_cents = pos 1500;
  currency_code = "RUB";
  is_active = true;
  created_at = 1;
  updated_at = 1;
}

-- five pieces of product 1, of which order 90 holds two, and one piece of product 2
abbrev shop : Db
shop = record {
  products = product 1 "cup" ∷ product 2 "pot" ∷ [];
  inventories =
      (record { product_id = 1; available = pos 3; reserved = pos 2; updated_at = 1 })
      ∷ (record { product_id = 2; available = pos 1; reserved = pos 0; updated_at = 1 })
      ∷ [];
  reservations =
      (record {
        id = 70;
        order_id = 90;
        product_id = 1;
        quantity = pos 2;
        status = ReservationStatus.reserved;
        created_at = 1;
      })
      ∷ [];
  next_id = 71;
}

abbrev quiet : Db → World Db
quiet d = record { db = d; tx = d; faults = []; clock = 5 }

-- order 91 wants two of product 1 and two of product 2: the second is out of stock
abbrev wanted : List ReserveItem
wanted = (record { product_id = 1; quantity = 2 }) ∷ (record { product_id = 2; quantity = 2 }) ∷ []

wanted-DistinctItems : DistinctItems wanted
unfolding DistinctItems any_where
wanted-DistinctItems = (refl, (refl, tt))

shop-IsConsistent : IsConsistent shop
unfolding StockKeys ItemKeys any_where sum_stock held ◌+ℤ◌
shop-IsConsistent = record {
  stock_keys = (refl, (refl, tt));
  item_keys = (refl, tt);
  allowed = refl;
  positive = refl;
  ledger = λ p. ground arith;
}

reserve-IsConsistent_example :
    Post
      (λ res v. IsConsistent v.db × ((p : Uuid) → total_stock p v.db ≡ total_stock p shop))
      (Kept shop)
      (reserve 91 wanted (quiet shop))
reserve-IsConsistent_example =
    reserve-IsConsistent 91 wanted (quiet shop) wanted-DistinctItems shop-IsConsistent

reserve-ItemSteps_example :
    Post (Outcome 91 wanted (quiet shop)) (Kept shop) (reserve 91 wanted (quiet shop))
reserve-ItemSteps_example = reserve-ItemSteps 91 wanted (quiet shop)

release-Released_example :
    Post
      (λ n v. Released 90 shop v.db × (n ≡ count_where (holds_stock 90) shop.reservations))
      (Kept shop)
      (release 90 (quiet shop))
release-Released_example = release-Released 90 (quiet shop) shop-IsConsistent

confirm-changes_nothing_example :
    Post (λ n v. (v.db ≡ shop) × (n ≡ 0)) (Kept shop) (confirm 90 (quiet shop))
unfolding any_where
confirm-changes_nothing_example = confirm-changes_nothing 90 (quiet shop) refl

-- the world that a run ends in
abbrev world_after : {A : Type 0} → Result InventoryError A × World Db → World Db
world_after (_, w) = w

abbrev reserved_world : World Db
reserved_world = world_after (reserve 91 wanted (quiet shop))

abbrev wanted_result : ReserveResult
wanted_result = record {
  ok_items = (record { product_id = 1; quantity = 2 }) ∷ [];
  failed = (record { product_id = 2; requested = 2; reason = Reason.out_of_stock }) ∷ [];
}

reserve_run : reserve 91 wanted (quiet shop) ≡ (ok wanted_result, reserved_world)
unfolding reserve reserve_items reserve_item reserve_found reserve_one settle
    Reservations.list_by_order Reservations.upsert_pending Reservations.upsert_row
    Reservations.mark_reserved Reservations.mark_failed Reservations.mark Reservations.mark_rows
    Stock.try_reserve Stock.update_stock Products.get_by_id transaction query exec attempt
    find_where select_where order_by any_where update_where count_where to_int32 ◌+ℤ◌ ◌-ℤ◌
reserve_run = refl

release_run : release 91 reserved_world ≡ (ok 1, world_after (release 91 reserved_world))
unfolding reserve reserve_items reserve_item reserve_found reserve_one settle
    Reservations.list_by_order Reservations.upsert_pending Reservations.upsert_row
    Reservations.mark_reserved Reservations.mark_failed Reservations.mark Reservations.mark_rows
    Reservations.mark_released Stock.try_reserve Stock.release Stock.update_stock Products.get_by_id
    release release_rows release_one transaction query exec attempt find_where select_where order_by
    any_where update_where count_where to_int32 ◌+ℤ◌ ◌-ℤ◌
release_run = refl

reserve-release_example :
    (sum_stock (λ r. r.available) 1 (world_after (release 91 reserved_world)).db.inventories
      ≡ sum_stock (λ r. r.available) 1 shop.inventories)
    × (sum_stock (λ r. r.reserved) 1 (world_after (release 91 reserved_world)).db.inventories
        ≡ sum_stock (λ r. r.reserved) 1 shop.inventories)
unfolding any_where
reserve-release_example =
    reserve-release 91 wanted (quiet shop) reserved_world (world_after (release 91 reserved_world))
      wanted_result 1 wanted-DistinctItems shop-IsConsistent refl reserve_run release_run 1

abbrev vendor : Context
vendor = record { user_id = some 50; role = some Role.role_vendor }

set_stock-Restocked_example :
    Post
      (λ _ v. Restocked vendor 1 (of_product 1) (set_row (pos 8) 5) shop v.db)
      (λ _ v. (v.db ≡ shop) ⊎ Restocked vendor 1 (of_product 1) (set_row (pos 8) 5) shop v.db)
      (set_stock vendor 1 (pos 8) (quiet shop))
set_stock-Restocked_example = set_stock-Restocked vendor 1 (pos 8) (quiet shop) shop-IsConsistent

adjust_stock-Restocked_example :
    Post
      (λ _ v. Restocked vendor 1 (can_adjust 1 (pos 4)) (adjust_row (pos 4) 5) shop v.db)
      (λ _ v.
        (v.db ≡ shop) ⊎ Restocked vendor 1 (can_adjust 1 (pos 4)) (adjust_row (pos 4) 5) shop v.db)
      (adjust_stock vendor 1 (pos 4) (quiet shop))
adjust_stock-Restocked_example =
    adjust_stock-Restocked vendor 1 (pos 4) (quiet shop) shop-IsConsistent

-- a new name and a new price
abbrev new_price : ProductPatch
new_price = record {
  sku = none;
  name = some "mug";
  description = none;
  price_cents = some (pos 1);
  currency_code = none;
  is_active = none;
}

abbrev same_text : String → String
same_text s = s

update_product-Edited_example :
    Post
      (λ _ v. Edited vendor 1 shop v.db)
      (λ _ v. (v.db ≡ shop) ⊎ Edited vendor 1 shop v.db)
      (update_product same_text vendor 1 new_price (quiet shop))
update_product-Edited_example = update_product-Edited same_text vendor 1 (quiet shop) new_price

-- order 91 is reserved and then released
Calls-IsConsistent_example : IsConsistent (world_after (release 91 reserved_world)).db
Calls-IsConsistent_example =
    Calls-IsConsistent same_text shop (world_after (release 91 reserved_world)).db
      (Calls.then_call
        (Calls.then_call Calls.none_yet (
          Call.reserving (quiet shop) reserved_world (ok wanted_result) 91 wanted
            wanted-DistinctItems reserve_run refl refl))
        (Call.releasing reserved_world (world_after (release 91 reserved_world)) (ok 1) 91
          release_run refl refl))
      shop-IsConsistent

-- "1" is product 1, and nothing else can be read
abbrev parse_one : String → Option Uuid
parse_one s = if str_eq s "1" then some 1 else none

abbrev print_one : Uuid → String
print_one _ = "1"

get_product_lem_example :
    ((p : Product) × (find_where (has_id 1) shop.products ≡ some p)
      × ((get_product parse_one print_one true (some "1") (quiet shop)).0
          ≡ Reply.reply (to_proto_product print_one p))
      × ((get_product parse_one print_one true (some "1") (quiet shop)).1.db ≡ shop))
    ⊎ (((get_product parse_one print_one true (some "1") (quiet shop)).0
          ≡ Reply.status Code.internal)
        × ((get_product parse_one print_one true (some "1") (quiet shop)).1.db ≡ shop))
unfolding from_uuid
get_product_lem_example = get_product_lem parse_one print_one (some "1") 1 (quiet shop) refl

release-Returns_example :
    (n : ℕ) × (v : World Db) × (release 90 (quiet shop) ≡ (ok n, v))
    × Released 90 shop v.db
    × (n ≡ count_where (holds_stock 90) shop.reservations)
unfolding any_where ◌+ℤ◌
release-Returns_example = release-Returns 90 (quiet shop) refl shop-IsConsistent refl

abbrev new_jar : ProductInput
new_jar = record {
  vendor_id = 50;
  sku = " jar ";
  name = "jar";
  description = "";
  price_cents = pos 700;
  currency_code = "RUB";
  is_active = true;
}

create_product-Created_example :
    Post
      (λ q v.
        MayCreate same_text vendor 50
        × Created same_text (added shop.next_id new_jar 5) shop q v.db)
      (Kept shop)
      (create_product same_text vendor new_jar (quiet shop))
create_product-Created_example =
    create_product-Created same_text vendor new_jar (quiet shop) shop-IsConsistent
