-- ===== src/Inventory/Repo/Stock.antt =====
-- inventory_repo.go: the statements on the table `inventories`.
use order_hub.Base.{ℕ, Uuid, Time, Bool, Option, ltb, ◌==◌, if◌then◌else◌, not, ◌&&◌}
use order_hub.Base.Int.{ℤ, pos, ◌+ℤ◌, ◌-ℤ◌, leb_ℤ, max_int32}
use order_hub.Base.Rows.{update_where, count_where, find_where, any_where}
use order_hub.Base.Store.{
  Result, ok, err, database, constraint, Conn, pure, clock_now, query, exec, ◌>>=◌, ◌>>◌,
}
use order_hub.Inventory.Models.{Inventory, Db}
use order_hub.Inventory.Errors.{InventoryError, Run}

-- `chk_inventories_non_negative` and the range of the type `integer`
abbrev pub in_column : ℤ → Bool
in_column a = leb_ℤ (pos 0) a && leb_ℤ a max_int32

abbrev pub row_allowed : Inventory → Bool
row_allowed r = in_column r.available && in_column r.reserved

abbrev pub of_product : Uuid → Inventory → Bool
of_product pid r = r.product_id == pid

-- `UPDATE inventories SET ... WHERE ...`: the number of rows, or a refusal of the constraints
unfoldable pub update_stock :
    (Inventory → Bool) → (Inventory → Inventory) → Db → Result InventoryError (ℕ × Db)
update_stock fits set d =
    if any_where (λ r. fits r && not (row_allowed (set r))) d.inventories
    then err (database constraint)
    else ok (
      count_where fits d.inventories,
      record d { inventories = update_where fits set d.inventories },
    )

unfoldable pub get : Conn → Uuid → Run (Option Inventory)
get c pid = query c (λ d. ok (find_where (of_product pid) d.inventories))

abbrev pub set_row : ℤ → Time → Inventory → Inventory
set_row available now r = record r { available = available; updated_at = now }

-- gorm's `Update` sets `updated_at` as well
unfoldable pub set_available : Conn → Uuid → ℤ → Run (Unit {0})
set_available c pid available = do
  now ← clock_now
  exec c (update_stock (of_product pid) (set_row available now))
  pure tt

abbrev pub can_adjust : Uuid → ℤ → Inventory → Bool
can_adjust pid delta r = of_product pid r && leb_ℤ (pos 0) (r.available +ℤ delta)

abbrev pub adjust_row : ℤ → Time → Inventory → Inventory
adjust_row delta now r = record r { available = r.available +ℤ delta; updated_at = now }

unfoldable pub adjust_available : Conn → Uuid → ℤ → Run Bool
adjust_available c pid delta = do
  now ← clock_now
  n ← exec c (update_stock (can_adjust pid delta) (adjust_row delta now))
  pure (ltb 0 n)

abbrev pub can_reserve : Uuid → ℤ → Inventory → Bool
can_reserve pid q r = of_product pid r && leb_ℤ q r.available

abbrev pub reserve_row : ℤ → Time → Inventory → Inventory
reserve_row q now r = record r {
  available = r.available -ℤ q;
  reserved = r.reserved +ℤ q;
  updated_at = now;
}

unfoldable pub try_reserve : Conn → Uuid → ℤ → Run Bool
try_reserve c pid q = do
  now ← clock_now
  n ← exec c (update_stock (can_reserve pid q) (reserve_row q now))
  pure (ltb 0 n)

abbrev pub can_release : Uuid → ℤ → Inventory → Bool
can_release pid q r = of_product pid r && leb_ℤ q r.reserved

abbrev pub release_row : ℤ → Time → Inventory → Inventory
release_row q now r = record r {
  reserved = r.reserved -ℤ q;
  available = r.available +ℤ q;
  updated_at = now;
}

unfoldable pub release : Conn → Uuid → ℤ → Run Bool
release c pid q = do
  now ← clock_now
  n ← exec c (update_stock (can_release pid q) (release_row q now))
  pure (ltb 0 n)

abbrev pub confirm_row : ℤ → Time → Inventory → Inventory
confirm_row q now r = record r { reserved = r.reserved -ℤ q; updated_at = now }

unfoldable pub confirm : Conn → Uuid → ℤ → Run Bool
confirm c pid q = do
  now ← clock_now
  n ← exec c (update_stock (can_release pid q) (confirm_row q now))
  pure (ltb 0 n)
