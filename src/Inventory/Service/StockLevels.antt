-- ===== src/Inventory/Service/StockLevels.antt =====
-- `GetStock`, `SetStock`, `AdjustStock`.
use order_hub.Base.{Uuid, Option}
use order_hub.Base.Int.{ℤ}
use order_hub.Base.Store.{pool, pure, guard, ◌>>=◌, ◌>>◌}
use order_hub.Inventory.Models.{Product, Inventory}
use order_hub.Inventory.Errors.{
  Context, Run, require_auth, may_manage, product_not_found, inventory_not_found, forbidden,
}
use order_hub.Inventory.Repo.Stock
use order_hub.Inventory.Repo.Products
use order_hub.Inventory.Service.Catalog.{or_not_found}

unfoldable pub get_stock : Uuid → Run Inventory
get_stock id = do inv ← Stock.get pool id; or_not_found inv inventory_not_found

-- the checks that `SetStock` and `AdjustStock` begin with
unfoldable pub managed_product : Context → Uuid → Run Product
managed_product ctx id = do
  (req_user, role) ← require_auth ctx
  found ← Products.get_by_id pool id
  p ← or_not_found found product_not_found
  guard (may_manage role p.vendor_id req_user) forbidden
  pure p

-- The result is the pointer that the repository returns: nil if there is no row.
unfoldable pub set_stock : Context → Uuid → ℤ → Run (Option Inventory)
unfolding managed_product
set_stock ctx id available = do
  managed_product ctx id
  Stock.set_available pool id available
  Stock.get pool id

-- The flag that `AdjustAvailable` returns is dropped.
unfoldable pub adjust_stock : Context → Uuid → ℤ → Run (Option Inventory)
unfolding managed_product
adjust_stock ctx id delta = do
  managed_product ctx id
  Stock.adjust_available pool id delta
  Stock.get pool id
