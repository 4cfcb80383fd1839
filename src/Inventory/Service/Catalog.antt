-- ===== src/Inventory/Service/Catalog.antt =====
-- The catalogue: `CreateProduct`, `UpdateProduct`, `GetProduct`, `ListProducts`, `DeleteProduct`,
-- `BatchGetProducts`. `lower` and `like` stand for PostgreSQL's, as in the repository.
use order_hub.Base.{Time}
use order_hub.Base.{
  ℕ, Uuid, String, str_eq, Bool, true, false, Option, none, some, List, ◌==◌, if◌then◌else◌, not,
  ◌&&◌, ◌||◌,
}
use order_hub.Base.Int.{pos, ltb_ℤ}
use order_hub.Base.Text.{trim_space}
use order_hub.Base.Store.{
  pool, tx_conn, service, pure, fail, guard, clock_now, transaction, ◌>>=◌, ◌>>◌,
}
use order_hub.Inventory.Models.{Product, Inventory}
use order_hub.Inventory.Errors.{
  InventoryError, Context, Run, require_auth, is_admin, is_vendor, may_manage, product_not_found,
  forbidden, currency_not_rub, sku_already_exists, cannot_delete_product_with_reservations,
}
use order_hub.Inventory.Repo.Stock
use order_hub.Inventory.Repo.Products
use order_hub.Inventory.Repo.Products.{ProductFields, ProductListFilter, currency_rub}
use order_hub.Inventory.Service.Types.{ProductInput, ProductPatch}

abbrev pub must_rub : String → Bool
must_rub code = str_eq code currency_rub

-- `if p == nil { return ErrProductNotFound }`
abbrev pub or_not_found : {A : Type 0} → Option A → InventoryError → Run A
or_not_found none e = fail (service e)
or_not_found (some a) _ = pure a

-- `inv != nil && inv.Reserved > 0`
abbrev holds_stock : Option Inventory → Bool
holds_stock none = false
holds_stock (some inv) = ltb_ℤ (pos 0) inv.reserved

unfoldable pub get_product : Uuid → Run Product
get_product id = do p ← Products.get_by_id pool id; or_not_found p product_not_found

unfoldable pub delete_product : Context → Uuid → Run Bool
delete_product ctx id = do
  (req_user, role) ← require_auth ctx
  found ← Products.get_by_id pool id
  p ← or_not_found found product_not_found
  guard (may_manage role p.vendor_id req_user) forbidden
  inv ← Stock.get pool id
  guard (not (holds_stock inv)) cannot_delete_product_with_reservations
  Products.delete pool id

unfoldable pub batch_get_products : List Uuid → Run (List Product)
batch_get_products ids = Products.batch_get_by_ids pool ids

abbrev map_trim : Option String → Option String
map_trim none = none
map_trim (some s) = some (trim_space s)

-- the currency of the patch, once it has been checked
abbrev rub_or_none : Option String → Option String
rub_or_none none = none
rub_or_none (some _) = some currency_rub

abbrev pub currency_fits : Option String → Bool
currency_fits none = true
currency_fits (some code) = must_rub code

-- The map `fields`: the patch's price is not copied.
abbrev pub fields_of : ProductPatch → ProductFields
fields_of patch = record {
  sku = map_trim patch.sku;
  name = map_trim patch.name;
  description = map_trim patch.description;
  currency_code = rub_or_none patch.currency_code;
  is_active = patch.is_active;
}

abbrev pub absent {ℓ} : {A : Type ℓ} → Option A → Bool
absent none = true
absent (some _) = false

-- `len(fields) == 0`
abbrev pub no_fields : ProductFields → Bool
no_fields f =
    absent f.sku
    && absent f.name
    && absent f.description
    && absent f.currency_code
    && absent f.is_active

abbrev pub is_other : Uuid → Option Product → Bool
is_other id none = false
is_other id (some p) = not (p.id == id)

-- the row that `CreateProduct` inserts
abbrev pub new_product : ProductInput → Time → Product
new_product input now = record {
  id = 0;
  vendor_id = input.vendor_id;
  sku = trim_space input.sku;
  name = trim_space input.name;
  description = trim_space input.description;
  price_cents = input.price_cents;
  currency_code = currency_rub;
  is_active = input.is_active;
  created_at = now;
  updated_at = now;
}

module _ (lower : String → String) where
  unfoldable pub insert_product : Product → Run Product
  insert_product p = transaction do
    existing ← Products.get_by_vendor_and_sku lower tx_conn p.vendor_id p.sku
    guard (absent existing) sku_already_exists
    q ← Products.create lower tx_conn p
    Products.ensure_inventory_row tx_conn q.id
    pure q

  unfoldable pub create_product : Context → ProductInput → Run Product
  unfolding insert_product
  create_product ctx input = do
    (req_user, role) ← require_auth ctx
    guard (is_admin role || is_vendor role) forbidden
    guard (not (is_vendor role && not (input.vendor_id == req_user))) forbidden
    guard (must_rub input.currency_code) currency_not_rub
    now ← clock_now
    insert_product (new_product input now)

  -- the check of a new SKU against the vendor's other products
  abbrev pub check_sku : Product → Option String → Run (Unit {0})
  check_sku p none = pure tt
  check_sku p (some sku) = do
    existing ← Products.get_by_vendor_and_sku lower pool p.vendor_id sku
    guard (not (is_other p.id existing)) sku_already_exists

  -- the part of `UpdateProduct` after `len(fields) == 0`
  abbrev pub write_fields : Product → ProductFields → Run (Option Product)
  write_fields p f = do
    now ← clock_now
    check_sku p f.sku
    Products.update_fields lower pool p.id f now
    Products.get_by_id pool p.id

  -- The identifier that is written is the argument, which is the found product's.
  unfoldable pub update_product : Context → Uuid → ProductPatch → Run (Option Product)
  update_product ctx id patch = do
    (req_user, role) ← require_auth ctx
    found ← Products.get_by_id pool id
    p ← or_not_found found product_not_found
    guard (may_manage role p.vendor_id req_user) forbidden
    guard (currency_fits patch.currency_code) currency_not_rub
    if no_fields (fields_of patch) then pure (some p) else write_fields p (fields_of patch)

  unfoldable pub list_products :
      (String → String → Bool) → ProductListFilter → Run (List Product × ℕ)
  list_products like f = Products.list lower like pool f
