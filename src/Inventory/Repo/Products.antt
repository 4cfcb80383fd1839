-- ===== src/Inventory/Repo/Products.antt =====
-- product_repo.go: the statements on the table `products`. `lower` stands for PostgreSQL's function
-- of that name, which is not in the repository; `like` for its operator.
use order_hub.Base.{
  ℕ, suc, Uuid, Time, String, str_eq, Bool, true, false, Option, none, some, List, [], ◌∷◌, ltb,
  ◌==◌, if◌then◌else◌, not, ◌&&◌, ◌||◌,
}
use order_hub.Base.Int.{ℤ, pos, leb_ℤ, pos_part}
use order_hub.Base.Text.{trim_space, text_append}
use order_hub.Base.Rows.{
  update_where, count_where, select_where, delete_where, find_where, any_where, order_by, take,
  drop,
}
use order_hub.Base.Store.{
  Result, ok, err, database, constraint, record_not_found, Conn, pure, clock_now, query, exec,
  ◌>>=◌,
}
use order_hub.Inventory.Models.{Product, Inventory, Reservation, Db}
use order_hub.Inventory.Errors.{InventoryError, Run}

abbrev pub currency_rub : String
currency_rub = "RUB"

abbrev pub has_id : Uuid → Product → Bool
has_id id p = p.id == id

-- `ErrRecordNotFound` of `First` is returned as it is
abbrev pub found_or_error : Option Product → Result InventoryError (Option Product)
found_or_error none = err (database record_not_found)
found_or_error (some p) = ok (some p)

-- The result is a pointer.
unfoldable pub get_by_id : Conn → Uuid → Run (Option Product)
get_by_id c id = query c (λ d. found_or_error (find_where (has_id id) d.products))

-- The columns that `UpdateFields` is given; the price is never among them.
pub record ProductFields : Type 0 where
  pub sku : Option String
  pub name : Option String
  pub description : Option String
  pub currency_code : Option String
  pub is_active : Option Bool

abbrev or_old {ℓ} : {A : Type ℓ} → Option A → A → A
or_old none old = old
or_old (some a) _ = a

abbrev pub patch_row : ProductFields → Time → Product → Product
patch_row f now p = record p {
  sku = or_old f.sku p.sku;
  name = or_old f.name p.name;
  description = or_old f.description p.description;
  currency_code = or_old f.currency_code p.currency_code;
  is_active = or_old f.is_active p.is_active;
  updated_at = now;
}

unfoldable pub batch_get_by_ids : Conn → List Uuid → Run (List Product)
batch_get_by_ids c [] = pure []
batch_get_by_ids c (id ∷ ids) =
    query c (λ d. ok (select_where (λ (p : Product). member p.id (id ∷ ids)) d.products))
  where
    member : Uuid → List Uuid → Bool
    member i [] = false
    member i (j ∷ js) = i == j || member i js

abbrev pub empty_stock : Uuid → Time → Inventory
empty_stock pid now = record {
  product_id = pid;
  available = pos 0;
  reserved = pos 0;
  updated_at = now;
}

-- `INSERT ... ON CONFLICT DO NOTHING`, under the foreign key on `products`
unfoldable pub ensure_row : Uuid → Time → Db → Result InventoryError (Unit {0} × Db)
ensure_row pid now d =
    if any_where (λ (r : Inventory). r.product_id == pid) d.inventories
    then ok (tt, d)
    else if any_where (has_id pid) d.products
    then ok (tt, record d { inventories = empty_stock pid now ∷ d.inventories })
    else err (database constraint)

unfoldable pub ensure_inventory_row : Conn → Uuid → Run (Unit {0})
ensure_inventory_row c pid = do now ← clock_now; exec c (ensure_row pid now)

-- `DELETE`: refused while a reservation names the product, and the stock goes with the product
unfoldable pub delete_row : Uuid → Db → Result InventoryError (Bool × Db)
delete_row id d =
    if any_where (has_id id) d.products
      && any_where (λ (r : Reservation). r.product_id == id) d.reservations
    then err (database constraint)
    else ok (
      any_where (has_id id) d.products,
      record d {
        products = delete_where (has_id id) d.products;
        inventories =
            if any_where (has_id id) d.products
            then delete_where (λ (r : Inventory). r.product_id == id) d.inventories
            else d.inventories;
      },
    )

unfoldable pub delete : Conn → Uuid → Run Bool
delete c id = exec c (delete_row id)

pub record ProductListFilter : Type 0 where
  pub vendor_id : Option Uuid
  pub query_text : String
  pub only_active : Option Bool
  pub limit : ℤ
  pub offset : ℤ

-- `if f.Limit <= 0 { f.Limit = 20 }`
abbrev pub page_limit : ℤ → ℕ
page_limit limit = if leb_ℤ limit (pos 0) then 20 else pos_part limit

abbrev all_or_eq : Option Uuid → Uuid → Bool
all_or_eq none _ = true
all_or_eq (some a) b = a == b

abbrev flag_fits : Option Bool → Bool → Bool
flag_fits none _ = true
flag_fits (some true) b = b
flag_fits (some false) b = not b

-- `created_at DESC`
abbrev newer : Product → Product → Bool
newer p q = ltb q.created_at p.created_at

module _ (lower : String → String) where
  -- the columns of `ux_products_vendor_sku`
  abbrev pub same_sku : Uuid → String → Product → Bool
  same_sku vendor sku p = p.vendor_id == vendor && str_eq (lower p.sku) (lower sku)

  unfoldable pub get_by_vendor_and_sku : Conn → Uuid → String → Run (Option Product)
  get_by_vendor_and_sku c vendor sku =
      query c (λ d. ok (find_where (same_sku vendor sku) d.products))

  -- the CHECKs of `products`
  abbrev pub product_allowed : Product → Bool
  product_allowed p = leb_ℤ (pos 0) p.price_cents && str_eq p.currency_code currency_rub

  -- `INSERT`: the row gets a new identifier. For a flag that is false, the zero value, gorm takes the default
  -- of its tag, `default:true`, and sets it in the product as well.
  unfoldable pub create_row : Product → Db → Result InventoryError (Product × Db)
  create_row p d =
      let q : Product = record p { id = d.next_id; is_active = true } in
      if product_allowed q && not (any_where (same_sku q.vendor_id q.sku) d.products)
      then ok (q, record d { products = q ∷ d.products; next_id = suc d.next_id })
      else err (database constraint)

  unfoldable pub create : Conn → Product → Run Product
  create c p = exec c (create_row p)

  -- `UPDATE` of the row with the identifier, under the CHECKs and the unique index
  unfoldable pub update_row :
      Uuid → ProductFields → Time → Db → Result InventoryError (Unit {0} × Db)
  update_row id f now d =
      if any_where
        (λ (p : Product).
          has_id id p
          && (not (product_allowed (patch_row f now p))
              || any_where
                  (λ (q : Product).
                    not (has_id id q)
                    && same_sku (patch_row f now p).vendor_id (patch_row f now p).sku q)
                  d.products))
        d.products
      then err (database constraint)
      else ok (tt, record d { products = update_where (has_id id) (patch_row f now) d.products })

  unfoldable pub update_fields : Conn → Uuid → ProductFields → Time → Run (Unit {0})
  update_fields c id f now = exec c (update_row id f now)

  module _ (like : String → String → Bool) where
    -- `lower(a) LIKE lower('%' + s + '%')`
    abbrev contains_text : String → String → Bool
    contains_text a s = like (lower a) (lower (text_append "%" (text_append s "%")))

    abbrev matches_text : String → Product → Bool
    matches_text s p = str_eq s "" || contains_text p.name s || contains_text p.sku s

    abbrev matches : ProductListFilter → Product → Bool
    matches f p =
        all_or_eq f.vendor_id p.vendor_id
        && flag_fits f.only_active p.is_active
        && matches_text (trim_space f.query_text) p

    -- `List`: the page, and the number of the rows that the filter lets through
    unfoldable pub list : Conn → ProductListFilter → Run (List Product × ℕ)
    list c f = do
      total ← query c (λ d. ok (count_where (matches f) d.products))
      page ← query c (λ d. ok (
          take (page_limit f.limit)
            (drop (pos_part f.offset) (order_by newer (select_where (matches f) d.products)))))
      pure (page, total)
