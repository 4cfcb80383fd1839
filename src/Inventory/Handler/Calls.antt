-- ===== src/Inventory/Handler/Calls.antt =====
-- The handlers.
use order_hub.Base.{
  ℕ, Uuid, String, str_eq, Bool, true, false, Option, none, some, List, [], ◌∷◌, if◌then◌else◌,
}
use order_hub.Base.Int.{ℤ, to_int32}
use order_hub.Base.Store.{World, Result, ok, err}
use order_hub.Inventory.Models.{Db}
use order_hub.Inventory.Errors.{Context, InventoryError, Run}
use order_hub.Inventory.Service.Types.{ProductInput, ProductPatch, ReserveItem}
use order_hub.Inventory.Service.Catalog
use order_hub.Inventory.Service.StockLevels
use order_hub.Inventory.Service.Reserving
use order_hub.Inventory.Handler.Messages.{
  Code, invalid_argument, unauthenticated, Reply, reply, status, nil_pointer, Handler,
  to_status_err, from_uuid, next_offset, ProductInputMessage, to_product_input, from_patch,
  ProductMessage, StockMessage, OkItemMessage, FailedItemMessage, to_proto_product, to_proto_stock,
  to_proto_products, to_ok_items, to_failed_items,
}

abbrev pub refuse : {A : Type 0} → Code → Handler A
refuse c w = (status c, w)

-- `if err := v.ValidateAll(); err != nil`
abbrev pub validated : {A : Type 0} → Bool → Handler A → Handler A
validated true h = h
validated false h = refuse invalid_argument

-- the service's result, or the status of its error
abbrev pub answer :
    {A B : Type 0} → (A → Reply B) → Result InventoryError A × World Db → Reply B × World Db
answer k (ok a, w) = (k a, w)
answer k (err e, w) = (status (to_status_err e), w)

unfoldable pub call : {A B : Type 0} → Run A → (A → Reply B) → Handler B
call m k w = answer k (m w)

-- a conversion that dereferences its argument
abbrev pub or_panic : {A B : Type 0} → (A → B) → Option A → Reply B
or_panic f none = nil_pointer
or_panic f (some a) = reply (f a)

module _ (parse : String → Option Uuid) where
  abbrev pub parsed : {A : Type 0} → Option Uuid → (Uuid → Handler A) → Handler A
  parsed none k = refuse invalid_argument
  parsed (some id) k = k id

  -- `fromUUID`, or the status of its error
  abbrev pub with_uuid : {A : Type 0} → Option String → (Uuid → Handler A) → Handler A
  with_uuid u k = parsed (from_uuid parse u) k

  -- the loop over the identifiers of `BatchGetProducts`
  unfoldable pub parse_ids : List (Option String) → Option (List Uuid)
  unfolding from_uuid
  parse_ids [] = some []
  parse_ids (u ∷ us) = join (from_uuid parse u) (parse_ids us)
    where
      join : Option Uuid → Option (List Uuid) → Option (List Uuid)
      join (some id) (some ids) = some (id ∷ ids)
      join _ _ = none

  -- the loop over the items of `Reserve`: an identifier and a quantity each
  unfoldable pub parse_items : List (Option String × ℕ) → Option (List ReserveItem)
  unfolding from_uuid
  parse_items [] = some []
  parse_items ((u, q) ∷ us) = join q (from_uuid parse u) (parse_items us)
    where
      join : ℕ → Option Uuid → Option (List ReserveItem) → Option (List ReserveItem)
      join q (some id) (some its) = some ((record { product_id = id; quantity = q }) ∷ its)
      join q _ _ = none

  abbrev pub with_list : {A B : Type 0} → Option (List A) → (List A → Handler B) → Handler B
  with_list none k = refuse invalid_argument
  with_list (some xs) k = k xs

  unfoldable pub release : Bool → Option String → Handler (Unit {0})
  unfolding call from_uuid
  release valid oid =
      validated valid (with_uuid oid (λ o. call (Reserving.release o) (λ _. reply tt)))

  unfoldable pub confirm : Bool → Option String → Handler (Unit {0})
  unfolding call from_uuid
  confirm valid oid =
      validated valid (with_uuid oid (λ o. call (Reserving.confirm o) (λ _. reply tt)))

  unfoldable pub delete_product : Context → Bool → Option String → Handler (Unit {0})
  unfolding call from_uuid
  delete_product ctx valid id =
      validated valid (with_uuid id (λ i. call (Catalog.delete_product ctx i) (λ _. reply tt)))

  module _ (print : Uuid → String) where
    unfoldable pub reserve :
        Bool
        → Option String
        → List (Option String × ℕ)
        → Handler (List OkItemMessage × List FailedItemMessage)
    unfolding call from_uuid parse_items to_ok_items to_failed_items
    reserve valid oid items = validated valid (
        with_uuid oid (λ o. with_list (parse_items items) (λ its.
          call (Reserving.reserve o its)
            (λ r. reply (to_ok_items print r.ok_items, to_failed_items print r.failed)))))

    unfoldable pub get_product : Bool → Option String → Handler ProductMessage
    unfolding call from_uuid to_proto_product
    get_product valid id =
        validated valid
          (with_uuid id (λ i. call (Catalog.get_product i) (λ p. reply (to_proto_product print p))))

    unfoldable pub batch_get_products : Bool → List (Option String) → Handler (List ProductMessage)
    unfolding call parse_ids to_proto_products
    batch_get_products valid ids = validated valid (
        with_list (parse_ids ids)
          (λ is. call (Catalog.batch_get_products is) (λ ps. reply (to_proto_products print ps))))

    unfoldable pub get_stock : Bool → Option String → Handler StockMessage
    unfolding call from_uuid to_proto_stock
    get_stock valid id =
        validated valid
          (with_uuid id (λ i. call (StockLevels.get_stock i) (λ s. reply (to_proto_stock print s))))

    -- `toProtoStock` of the nil that the service returns where there is no row
    unfoldable pub set_stock : Context → Bool → Option String → ℤ → Handler StockMessage
    unfolding call from_uuid to_proto_stock
    set_stock ctx valid id available = validated valid (
        with_uuid id
          (λ i. call (StockLevels.set_stock ctx i available) (or_panic (to_proto_stock print))))

    unfoldable pub adjust_stock : Context → Bool → Option String → ℤ → Handler StockMessage
    unfolding call from_uuid to_proto_stock
    adjust_stock ctx valid id delta = validated valid (
        with_uuid id
          (λ i. call (StockLevels.adjust_stock ctx i delta) (or_panic (to_proto_stock print))))

    module _ (lower : String → String) where
      abbrev pub signed_in : {A : Type 0} → Option Uuid → (Uuid → Handler A) → Handler A
      signed_in none k = refuse unauthenticated
      signed_in (some uid) k = k uid

      abbrev pub with_input :
          {A : Type 0} → Option ProductInput → (ProductInput → Handler A) → Handler A
      with_input none k = refuse invalid_argument
      with_input (some input) k = k input

      unfoldable pub create_product :
          Context → Bool → Option ProductInputMessage → Handler ProductMessage
      unfolding call to_proto_product to_product_input
      create_product ctx valid m = validated valid (
          signed_in ctx.user_id (λ uid. with_input (to_product_input m uid) (λ input.
            call (Catalog.create_product lower ctx input) (λ p. reply (to_proto_product print p)))))

      unfoldable pub update_product :
          Context → Bool → Option String → Option ProductPatch → Handler ProductMessage
      unfolding call from_uuid to_proto_product from_patch
      update_product ctx valid id patch = validated valid (
          with_uuid id (λ i.
            call (Catalog.update_product lower ctx i (from_patch patch))
              (or_panic (to_proto_product print))))

      -- `u != nil && u.Value != ""`: an empty identifier asks for every vendor
      abbrev pub with_vendor : {A : Type 0} → Option String → (Option Uuid → Handler A) → Handler A
      with_vendor none k = k none
      with_vendor (some v) k = if str_eq v "" then k none else with_uuid (some v) (λ i. k (some i))

      abbrev pub only_true : Bool → Option Bool
      only_true true = some true
      only_true false = none

      -- the page, the total and the offset of the next page
      unfoldable pub list_products :
          (String → String → Bool)
          → Bool
          → Option String
          → String
          → Bool
          → ℤ
          → ℤ
          → Handler (List ProductMessage × ℤ × ℤ)
      unfolding call from_uuid to_proto_products next_offset to_int32
      list_products like valid vendor text only_active limit offset = validated valid (
          with_vendor vendor (λ vid.
            call
              (Catalog.list_products lower like (record {
                vendor_id = vid;
                query_text = text;
                only_active = only_true only_active;
                limit = limit;
                offset = offset;
              }))
              (λ (page, total).
                reply
                  (to_proto_products print page, to_int32 total, next_offset offset limit total))))
