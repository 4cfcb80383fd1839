-- ===== src/Inventory/Handler/Codes.antt =====
-- The codes that a request for a product is answered with.
use order_hub.Base.{Uuid, ◌≡◌, refl, ap, ◌⊎◌, inl, inr, true, String, Option, none, some}
use order_hub.Base.Rows.{find_where}
use order_hub.Base.Store.{World, Result, ok, err, Error, pool}
use order_hub.Base.Post.{Post, Post-bind, Post-query}
use order_hub.Inventory.Models.{Product, Db}
use order_hub.Inventory.Errors.{InventoryError, product_not_found}
use order_hub.Inventory.Repo.Products
use order_hub.Inventory.Repo.Products.{has_id}
use order_hub.Inventory.Service.Catalog
use order_hub.Inventory.Service.Catalog.{or_not_found}
use order_hub.Inventory.Handler.Messages.{
  internal, reply, status, to_status_err, from_uuid, to_proto_product,
}
use order_hub.Inventory.Handler.Calls.{call, answer, get_product}

-- the row that has been found, or an error that is answered as INTERNAL
abbrev Found : Uuid → World Db → Product → World Db → Type 0
Found i w p v = (find_where (has_id i) w.db.products ≡ some p) × (v.db ≡ w.db)

abbrev Hidden : World Db → Error InventoryError → World Db → Type 0
Hidden w e v = (to_status_err e ≡ internal) × (v.db ≡ w.db)

service_lem : (i : Uuid) (w : World Db) → Post (Found i w) (Hidden w) (Catalog.get_product i w)
unfolding Catalog.get_product Products.get_by_id to_status_err
service_lem i w =
    Post-bind Row (Found i w) (Hidden w) (Products.get_by_id pool i)
      (λ p. or_not_found p product_not_found) w
      (Post-query Row (Hidden w) pool
        (λ d. Products.found_or_error (find_where (has_id i) d.products)) w
        (λ gs. found_lem (find_where (has_id i) w.db.products) (record w { faults = gs }) refl refl)
        (λ _. (refl, refl)))
      (λ o v (p, e, found, kept). rw e (found, kept))
  where
    Row : Option Product → World Db → Type 0
    Row o v =
        (p : Product) × (o ≡ some p)
        × (find_where (has_id i) w.db.products ≡ some p)
        × (v.db ≡ w.db)

    found_lem :
        (o : Option Product) (v : World Db)
        → find_where (has_id i) w.db.products ≡ o
        → v.db ≡ w.db
        → Post Row (Hidden w) (Products.found_or_error o, v)
    found_lem none v e kept = (refl, kept)
    found_lem (some p) v e kept = (p, refl, e, kept)

-- `GetProduct`, where the generated validation accepts the request and its identifier can be read, changes nothing. It answers with the product
-- of that identifier or INTERNAL, and always with INTERNAL where there is no such product: never with
-- NOT_FOUND.
pub get_product_lem :
    (parse : String → Option Uuid) (print : Uuid → String) (id : Option String) (i : Uuid)
    (w : World Db)
    → from_uuid parse id ≡ some i
    → ((p : Product) × (find_where (has_id i) w.db.products ≡ some p)
        × ((get_product parse print true id w).0 ≡ reply (to_proto_product print p))
        × ((get_product parse print true id w).1.db ≡ w.db))
      ⊎ (((get_product parse print true id w).0 ≡ status internal)
          × ((get_product parse print true id w).1.db ≡ w.db))
unfolding get_product call
get_product_lem parse print id i w e =
    rw e (answer_lem (Catalog.get_product i w).0 (Catalog.get_product i w).1 (service_lem i w))
  where
    answer_lem :
        (r : Result InventoryError Product) (v : World Db)
        → Post (Found i w) (Hidden w) (r, v)
        → ((p : Product) × (find_where (has_id i) w.db.products ≡ some p)
            × ((answer (λ x. reply (to_proto_product print x)) (r, v)).0
                ≡ reply (to_proto_product print p))
            × ((answer (λ x. reply (to_proto_product print x)) (r, v)).1.db ≡ w.db))
          ⊎ (((answer (λ x. reply (to_proto_product print x)) (r, v)).0 ≡ status internal)
              × ((answer (λ x. reply (to_proto_product print x)) (r, v)).1.db ≡ w.db))
    answer_lem (ok p) v (found, kept) = inl (p, found, refl, kept)
    answer_lem (err x) v (code, kept) = inr (ap status code, kept)
