-- ===== src/Orders/Tests.antt =====
-- Runs of the order service on small tables.
use order_hub.Base.{
  Uuid, String, str_eq, ◌≡◌, refl, true, false, Option, none, some, List, [], ◌∷◌, arith, ◌==◌,
  if◌then◌else◌, ◌≤◌, ◌<◌, length,
}
use mathlib.Core.Option.{map as map_option}
use order_hub.Base.Int.{pos, pos_part, leb_ℤ, wrap64, ◌+ℤ◌, ◌*ℤ◌}
use order_hub.Base.Rows.{any_where, update_where, count_where, find_where, select_where}
use order_hub.Base.Store.{
  World, Result, ok, err, ok_injective, database, constraint, attempt, query, exec, transaction,
}
use order_hub.Base.Post.{Post}
use order_hub.Orders.Models.{Order, OrderItem, OrderStatus, Db, Context, Role, OrderError}
use order_hub.Orders.Repo.Orders
use order_hub.Orders.Repo.Orders.{with_items, page_limit, matches, has_id}
use order_hub.Orders.Repo.Items
use order_hub.Orders.Pricing.{Price, Prices, Pricing, ProductMessage, get_prices, add_messages}
use order_hub.Orders.Service.{
  CreateOrderItem, OrderCancelledEvent, ListFilter, own_filter, create_order, get_order,
  list_orders, cancel_order, place_order, store_order, price_items, require_auth, sanitize_reason,
}
use order_hub.Orders.Access.{Kept, MaySee, get_order-MaySee}
use order_hub.Orders.Lists.{All, list_orders-MaySee}
use order_hub.Orders.Cancelling.{KeptOrCancelled, Cancelled, Told, cancel_order-Cancelled}
use order_hub.Orders.CancelTwice.{cancel_order-once}
use order_hub.Orders.Storing.{KeptOrOpened}
use order_hub.Orders.Placing.{Placed, create_order-Placed}
use order_hub.Orders.Totals.{worth, Charged, NonNegative, create_order-Charged}
use order_hub.Base.{◌⊎◌, ◌≢◌, ◌++◌, ◌+◌}
use order_hub.Base.Int.{negsuc}
use order_hub.Base.Rows.{drop}
use order_hub.Orders.Repo.Orders.{OrderListFilter, page_of}
use order_hub.Orders.Duplicates.{lists_twice, create_order-duplicate}
use order_hub.Orders.Handler.{next_offset}
use order_hub.Orders.Paging.{shown, next_offset-page_of}
use order_hub.Orders.Cancelling.{cancelled_db}
use order_hub.Orders.CancelReturns.{cancel_order-Returns}

abbrev item : Uuid → Uuid → Uuid → OrderItem
item id order product = record {
  id = id;
  order_id = order;
  product_id = product;
  quantity = 2;
  unit_price_cents = pos 150;
  line_total_cents = pos 300;
  currency_code = "RUB";
  created_at = 1;
}

abbrev order_of : Uuid → Uuid → Order
order_of id user = record {
  id = id;
  user_id = user;
  status = OrderStatus.pending;
  total_price_cents = pos 300;
  currency_code = "RUB";
  cancel_reason = none;
  created_at = 1;
  updated_at = 1;
  items = [];
}

-- an order of user 7 and one of user 8
abbrev shop : Db
shop = record {
  orders = order_of 10 7 ∷ order_of 11 8 ∷ [];
  order_items = item 20 10 1 ∷ item 21 11 2 ∷ [];
  next_id = 30;
}

abbrev quiet : Db → World Db
quiet d = record { db = d; tx = d; faults = []; clock = 5 }

abbrev as_user : Uuid → Context
as_user id = record { user_id = some id; role = some Role.role_customer }

-- product 1 costs 150 kopecks, product 2 is not sold
abbrev price_list : List Uuid → Option (List (Option ProductMessage))
price_list ids = some (
    (some (record { id = "1"; price_cents = pos 150; currency_code = "RUB"; is_active = true }))
    ∷ (some (record { id = "2"; price_cents = pos 99; currency_code = "RUB"; is_active = false }))
    ∷ none
    ∷ [])

abbrev parse_digit : String → Option Uuid
parse_digit s = if str_eq s "1" then some 1 else if str_eq s "2" then some 2 else none

abbrev pricing : Pricing
pricing = get_prices parse_digit price_list

abbrev two_cups : List CreateOrderItem
two_cups = (record { product_id = 1; quantity = 2 }) ∷ []

get_order-MaySee_example :
    Post
      (λ o v. (v.db ≡ shop) × (o.id ≡ 10) × MaySee (as_user 7) o × (o ≡ with_items shop o))
      (Kept shop)
      (get_order (as_user 7) 10 (quiet shop))
get_order-MaySee_example = get_order-MaySee (as_user 7) 10 (quiet shop)

abbrev any_status : ListFilter
any_status = record { user_id = none; status = none; limit = pos 0; offset = pos 0 }

list_orders-MaySee_example :
    Post
      (λ (page, total) v.
        (v.db ≡ shop)
        × All (MaySee (as_user 7)) page
        × (length page ≤ pos_part (page_limit (pos 0)))
        × ((user : Uuid)
            → some 7 ≡ some user
            → total
              ≡ count_where
                  (matches (own_filter user (some Role.role_customer) any_status))
                  shop.orders))
      (Kept shop)
      (list_orders (as_user 7) any_status (quiet shop))
list_orders-MaySee_example = list_orders-MaySee (as_user 7) any_status (quiet shop)

cancel_order-Cancelled_example :
    Post
      (λ r v.
        Cancelled (as_user 7) 10 none 5 shop v.db
        × (r.0 ≡ map_option (with_items v.db) (find_where (has_id 10) v.db.orders))
        × Told true none 5 r.0 r.1)
      (KeptOrCancelled (as_user 7) 10 none (quiet shop))
      (cancel_order true (as_user 7) 10 none (quiet shop))
cancel_order-Cancelled_example = cancel_order-Cancelled (as_user 7) 10 none (quiet shop) true

abbrev ended : {A : Type 0} → A → Result OrderError A × World Db → A × World Db
ended a (ok b, w) = (b, w)
ended a (err _, w) = (a, w)

abbrev cancel_run : (Option Order × List OrderCancelledEvent) × World Db
cancel_run = ended (none, []) (cancel_order true (as_user 7) 10 none (quiet shop))

cancel_run_lem :
    cancel_order true (as_user 7) 10 none (quiet shop) ≡ (ok cancel_run.0, cancel_run.1)
unfolding cancel_order require_auth Orders.get_by_id Orders.preload Orders.update_status
    Orders.update_orders query exec attempt find_where select_where update_where any_where
    sanitize_reason
cancel_run_lem = refl

cancel_order-once_example :
    Post (λ _ _. ⊥) (Kept cancel_run.1.db) (cancel_order true (as_user 7) 10 none cancel_run.1)
cancel_order-once_example =
    cancel_order-once true true (as_user 7) (as_user 7) 10 none none (quiet shop) cancel_run.1
      cancel_run.0 cancel_run_lem

create_order-Placed_example :
    Post
      (λ r v. Placed pricing (as_user 7) two_cups (quiet shop) r.0 v.db)
      (λ _ v. KeptOrOpened shop 5 v.db)
      (create_order true pricing (as_user 7) two_cups (quiet shop))
create_order-Placed_example = create_order-Placed true pricing (as_user 7) two_cups (quiet shop)

abbrev table : Prices
table id =
    if id == 1 then some (record { unit_price_cents = pos 150; currency_code = "RUB" }) else none

table_priced : NonNegative table × (worth table two_cups < 9223372036854775808)
unfolding worth
table_priced = (λ id p e. nonneg id p e, omega arith)
  where
    nonneg : (id : Uuid) (p : Price) → table id ≡ some p → leb_ℤ (pos 0) p.unit_price_cents ≡ true
    nonneg id p e = ground arith

priced :
    (prices : Prices)
    → pricing (1 ∷ []) ≡ ok prices
    → NonNegative prices × (worth prices two_cups < 9223372036854775808)
unfolding get_prices add_messages
priced prices e = rw (← ok_injective e) table_priced

create_order-Charged_example :
    Post
      (λ r v. Charged pricing two_cups r.0 v.db)
      (λ _ v. KeptOrOpened shop 5 v.db)
      (create_order true pricing (as_user 7) two_cups (quiet shop))
unfolding any_where
create_order-Charged_example =
    create_order-Charged true pricing (as_user 7) two_cups (quiet shop) priced refl

abbrev two_cups_twice : List CreateOrderItem
two_cups_twice = (record { product_id = 1; quantity = 2 }) ∷ two_cups

abbrev result_and_tables : {A : Type 0} → Result OrderError A × World Db → Result OrderError A × Db
result_and_tables (r, w) = (r, w.db)

-- an order that lists a product twice is refused, and its row stays: PENDING, without items
duplicate_run :
    result_and_tables (create_order true pricing (as_user 7) two_cups_twice (quiet shop)) ≡ (
      err (database constraint),
      record shop {
        orders =
            (record (order_of 30 7) { total_price_cents = pos 600; created_at = 5; updated_at = 5 })
            ∷ shop.orders;
        next_id = 31;
      },
    )
unfolding create_order require_auth place_order store_order price_items Orders.create
    Orders.create_row Items.bulk_create Items.create_rows query exec attempt transaction get_prices
    add_messages any_where wrap64 ◌+ℤ◌ ◌*ℤ◌
duplicate_run = refl

create_order-duplicate_example :
    Post
      (λ _ _. ⊥)
      (λ _ v. KeptOrOpened shop 5 v.db)
      (create_order true pricing (as_user 7) two_cups_twice (quiet shop))
unfolding lists_twice any_where
create_order-duplicate_example =
    create_order-duplicate true pricing (as_user 7) two_cups_twice (quiet shop) refl

-- the first of two orders
abbrev first_page : OrderListFilter
first_page = record { user_id = none; status = none; limit = pos 1; offset = pos 0 }

next_offset-page_of_example :
    (drop 0 (shown first_page shop.orders)
      ≡ page_of first_page shop.orders ++ drop (0 + 1) (shown first_page shop.orders))
    × (((next_offset (pos 0) (pos 1) (count_where (matches first_page) shop.orders) ≡ negsuc 0)
          × (drop (0 + 1) (shown first_page shop.orders) ≡ []))
        ⊎ ((next_offset (pos 0) (pos 1) (count_where (matches first_page) shop.orders)
              ≡ pos (0 + 1))
            × (drop (0 + 1) (shown first_page shop.orders) ≢ [])))
next_offset-page_of_example =
    next_offset-page_of first_page shop.orders 0 1 refl refl (omega arith) (omega arith)

cancel_order-Returns_example :
    (x : Order) × (evs : List OrderCancelledEvent) × (v : World Db) × (cancel_order true
        (as_user 7)
        10
        none
        (quiet shop)
      ≡ (ok (some x, evs), v))
    × (x.status ≡ OrderStatus.cancelled)
    × (v.db ≡ cancelled_db 10 none 5 shop)
unfolding any_where find_where
cancel_order-Returns_example =
    cancel_order-Returns true (as_user 7) 10 none (quiet shop) 7 (order_of 10 7) refl refl refl refl
      refl refl
