-- ===== src/Orders/Repo/Items.antt =====
-- order_item_repo.go: the statements on the table `order_items`.
use order_hub.Base.{
  ℕ, suc, Uuid, String, Bool, Option, none, some, List, [], ◌∷◌, ◌++◌, ltb, leb, ◌==◌,
  if◌then◌else◌, ◌&&◌, not,
}
use order_hub.Base.Int.{ℤ, pos, leb_ℤ, ◌+ℤ◌}
use order_hub.Base.Rows.{count_where, select_where, delete_where, any_where, order_by}
use order_hub.Base.Store.{Result, ok, err, database, constraint, Conn, pure, query, exec}
use order_hub.Orders.Models.{OrderItem, Db, OrderError, Run}
use order_hub.Orders.Repo.Orders.{char_length, has_id, of_order}

-- the columns of `ux_order_items_order_product`
abbrev pub same_item : OrderItem → OrderItem → Bool
same_item a b = b.order_id == a.order_id && b.product_id == a.product_id

-- the CHECKs, the range of `integer`, the unique index and the foreign key
abbrev pub item_allowed : OrderItem → Db → Bool
item_allowed it d =
    ltb 0 it.quantity
    && leb it.quantity 2147483647
    && leb_ℤ (pos 0) it.unit_price_cents
    && leb_ℤ (pos 0) it.line_total_cents
    && char_length it.currency_code == 3
    && not (any_where (same_item it) d.order_items)
    && any_where (has_id it.order_id) d.orders

abbrev pub item_inserted : OrderItem → Db → Db
item_inserted it d = record d {
  order_items = d.order_items ++ (record it { id = d.next_id }) ∷ [];
  next_id = suc d.next_id;
}

-- one `INSERT` of several rows: all of them, or none
unfoldable pub create_rows : List OrderItem → Db → Result OrderError (Unit {0} × Db)
create_rows [] d = ok (tt, d)
create_rows (it ∷ its) d =
    let rest = create_rows its (item_inserted it d) in
    if item_allowed it d then rest else err (database constraint)

unfoldable pub bulk_create : Conn → List OrderItem → Run (Unit {0})
bulk_create c [] = pure tt
bulk_create c (it ∷ its) = exec c (create_rows (it ∷ its))

abbrev earlier : OrderItem → OrderItem → Bool
earlier a b = ltb a.created_at b.created_at

unfoldable pub get_by_order_id : Conn → Uuid → Run (List OrderItem)
get_by_order_id c id =
    query c (λ d. ok (order_by earlier (select_where (of_order id) d.order_items)))

-- `COALESCE(SUM(line_total_cents), 0)` of the items of an order
unfoldable pub sum_lines : Uuid → List OrderItem → ℤ
sum_lines id [] = pos 0
sum_lines id (it ∷ its) =
    (if of_order id it then it.line_total_cents else pos 0) +ℤ sum_lines id its

-- `MIN(currency_code)`, where `smaller` is the collation's order; none is NULL, which is scanned as
-- the empty string
module _ (smaller : String → String → Bool) where
  abbrev lesser : String → Option String → String
  lesser a none = a
  lesser a (some b) = if smaller a b then a else b

  unfoldable pub min_code : Uuid → List OrderItem → Option String
  min_code id [] = none
  min_code id (it ∷ its) =
      let rest = min_code id its in
      if of_order id it then some (lesser it.currency_code rest) else rest

  unfoldable pub sum_by_order : Conn → Uuid → Run (ℤ × String)
  unfolding sum_lines min_code
  sum_by_order c id =
      query c (λ d. ok (sum_lines id d.order_items, or_empty (min_code id d.order_items)))
    where
      or_empty : Option String → String
      or_empty none = ""
      or_empty (some a) = a

unfoldable pub delete_by_order_id : Conn → Uuid → Run ℕ
delete_by_order_id c id = exec c (λ d. ok (
  count_where (of_order id) d.order_items,
  record d { order_items = delete_where (of_order id) d.order_items },
))
