-- ===== src/Inventory/Ledger/Listing.antt =====
-- The rows that `ListByOrder` lists are the order's, one for each product; a round of `Release` leaves
-- the others to be found.
use order_hub.Base.{
  ◌+◌, Uuid, ◌≡◌, refl, ap, ◌∙◌, Bool, true, false, not, ◌&&◌, ◌||◌, List, [], ◌∷◌, some, arith,
  ◌==◌, if◌then◌else◌,
}
use order_hub.Base.Rows.{
  update_where, any_where, find_where, select_where, order_by, insert_by, count_where,
}
use order_hub.Inventory.Models.{Reservation, released}
use order_hub.Inventory.Repo.Reservations.{of_item, of_order, with_status, earlier}
use order_hub.Inventory.Service.Reserving.{is_reserved}
use order_hub.Inventory.Ledger.Sums.{ItemKeys}
use order_hub.Inventory.Ledger.Keys.{find-update_ne}

abbrev pub same_product : Uuid → Reservation → Bool
same_product pid x = x.product_id == pid

-- rows of the order, each the one of its product
unfoldable pub AreRows : Uuid → List Reservation → List Reservation → Type 0
AreRows oid table [] = Unit
AreRows oid table (r ∷ rows) =
    (find_where (of_item oid r.product_id) table ≡ some r)
    × ((r.order_id == oid) ≡ true)
    × (any_where (same_product r.product_id) rows ≡ false)
    × AreRows oid table rows

any_where-insert :
    (fits : Reservation → Bool) (before : Reservation → Reservation → Bool) (r : Reservation)
    (rows : List Reservation)
    → any_where fits (insert_by before r rows) ≡ (fits r || any_where fits rows)
unfolding any_where
any_where-insert fits before r [] = refl
any_where-insert fits before r (x ∷ rows) = ground (arith, any_where-insert fits before r rows)

insert-AreRows :
    (oid : Uuid) (table : List Reservation) (before : Reservation → Reservation → Bool)
    (r : Reservation) (rows : List Reservation)
    → AreRows oid table (r ∷ rows)
    → AreRows oid table (insert_by before r rows)
unfolding AreRows any_where
insert-AreRows oid table before r [] h = h
insert-AreRows oid table before r (x ∷ rows) h = ground (
  arith,
  insert-AreRows oid table before r rows,
  any_where-insert (same_product x.product_id) before r rows,
)

any_where-order :
    (fits : Reservation → Bool) (before : Reservation → Reservation → Bool)
    (rows : List Reservation)
    → any_where fits (order_by before rows) ≡ any_where fits rows
unfolding any_where order_by
any_where-order fits before [] = refl
any_where-order fits before (r ∷ rows) =
    any_where-insert fits before r (order_by before rows)
    ∙ ap (λ b. fits r || b) (any_where-order fits before rows)

pub order-AreRows :
    (oid : Uuid) (table : List Reservation) (before : Reservation → Reservation → Bool)
    (rows : List Reservation)
    → AreRows oid table rows
    → AreRows oid table (order_by before rows)
unfolding AreRows order_by
order-AreRows oid table before [] h = tt
order-AreRows oid table before (r ∷ rows) (found, of, once, rest) =
    insert-AreRows oid table before r (order_by before rows) (
      found,
      of,
      any_where-order (same_product r.product_id) before rows ∙ once,
      order-AreRows oid table before rows rest,
    )

found-any :
    (fits : Reservation → Bool) (rows : List Reservation) (x : Reservation)
    → find_where fits rows ≡ some x
    → any_where fits rows ≡ true
unfolding find_where any_where
found-any fits [] x e = cc
found-any fits (r ∷ rows) x e = ground (arith, found-any fits rows x)

any_where-select :
    (oid pid : Uuid) (rows : List Reservation)
    → any_where (same_product pid) (select_where (of_order oid) rows)
      ≡ any_where (of_item oid pid) rows
unfolding any_where select_where
any_where-select oid pid [] = refl
any_where-select oid pid (r ∷ rows) = ground (arith, any_where-select oid pid rows)

-- a row of the table that has another key hides none of the rows
cons-AreRows :
    (oid : Uuid) (r : Reservation) (table rows : List Reservation)
    → any_where (of_item r.order_id r.product_id) table ≡ false
    → AreRows oid table rows
    → AreRows oid (r ∷ table) rows
unfolding AreRows find_where
cons-AreRows oid r table [] key h = tt
cons-AreRows oid r table (x ∷ rows) key h =
    ground (arith, cons-AreRows oid r table rows key, found-any (of_item oid x.product_id) table x)

pub select-AreRows :
    (oid : Uuid) (table : List Reservation)
    → ItemKeys table
    → AreRows oid table (select_where (of_order oid) table)
unfolding AreRows ItemKeys select_where find_where
select-AreRows oid [] k = tt
select-AreRows oid (r ∷ table) k = ground (
  arith,
  cons-AreRows oid r table (select_where (of_order oid) table) k.0 (select-AreRows oid table k.1),
  any_where-select oid r.product_id table,
)

pub update-AreRows :
    (oid pid : Uuid) (table rows : List Reservation)
    → any_where (same_product pid) rows ≡ false
    → AreRows oid table rows
    → AreRows oid (update_where (of_item oid pid) (with_status released) table) rows
unfolding AreRows any_where
update-AreRows oid pid table [] ne h = tt
update-AreRows oid pid table (x ∷ rows) ne h = ground (
  arith,
  update-AreRows oid pid table rows,
  find-update_ne oid pid (with_status released) (λ _. refl) (λ _. refl) oid x.product_id table,
)

-- the order's rows that still hold stock and are not among `rows`
abbrev pub left_over : Uuid → List Reservation → Reservation → Bool
left_over oid rows x =
    of_order oid x && (is_reserved x.status && not (any_where (same_product x.product_id) rows))

pub update-left_over :
    (oid : Uuid) (r : Reservation) (rows table : List Reservation)
    → any_where (left_over oid (r ∷ rows)) table ≡ false
    → any_where
        (left_over oid rows)
        (update_where (of_item oid r.product_id) (with_status released) table)
      ≡ false
unfolding any_where update_where
update-left_over oid r rows [] h = refl
update-left_over oid r rows (x ∷ table) h = ground (arith, update-left_over oid r rows table)

abbrev unnamed : Uuid → List Reservation → Reservation → Bool
unnamed oid table x =
    of_order oid x && (is_reserved x.status && not (any_where (of_item oid x.product_id) table))

cons-unnamed :
    (oid : Uuid) (r : Reservation) (table rows : List Reservation)
    → any_where (unnamed oid table) rows ≡ false
    → any_where (unnamed oid (r ∷ table)) rows ≡ false
unfolding any_where
cons-unnamed oid r table [] h = refl
cons-unnamed oid r table (x ∷ rows) h = ground (arith, cons-unnamed oid r table rows)

none_unnamed : (oid : Uuid) (table : List Reservation) → any_where (unnamed oid table) table ≡ false
unfolding any_where
none_unnamed oid [] = refl
none_unnamed oid (r ∷ table) =
    ground (arith, cons-unnamed oid r table table (none_unnamed oid table))

named_alike :
    (oid : Uuid) (table rows : List Reservation)
    → any_where (left_over oid (order_by earlier (select_where (of_order oid) table))) rows
      ≡ any_where (unnamed oid table) rows
unfolding any_where
named_alike oid table [] = refl
named_alike oid table (x ∷ rows) = ground (
  arith,
  named_alike oid table rows,
  any_where-order (same_product x.product_id) earlier (select_where (of_order oid) table),
  any_where-select oid x.product_id table,
)

-- the listing leaves none of the order's rows out
pub listed-left_over :
    (oid : Uuid) (table : List Reservation)
    → any_where (left_over oid (order_by earlier (select_where (of_order oid) table))) table ≡ false
listed-left_over oid table = named_alike oid table table ∙ none_unnamed oid table

abbrev pub reserved_row : Reservation → Bool
reserved_row x = is_reserved x.status

abbrev pub holds_stock : Uuid → Reservation → Bool
holds_stock oid x = of_order oid x && is_reserved x.status

count-insert :
    (before : Reservation → Reservation → Bool) (r : Reservation) (rows : List Reservation)
    → count_where reserved_row (insert_by before r rows)
      ≡ (if reserved_row r then 1 else 0) + count_where reserved_row rows
unfolding count_where
count-insert before r [] = refl
count-insert before r (x ∷ rows) = ground (arith, count-insert before r rows)

count-order :
    (before : Reservation → Reservation → Bool) (rows : List Reservation)
    → count_where reserved_row (order_by before rows) ≡ count_where reserved_row rows
unfolding order_by count_where
count-order before [] = refl
count-order before (r ∷ rows) =
    count-insert before r (order_by before rows)
    ∙ ap (λ n. (if reserved_row r then 1 else 0) + n) (count-order before rows)

count-select :
    (oid : Uuid) (rows : List Reservation)
    → count_where reserved_row (select_where (of_order oid) rows)
      ≡ count_where (holds_stock oid) rows
unfolding select_where count_where
count-select oid [] = refl
count-select oid (r ∷ rows) = ground (arith, count-select oid rows)

-- the RESERVED rows of the listing are those of the order in the table
pub count-listed :
    (oid : Uuid) (table : List Reservation)
    → count_where reserved_row (order_by earlier (select_where (of_order oid) table))
      ≡ count_where (holds_stock oid) table
count-listed oid table = count-order earlier _ ∙ count-select oid table

any_where-select_all :
    (oid : Uuid) (fits : Reservation → Bool) (rows : List Reservation)
    → any_where fits (select_where (of_order oid) rows)
      ≡ any_where (λ r. of_order oid r && fits r) rows
unfolding any_where select_where
any_where-select_all oid fits [] = refl
any_where-select_all oid fits (r ∷ rows) = ground (arith, any_where-select_all oid fits rows)

-- what holds of a row of the listing, holds of a row of the order in the table
pub any_where-listed :
    (oid : Uuid) (fits : Reservation → Bool) (table : List Reservation)
    → any_where fits (order_by earlier (select_where (of_order oid) table))
      ≡ any_where (λ r. of_order oid r && fits r) table
any_where-listed oid fits table =
    any_where-order fits earlier _ ∙ any_where-select_all oid fits table
