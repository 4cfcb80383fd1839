-- ===== src/Inventory/Ledger/Keys.antt =====
-- How updates treat the keys, the CHECKs and the rows that can be found.
use order_hub.Base.{
  ◌<◌, Uuid, ◌≡◌, refl, Bool, true, false, not, ◌&&◌, List, [], ◌∷◌, arith, ◌==◌, some, Bool-cases,
  inl, inr, sym, ap, ◌∙◌,
}
use order_hub.Base.Int.{ℤ, pos, ◌+ℤ◌, ◌≤ℤ◌, +ℤ_assoc, +ℤ-zero, zero-+ℤ, +ℤ_swap_ends}
use order_hub.Base.Rows.{update_where, count_where, any_where, find_where}
use order_hub.Inventory.Models.{Inventory, Reservation}
use order_hub.Inventory.Repo.Stock.{row_allowed, of_product, can_release}
use order_hub.Inventory.Repo.Reservations.{of_item}
use order_hub.Inventory.Ledger.Sums.{sum_stock, weight, held, StockKeys, ItemKeys, AllAllowed}

module _ (fits : Inventory → Bool) (set : Inventory → Inventory)
    (keeps : (r : Inventory) → (set r).product_id ≡ r.product_id) where
  any_product-update :
      (k : Uuid) (rows : List Inventory)
      → any_where (of_product k) (update_where fits set rows) ≡ any_where (of_product k) rows
  unfolding any_where update_where
  any_product-update k [] = refl
  any_product-update k (r ∷ rows) = ground (arith, keeps r, any_product-update k rows)

  pub update-StockKeys :
      (rows : List Inventory) → StockKeys rows → StockKeys (update_where fits set rows)
  unfolding StockKeys update_where
  update-StockKeys [] k = tt
  update-StockKeys (r ∷ rows) k =
      ground (arith, keeps r, any_product-update r.product_id rows, update-StockKeys rows k.1)

pub update-AllAllowed :
    (fits : Inventory → Bool) (set : Inventory → Inventory) (rows : List Inventory)
    → AllAllowed rows
    → any_where (λ r. fits r && not (row_allowed (set r))) rows ≡ false
    → AllAllowed (update_where fits set rows)
unfolding any_where update_where
update-AllAllowed fits set [] a h = refl
update-AllAllowed fits set (r ∷ rows) a h = ground (arith, update-AllAllowed fits set rows)

pub sum_stock-absent :
    (column : Inventory → ℤ) (p : Uuid) (rows : List Inventory)
    → any_where (of_product p) rows ≡ false
    → sum_stock column p rows ≡ pos 0
unfolding any_where sum_stock
sum_stock-absent column p [] h = refl
sum_stock-absent column p (r ∷ rows) h =
    ground (arith, sum_stock-absent column p rows, +ℤ-zero (pos 0))

-- What is held back for a product can be released: the row is there, and holds as much.
pub can_release-count :
    (p : Uuid) (q : ℤ) (rows : List Inventory)
    → StockKeys rows
    → pos 1 ≤ℤ q
    → q ≤ℤ sum_stock (λ r. r.reserved) p rows
    → 0 < count_where (can_release p q) rows
unfolding StockKeys sum_stock count_where
can_release-count p q [] k h le = absurd (omega arith)
can_release-count p q (r ∷ rows) k h le = elim (Bool-cases (of_product p r)) [
  | inl hit ↦ ground (arith, sum_stock-absent (λ x. x.reserved) p rows, +ℤ-zero r.reserved)
  | inr miss ↦
      ground (arith, can_release-count p q rows k.1 h, zero-+ℤ (sum_stock (λ x. x.reserved) p rows))
]

module _ (oid pid : Uuid) (set : Reservation → Reservation)
    (keeps_order : (r : Reservation) → (set r).order_id ≡ r.order_id)
    (keeps_product : (r : Reservation) → (set r).product_id ≡ r.product_id) where
  any_item-update :
      (o k : Uuid) (rows : List Reservation)
      → any_where (of_item o k) (update_where (of_item oid pid) set rows)
        ≡ any_where (of_item o k) rows
  unfolding any_where update_where
  any_item-update o k [] = refl
  any_item-update o k (r ∷ rows) =
      ground (arith, keeps_order r, keeps_product r, any_item-update o k rows)

  pub update-ItemKeys :
      (rows : List Reservation) → ItemKeys rows → ItemKeys (update_where (of_item oid pid) set rows)
  unfolding ItemKeys update_where
  update-ItemKeys [] k = tt
  update-ItemKeys (r ∷ rows) k = ground (
    arith,
    keeps_order r,
    keeps_product r,
    any_item-update r.order_id r.product_id rows,
    update-ItemKeys rows k.1,
  )

  -- the rows of other items are found as before
  pub find-update_ne :
      (o k : Uuid) (rows : List Reservation)
      → ((o == oid) && (k == pid)) ≡ false
      → find_where (of_item o k) (update_where (of_item oid pid) set rows)
        ≡ find_where (of_item o k) rows
  unfolding find_where update_where
  find-update_ne o k [] h = refl
  find-update_ne o k (r ∷ rows) h =
      ground (arith, keeps_order r, keeps_product r, find-update_ne o k rows h)

pub update-absent :
    (oid pid : Uuid) (set : Reservation → Reservation) (rows : List Reservation)
    → any_where (of_item oid pid) rows ≡ false
    → update_where (of_item oid pid) set rows ≡ rows
unfolding any_where update_where
update-absent oid pid set [] h = refl
update-absent oid pid set (r ∷ rows) h = ground (arith, update-absent oid pid set rows)

pub of_item-ids :
    (oid pid : Uuid) (r : Reservation)
    → of_item oid pid r ≡ true
    → (r.order_id ≡ oid) × (r.product_id ≡ pid)
of_item-ids oid pid r hit = ground arith

of_item_key :
    (oid pid : Uuid) (r : Reservation) (rows : List Reservation)
    → of_item oid pid r ≡ true
    → any_where (of_item r.order_id r.product_id) rows ≡ false
    → any_where (of_item oid pid) rows ≡ false
of_item_key oid pid r rows hit k = let (eo, ep) = of_item-ids oid pid r hit in rw (← eo, ← ep) k

found_self :
    (oid pid : Uuid) (r r0 : Reservation) (rows : List Reservation)
    → of_item oid pid r ≡ true
    → find_where (of_item oid pid) (r ∷ rows) ≡ some r0
    → r0 ≡ r
unfolding find_where
found_self oid pid r r0 rows hit h = ground arith

find_later :
    (oid pid : Uuid) (r : Reservation) {r0 : Reservation} (rows : List Reservation)
    → of_item oid pid r ≡ false
    → find_where (of_item oid pid) (r ∷ rows) ≡ some r0
    → find_where (of_item oid pid) rows ≡ some r0
unfolding find_where
find_later oid pid r rows miss h = rw miss at h

cong_shift : (w a b c d : ℤ) → a +ℤ b ≡ c +ℤ d → w +ℤ a +ℤ b ≡ w +ℤ c +ℤ d
cong_shift w a b c d h = sym (+ℤ_assoc w a b) ∙ ap (λ x. w +ℤ x) h ∙ +ℤ_assoc w c d

-- the sum of the held quantities changes by the one row that is updated
pub held-update :
    (oid pid : Uuid) (set : Reservation → Reservation) (p : Uuid) (r0 : Reservation)
    (rows : List Reservation)
    → ItemKeys rows
    → find_where (of_item oid pid) rows ≡ some r0
    → held p (update_where (of_item oid pid) set rows) +ℤ weight p r0
      ≡ held p rows +ℤ weight p (set r0)
unfolding ItemKeys find_where held update_where
held-update oid pid set p r0 [] k h = cc
held-update oid pid set p r0 (r ∷ rows) k h = elim (Bool-cases (of_item oid pid r)) [
  | inl hit ↦
      rw
        (
          hit,
          update-absent oid pid set rows (of_item_key oid pid r rows hit k.0),
          found_self oid pid r r0 rows hit h,
        )
        (+ℤ_swap_ends _ _ _)
  | inr miss ↦ rw miss (
      cong_shift _ _ _ _ _
        (held-update oid pid set p r0 rows k.1 (find_later oid pid r rows miss h)))
]
