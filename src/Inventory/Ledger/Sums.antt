-- ===== src/Inventory/Ledger/Sums.antt =====
-- Sums over the tables, and the invariant of the inventory database.
use order_hub.Base.{
  ◌<◌, Uuid, ◌≡◌, refl, Bool, false, not, ◌&&◌, List, [], ◌∷◌, arith, ◌==◌, Bool-cases, inl, inr,
  if◌then◌else◌,
}
use order_hub.Base.Int.{ℤ, pos, ◌+ℤ◌, leb_ℤ, +ℤ_assoc, +ℤ-zero, +ℤ_right_comm}
use order_hub.Base.Rows.{update_where, count_where, any_where}
use order_hub.Inventory.Models.{Inventory, Reservation, Db}
use order_hub.Inventory.Repo.Stock.{row_allowed, of_product}
use order_hub.Inventory.Repo.Reservations.{of_item}
use order_hub.Inventory.Service.Reserving.{is_reserved}

-- a column of `inventories`, added up over the rows of a product
unfoldable pub sum_stock : (Inventory → ℤ) → Uuid → List Inventory → ℤ
sum_stock column p [] = pos 0
sum_stock column p (r ∷ rows) =
    (if of_product p r then column r else pos 0) +ℤ sum_stock column p rows

abbrev pub weight : Uuid → Reservation → ℤ
weight p r = if r.product_id == p && is_reserved r.status then r.quantity else pos 0

-- the quantities of the RESERVED reservations of a product
unfoldable pub held : Uuid → List Reservation → ℤ
held p [] = pos 0
held p (r ∷ rows) = weight p r +ℤ held p rows

-- the primary key of `inventories`
unfoldable pub StockKeys : List Inventory → Type 0
StockKeys [] = Unit
StockKeys (r ∷ rows) = (any_where (of_product r.product_id) rows ≡ false) × StockKeys rows

-- the unique index of `reservations`
unfoldable pub ItemKeys : List Reservation → Type 0
ItemKeys [] = Unit
ItemKeys (r ∷ rows) = (any_where (of_item r.order_id r.product_id) rows ≡ false) × ItemKeys rows

-- the CHECK of `inventories`: no row is below zero or out of range
abbrev pub AllAllowed : List Inventory → Type 0
AllAllowed rows = any_where (λ r. not (row_allowed r)) rows ≡ false

-- the CHECK of `reservations`
abbrev pub AllPositive : List Reservation → Type 0
AllPositive rows = any_where (λ r. leb_ℤ r.quantity (pos 0)) rows ≡ false

pub record IsConsistent (d : Db) : Type 0 where
  pub stock_keys : StockKeys d.inventories
  pub item_keys : ItemKeys d.reservations
  pub allowed : AllAllowed d.inventories
  pub positive : AllPositive d.reservations
  pub ledger : (p : Uuid) → sum_stock (λ r. r.reserved) p d.inventories ≡ held p d.reservations

module _ (pid : Uuid) (cond : Inventory → Bool) (set : Inventory → Inventory) where
  abbrev fits : Inventory → Bool
  fits r = of_product pid r && cond r

  pub update-none :
      (rows : List Inventory)
      → any_where (of_product pid) rows ≡ false
      → (update_where fits set rows ≡ rows) × (count_where fits rows ≡ 0)
  unfolding update_where count_where any_where
  update-none [] h = (refl, refl)
  update-none (r ∷ rows) h = ground (arith, update-none rows)

  -- an update that fits no row changes none
  pub update-zero :
      (rows : List Inventory) → count_where fits rows ≡ 0 → update_where fits set rows ≡ rows
  unfolding update_where count_where
  update-zero [] h = refl
  update-zero (r ∷ rows) h = ground (arith, update-zero rows)

  module _ (column : Inventory → ℤ) (delta : ℤ) (p : Uuid)
      (moves : (r : Inventory) → column (set r) ≡ column r +ℤ delta)
      (keeps : (r : Inventory) → (set r).product_id ≡ r.product_id) where
    -- an update that fits a row changes that row alone
    pub sum_stock-update :
        (rows : List Inventory)
        → StockKeys rows
        → 0 < count_where fits rows
        → sum_stock column p (update_where fits set rows)
          ≡ sum_stock column p rows +ℤ (if pid == p then delta else pos 0)
    unfolding update_where count_where sum_stock StockKeys
    sum_stock-update [] k n = absurd (omega arith)
    sum_stock-update (r ∷ rows) k n = elim (Bool-cases (of_product pid r)) [
      | inl hit ↦ ground (
        arith,
        moves r,
        keeps r,
        update-none rows,
        +ℤ_right_comm (column r) delta (sum_stock column p rows),
        +ℤ-zero (pos 0 +ℤ sum_stock column p rows),
      )
      | inr miss ↦ rw (miss, sum_stock-update rows k.1 (ground arith)) (+ℤ_assoc _ _ _)
    ]
