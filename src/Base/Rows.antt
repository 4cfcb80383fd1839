-- ===== src/Base/Rows.antt =====
-- Tables as lists of rows: `UPDATE ... WHERE`, `DELETE ... WHERE`, `SELECT ... WHERE`, `count(*)`.
use order_hub.Base.{
  ℕ, zero, suc, ◌+◌, Bool, false, ◌||◌, Option, none, some, List, [], ◌∷◌, if◌then◌else◌,
}

module _ {A : Type 0} where
  -- the rows after an update of those that fit
  unfoldable pub update_where : (A → Bool) → (A → A) → List A → List A
  update_where fits set [] = []
  update_where fits set (r ∷ rows) = (if fits r then set r else r) ∷ update_where fits set rows

  unfoldable pub count_where : (A → Bool) → List A → ℕ
  count_where fits [] = 0
  count_where fits (r ∷ rows) = (if fits r then 1 else 0) + count_where fits rows

  unfoldable pub select_where : (A → Bool) → List A → List A
  select_where fits [] = []
  select_where fits (r ∷ rows) =
      let rest = select_where fits rows in if fits r then r ∷ rest else rest

  unfoldable pub delete_where : (A → Bool) → List A → List A
  delete_where fits [] = []
  delete_where fits (r ∷ rows) =
      let rest = delete_where fits rows in if fits r then rest else r ∷ rest

  unfoldable pub find_where : (A → Bool) → List A → Option A
  find_where fits [] = none
  find_where fits (r ∷ rows) = if fits r then some r else find_where fits rows

  unfoldable pub any_where : (A → Bool) → List A → Bool
  any_where fits [] = false
  any_where fits (r ∷ rows) = fits r || any_where fits rows

  abbrev pub insert_by : (A → A → Bool) → A → List A → List A
  insert_by before r [] = r ∷ []
  insert_by before r (x ∷ rows) =
      let rest = insert_by before r rows in if before r x then r ∷ x ∷ rows else x ∷ rest

  -- `ORDER BY`: a row goes in front of the first that it comes before. SQL promises no order among
  -- rows with equal keys; here the later one in the table comes first.
  unfoldable pub order_by : (A → A → Bool) → List A → List A
  order_by before [] = []
  order_by before (r ∷ rows) = insert_by before r (order_by before rows)

  abbrev pub take : ℕ → List A → List A
  take zero rows = []
  take (suc n) [] = []
  take (suc n) (r ∷ rows) = r ∷ take n rows

  abbrev pub drop : ℕ → List A → List A
  drop zero rows = rows
  drop (suc n) [] = []
  drop (suc n) (r ∷ rows) = drop n rows

  -- `First` with an order: the first row that fits
  abbrev pub first_by : (A → A → Bool) → (A → Bool) → List A → Option A
  first_by before fits rows = find_where fits (order_by before rows)
