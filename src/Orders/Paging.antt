-- ===== src/Orders/Paging.antt =====
-- The page of `ListOrders` and the offset of the next one.
use order_hub.Base.{
  ℕ, zero, suc, ◌+◌, ◌≤◌, ◌<◌, ◌≡◌, ◌≢◌, refl, sym, ap, ◌∙◌, ◌⊎◌, inl, inr, Bool, true, false, List,
  [], ◌∷◌, ◌++◌, arith, length, Bool-cases, leb,
}
use order_hub.Base.Int.{pos, negsuc, pos_part, ◌+ℤ◌, to_int32}
use order_hub.Base.Rows.{select_where, count_where, order_by, insert_by, take, drop}
use order_hub.Orders.Models.{Order}
use order_hub.Orders.Repo.Orders.{OrderListFilter, matches, newer, page_of, page_limit, page_offset}
use order_hub.Orders.Handler.{next_offset}

-- the orders that the filter lets through, in the order in which they are shown
abbrev pub shown : OrderListFilter → List Order → List Order
shown f rows = order_by newer (select_where (matches f) rows)

module _ {A : Type 0} where
  length-insert :
      (before : A → A → Bool) (r : A) (rows : List A)
      → length (insert_by before r rows) ≡ suc (length rows)
  length-insert before r [] = refl
  length-insert before r (x ∷ rows) = elim (Bool-cases (before r x)) [
    | inl first ↦ rw first refl
    | inr later ↦ rw later (ap suc (length-insert before r rows))
  ]

  length-order :
      (before : A → A → Bool) (rows : List A) → length (order_by before rows) ≡ length rows
  unfolding order_by
  length-order before [] = refl
  length-order before (r ∷ rows) =
      length-insert before r (order_by before rows) ∙ ap suc (length-order before rows)

  length-select :
      (fits : A → Bool) (rows : List A) → length (select_where fits rows) ≡ count_where fits rows
  unfolding select_where count_where
  length-select fits [] = refl
  length-select fits (r ∷ rows) = elim (Bool-cases (fits r)) [
    | inl hit ↦ rw (hit, length-select fits rows) (omega arith)
    | inr miss ↦ rw (miss, length-select fits rows) (omega arith)
  ]

  drop-all : (n : ℕ) (rows : List A) → length rows ≤ n → drop n rows ≡ []
  drop-all zero [] h = refl
  drop-all zero (r ∷ rows) h = absurd (omega arith)
  drop-all (suc n) [] h = refl
  drop-all (suc n) (r ∷ rows) h = drop-all n rows (omega arith)

  drop-some : (n : ℕ) (rows : List A) → n < length rows → drop n rows ≢ []
  drop-some n [] h e = absurd (omega arith)
  drop-some zero (r ∷ rows) h e = cc
  drop-some (suc n) (r ∷ rows) h e = drop-some n rows (omega arith) e

  take-then-drop : (m : ℕ) (rows : List A) → rows ≡ take m rows ++ drop m rows
  take-then-drop zero rows = refl
  take-then-drop (suc m) [] = refl
  take-then-drop (suc m) (r ∷ rows) = ap (λ t. r ∷ t) (take-then-drop m rows)

  drop-nil : (n : ℕ) → drop {A = A} n [] ≡ []
  drop-nil zero = refl
  drop-nil (suc n) = refl

  drop-twice : (n m : ℕ) (rows : List A) → drop m (drop n rows) ≡ drop (n + m) rows
  drop-twice zero m rows = ap (λ k. drop k rows) (omega arith)
  drop-twice (suc n) m [] = drop-nil m ∙ sym (drop-nil (suc n + m))
  drop-twice (suc n) m (r ∷ rows) = drop-twice n m rows ∙ ap (λ k. drop k (r ∷ rows)) (plus_suc n m)
    where
      plus_suc : (a b : ℕ) → suc (a + b) ≡ suc a + b
      plus_suc a b = omega arith

next_offset-last :
    (o l t : ℕ) → 0 < l → leb t (o + l) ≡ true → next_offset (pos o) (pos l) t ≡ negsuc 0
unfolding next_offset ◌+ℤ◌
next_offset-last o l t positive over = ground arith

next_offset-more :
    (o l t : ℕ)
    → 0 < l
    → o + l < 2147483648
    → leb t (o + l) ≡ false
    → next_offset (pos o) (pos l) t ≡ pos (o + l)
unfolding next_offset ◌+ℤ◌ to_int32
next_offset-more o l t positive small more = ground arith

limit_lem : (l : ℕ) → 0 < l → pos_part (page_limit (pos l)) ≡ l
limit_lem l positive = ground arith

offset_lem : (o : ℕ) → pos_part (page_offset (pos o)) ≡ o
offset_lem o = ground arith

-- For a limit above zero and offsets that fit an `int32`: what is shown from the offset on is the page
-- followed by what is shown from offset + limit on; the answer names that offset as the next one if
-- anything is left there, and is -1 if nothing is.
pub next_offset-page_of :
    (f : OrderListFilter) (rows : List Order) (offset limit : ℕ)
    → f.limit ≡ pos limit
    → f.offset ≡ pos offset
    → 0 < limit
    → offset + limit < 2147483648
    → (drop offset (shown f rows) ≡ page_of f rows ++ drop (offset + limit) (shown f rows))
      × (((next_offset f.offset f.limit (count_where (matches f) rows) ≡ negsuc 0)
            × (drop (offset + limit) (shown f rows) ≡ []))
          ⊎ ((next_offset f.offset f.limit (count_where (matches f) rows) ≡ pos (offset + limit))
              × (drop (offset + limit) (shown f rows) ≢ [])))
next_offset-page_of f rows offset limit el eo positive small =
    let total : length (shown f rows) ≡ count_where (matches f) rows =
      length-order newer (select_where (matches f) rows) ∙ length-select (matches f) rows in
    (
      rw (el, eo, limit_lem limit positive, offset_lem offset)
          (take-then-drop limit (drop offset (shown f rows))
            ∙ ap (λ t. take limit (drop offset (shown f rows)) ++ t)
                (drop-twice offset limit (shown f rows))),
      elim (Bool-cases (leb (count_where (matches f) rows) (offset + limit))) [
        | inl over ↦ inl (
          rw (el, eo) (next_offset-last offset limit (count_where (matches f) rows) positive over),
          drop-all (offset + limit) (shown f rows) (ground (arith, total)),
        )
        | inr more ↦ inr (
          rw (el, eo)
              (next_offset-more offset limit (count_where (matches f) rows) positive small more),
          drop-some (offset + limit) (shown f rows) (ground (arith, total)),
        )
      ],
    )
