-- ===== src/Orders/Totals.antt =====
-- The totals of `CreateOrder`, which the code adds up in `int64`.
use order_hub.Base.{
  ℕ, ◌+◌, ◌*◌, ◌<◌, Uuid, Time, ◌≡◌, refl, sym, ap, ◌∙◌, Bool, true, false, Option, none, some,
  List, [], ◌∷◌, ◌++◌, arith, ◌==◌, ==_iff, if◌then◌else◌, Bool-cases, Option-cases, str_eq, inl,
  inr,
}
use order_hub.Base.Int.{
  ℤ, pos, pos_part, leb_ℤ, ◌+ℤ◌, ◌*ℤ◌, wrap64, int_laws, +ℤ_assoc, +ℤ-zero, zero-+ℤ,
}
use order_hub.Base.Rows.{any_where}
use order_hub.Base.Store.{World, Result, ok, err, ok_injective}
use order_hub.Base.Post.{Post, Post-map}
use order_hub.Orders.Models.{Order, OrderItem, Db, Context, OrderError}
use order_hub.Orders.Repo.Orders.{of_order, with_items}
use order_hub.Orders.Repo.Items
use order_hub.Orders.Repo.Items.{create_rows, sum_lines}
use order_hub.Orders.Pricing.{Price, Prices, Pricing}
use order_hub.Orders.Service.{
  CreateOrderItem, line_total, order_item, price_for, price_items, set_order, create_order,
  product_ids,
}
use order_hub.Orders.Storing.{KeptOrOpened, placed_row}
use order_hub.Orders.Placing.{Placed, create_order-Placed}

-- the price of an item in whole numbers
abbrev item_worth : Option Price → ℕ → ℕ
item_worth none q = 0
item_worth (some p) q = q * pos_part p.unit_price_cents

-- what the items cost, without a bound on the numbers
unfoldable pub worth : Prices → List CreateOrderItem → ℕ
worth prices [] = 0
worth prices (it ∷ items) = item_worth (prices it.product_id) it.quantity + worth prices items

-- no price is below zero
abbrev pub NonNegative : Prices → Type 0
NonNegative prices =
    (id : Uuid) (p : Price) → prices id ≡ some p → leb_ℤ (pos 0) p.unit_price_cents ≡ true

wrap64-pos : (n : ℕ) → n < 9223372036854775808 → wrap64 (pos n) ≡ pos n
unfolding wrap64
wrap64-pos n h = ground arith

product-pos : (q u : ℕ) → pos q *ℤ pos u ≡ pos (q * u)
unfolding ◌*ℤ◌
product-pos q u = ground arith

sum-pos : (a b : ℕ) → pos a +ℤ pos b ≡ pos (a + b)
unfolding ◌+ℤ◌
sum-pos a b = ground arith

price_for-ok :
    (prices : Prices) (it : CreateOrderItem) (p : Price)
    → price_for prices it ≡ ok p
    → prices it.product_id ≡ some p
price_for-ok prices it p h = elim (Bool-cases (it.quantity == 0)) [
  | inl nothing ↦ ground arith
  | inr some_of_it ↦ elim (Option-cases (prices it.product_id)) [
    | inl unknown ↦ ground arith
    | inr (p', known) ↦ elim (Bool-cases (str_eq p'.currency_code "RUB")) [
      | inl rub ↦
          let e : Path (Result OrderError Price) (ok p') (ok p) =
            rw (some_of_it, known, rub) at h in
          known ∙ ap some (ok_injective e)
      | inr other ↦ ground arith
    ]
  ]
]

-- one line, as the code computes it
line_total-worth :
    (prices : Prices) (it : CreateOrderItem) (p : Price)
    → NonNegative prices
    → price_for prices it ≡ ok p
    → item_worth (prices it.product_id) it.quantity < 9223372036854775808
    → line_total it.quantity p ≡ pos (item_worth (prices it.product_id) it.quantity)
line_total-worth prices it p nonneg h bound =
    let known : prices it.product_id ≡ some p = price_for-ok prices it p h in
    let price : p.unit_price_cents ≡ pos (pos_part p.unit_price_cents) =
      from_leb p.unit_price_cents (nonneg it.product_id p known) in
    let small : it.quantity * pos_part p.unit_price_cents < 9223372036854775808 =
      rw known at bound in
    ap (λ u. wrap64 (pos it.quantity *ℤ u)) price
    ∙ ap wrap64 (product-pos it.quantity (pos_part p.unit_price_cents))
    ∙ wrap64-pos (it.quantity * pos_part p.unit_price_cents) small
    ∙ ap (λ o. pos (item_worth o it.quantity)) (sym known)
  where
    from_leb : (a : ℤ) → leb_ℤ (pos 0) a ≡ true → a ≡ pos (pos_part a)
    from_leb a h = ground arith

-- the line totals of a list
unfoldable lines : List OrderItem → ℤ
lines [] = pos 0
lines (it ∷ its) = it.line_total_cents +ℤ lines its

lines-snoc :
    (its : List OrderItem) (it : OrderItem)
    → lines (its ++ it ∷ []) ≡ lines its +ℤ it.line_total_cents
unfolding lines
lines-snoc [] it = omega int_laws
lines-snoc (x ∷ its) it = ap (λ t. x.line_total_cents +ℤ t) (lines-snoc its it) ∙ +ℤ_assoc _ _ _

pub price_items-step :
    (prices : Prices) (now : Time) (it : CreateOrderItem) (items : List CreateOrderItem) (t : ℤ)
    (rows0 : List OrderItem) (total : ℤ) (rows : List OrderItem)
    → price_items prices now (it ∷ items) t rows0 ≡ ok (total, rows)
    → (p : Price) × (price_for prices it ≡ ok p)
      × (price_items prices now items
            (wrap64 (t +ℤ line_total it.quantity p))
            (rows0 ++ order_item now it p ∷ [])
          ≡ ok (total, rows))
unfolding price_items
price_items-step prices now it items t rows0 total rows h = go (price_for prices it) refl
  where
    go :
        (r : Result OrderError Price)
        → price_for prices it ≡ r
        → (p : Price) × (price_for prices it ≡ ok p)
          × (price_items prices now items
                (wrap64 (t +ℤ line_total it.quantity p))
                (rows0 ++ order_item now it p ∷ [])
              ≡ ok (total, rows))
    go (err e) eq = let bad : err e ≡ ok (total, rows) = rw (price_items, eq) at h in cc
    go (ok p) eq = (p, eq, rw (price_items, eq) at h)

price_items-worth :
    (prices : Prices) (now : Time) (items : List CreateOrderItem) (t : ℕ) (rows0 : List OrderItem)
    (total : ℤ) (rows : List OrderItem)
    → NonNegative prices
    → price_items prices now items (pos t) rows0 ≡ ok (total, rows)
    → t + worth prices items < 9223372036854775808
    → lines rows0 ≡ pos t
    → (total ≡ pos (t + worth prices items)) × (lines rows ≡ total)
unfolding price_items worth
price_items-worth prices now [] t rows0 total rows nonneg h bound sum =
    let e : (pos t, rows0) ≡ (total, rows) = ok_injective h in
    (
      sym (ap (λ x. x.0) e) ∙ ap pos (omega arith),
      ap lines (sym (ap (λ x. x.1) e)) ∙ sum ∙ ap (λ x. x.0) e,
    )
price_items-worth prices now (it ∷ items) t rows0 total rows nonneg h bound sum =
    let (p, eq, k) = price_items-step prices now it items (pos t) rows0 total rows h in
    let one : ℕ = item_worth (prices it.product_id) it.quantity in
    let line : line_total it.quantity p ≡ pos one =
      line_total-worth prices it p nonneg eq (omega arith) in
    let running : wrap64 (pos t +ℤ line_total it.quantity p) ≡ pos (t + one) =
      ap (λ l. wrap64 (pos t +ℤ l)) line
      ∙ ap wrap64 (sum-pos t one)
      ∙ wrap64-pos (t + one) (omega arith) in
    let (a, b) =
      price_items-worth prices now items (t + one) (rows0 ++ order_item now it p ∷ []) total rows
        nonneg (rw running at k) (omega arith)
        (lines-snoc rows0 (order_item now it p)
          ∙ ap (λ l. l +ℤ line_total it.quantity p) sum
          ∙ ap (λ l. pos t +ℤ l) line
          ∙ sum-pos t one) in
    (a ∙ ap pos (omega arith), b)

sum_lines-++ :
    (id : Uuid) (xs ys : List OrderItem)
    → sum_lines id (xs ++ ys) ≡ sum_lines id xs +ℤ sum_lines id ys
unfolding sum_lines
sum_lines-++ id [] ys = sym (zero-+ℤ _)
sum_lines-++ id (x ∷ xs) ys =
    ap (λ t. (if of_order id x then x.line_total_cents else pos 0) +ℤ t) (sum_lines-++ id xs ys)
    ∙ +ℤ_assoc _ _ _

-- the items of a bulk insert come on top of what the order had
create_rows-sum :
    (id : Uuid) (its : List OrderItem) (d d' : Db)
    → create_rows its d ≡ ok (tt, d')
    → sum_lines id d'.order_items ≡ sum_lines id d.order_items +ℤ sum_lines id its
unfolding create_rows sum_lines
create_rows-sum id [] d d' e =
    let same : (tt, d) ≡ (tt, d') = ok_injective e in
    ap (λ t. sum_lines id t.1.order_items) (sym same) ∙ sym (+ℤ-zero _)
create_rows-sum id (it ∷ its) d d' e = elim (Bool-cases (Items.item_allowed it d)) [
  | inl accepted ↦
      create_rows-sum id its (Items.item_inserted it d) d' (rw accepted at e)
      ∙ ap (λ t. t +ℤ sum_lines id its)
          (sum_lines-++ id d.order_items ((record it { id = d.next_id }) ∷ [])
            ∙ ap (λ t. sum_lines id d.order_items +ℤ t)
                (+ℤ-zero (if of_order id it then it.line_total_cents else pos 0)))
      ∙ sym (+ℤ_assoc _ _ _)
  | inr refused ↦ absurd (ground arith)
]

sum_lines-none :
    (id : Uuid) (its : List OrderItem)
    → any_where (of_order id) its ≡ false
    → sum_lines id its ≡ pos 0
unfolding sum_lines any_where
sum_lines-none id [] h = refl
sum_lines-none id (it ∷ its) h = elim (Bool-cases (of_order id it)) [
  | inl mine ↦ absurd (ground arith)
  | inr other ↦ rw other (zero-+ℤ _ ∙ sum_lines-none id its (rw other at h))
]

sum_lines-set : (id : Uuid) (its : List OrderItem) → sum_lines id (set_order id its) ≡ lines its
unfolding sum_lines lines
sum_lines-set id [] = refl
sum_lines-set id (it ∷ its) =
    rw ((==_iff id id).1 refl) (ap (λ t. it.line_total_cents +ℤ t) (sum_lines-set id its))

-- what the caller of `CreateOrder` is told and what the tables hold
pub record Charged (pricing : Pricing) (items : List CreateOrderItem) (o : Option Order) (d : Db)
    : Type 0 where
  pub order : Order
  pub prices : Prices
  pub result : o ≡ some order
  pub asked : pricing (product_ids items) ≡ ok prices
  pub total : order.total_price_cents ≡ pos (worth prices items)
  pub lines_add_up : sum_lines order.id d.order_items ≡ order.total_price_cents

-- Where the prices that the inventory service answers are not below zero and the whole order costs less
-- than 2 ^ 63, and no item names the identifier that is drawn for the order: the order that
-- `CreateOrder` returns has as its total the sum of quantity times price, and the lines that are stored
-- for it add up to that total. Where it fails, it has written nothing or left a PENDING order without
-- items.
pub create_order-Charged :
    (has_bus : Bool) (pricing : Pricing) (ctx : Context) (items : List CreateOrderItem)
    (w : World Db)
    → ((prices : Prices)
        → pricing (product_ids items) ≡ ok prices
        → NonNegative prices × (worth prices items < 9223372036854775808))
    → any_where (of_order w.db.next_id) w.db.order_items ≡ false
    → Post
        (λ r v. Charged pricing items r.0 v.db)
        (λ _ v. KeptOrOpened w.db w.clock v.db)
        (create_order has_bus pricing ctx items w)
unfolding lines
create_order-Charged has_bus pricing ctx items w priced fresh =
    Post-map (λ r v. Placed pricing ctx items w r.0 v.db) (λ r v. Charged pricing items r.0 v.db)
      (λ _ v. KeptOrOpened w.db w.clock v.db) (λ _ v. KeptOrOpened w.db w.clock v.db) _
      (create_order-Placed has_bus pricing ctx items w)
      (λ r v p.
        let (nonneg, bound) = priced p.prices p.asked in
        let (total, sum) =
          price_items-worth p.prices w.clock items 0 [] p.total p.rows nonneg p.priced (omega arith)
            empty_sum in
        record {
          order = with_items v.db (placed_row w.db w.clock p.user p.total);
          prices = p.prices;
          result = p.stored.order;
          asked = p.asked;
          total = total ∙ ap pos (omega arith);
          lines_add_up =
              ap (λ d. sum_lines w.db.next_id d.order_items) p.stored.tables
              ∙ create_rows-sum w.db.next_id (set_order w.db.next_id p.rows) _ p.stored.filled
                  p.stored.items_in
              ∙ ap (λ t. t +ℤ sum_lines w.db.next_id (set_order w.db.next_id p.rows))
                  (sum_lines-none w.db.next_id w.db.order_items fresh)
              ∙ zero-+ℤ _
              ∙ sum_lines-set w.db.next_id p.rows
              ∙ sum;
        })
      (λ e v k. k)
  where
    empty_sum : lines [] ≡ pos 0
    empty_sum = refl
