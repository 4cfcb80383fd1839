-- ===== src/Inventory/Ledger/Releasing.antt =====
-- A round of the loop of `Release`, for a row of the table: the stock comes back, the database stays
-- consistent, and no stock is made or lost.
use order_hub.Base.{
  ℕ, ◌+◌, ◌<◌, Uuid, Time, ◌≡◌, refl, sym, ap, ◌∙◌, Bool, true, false, not, ◌&&◌, List, [], ◌∷◌,
  some, arith, ltb, ◌==◌, if◌then◌else◌, Bool-cases, inl, inr,
}
use order_hub.Base.Int.{ℤ, pos, ◌+ℤ◌, ◌-ℤ◌, ◌≤ℤ◌, leb_ℤ, int_laws, +ℤ-zero}
use order_hub.Base.Rows.{update_where, count_where, any_where, find_where}
use order_hub.Base.Store.{World, tx_conn, pure, ◌>>◌}
use order_hub.Base.Post.{Post, Post-bind}
use order_hub.Inventory.Models.{Inventory, Reservation, Db, ReservationStatus, released}
use order_hub.Inventory.Repo.Stock
use order_hub.Inventory.Repo.Stock.{can_release, release_row, row_allowed}
use order_hub.Inventory.Repo.Reservations
use order_hub.Inventory.Repo.Reservations.{of_item, with_status}
use order_hub.Inventory.Service.Reserving.{is_reserved, count_if, give_back, release_one}
use order_hub.Inventory.Ledger.Sums.{
  sum_stock, weight, held, AllPositive, IsConsistent, sum_stock-update,
}
use order_hub.Inventory.Ledger.Keys.{
  update-StockKeys, update-AllAllowed, update-ItemKeys, held-update, can_release-count,
}
use order_hub.Inventory.Ledger.Statements.{Kept, At, StockWritten, marked, mark_lem, release_lem}
use order_hub.Inventory.Ledger.Reserving.{total_stock}

-- the stock after the row's quantity has come back
abbrev pub given_back : Reservation → Time → Db → List Inventory
given_back r now d =
    if is_reserved r.status
    then update_where (can_release r.product_id r.quantity) (release_row r.quantity now)
        d.inventories
    else d.inventories

abbrev pub after_release : Uuid → Reservation → Time → Db → Db
after_release oid r now d =
    marked released oid r.product_id (record d { inventories = given_back r now d })

-- the row is the order's row of its product
abbrev pub IsRowOf : Uuid → Db → Reservation → Type 0
IsRowOf oid d r = find_where (of_item oid r.product_id) d.reservations ≡ some r

found_positive :
    (fits : Reservation → Bool) (rows : List Reservation) (r : Reservation)
    → AllPositive rows
    → find_where fits rows ≡ some r
    → pos 1 ≤ℤ r.quantity
unfolding any_where find_where
found_positive fits [] r a h = cc
found_positive fits (x ∷ rows) r a h = ground (arith, found_positive fits rows r)

rest_positive :
    (x : Reservation) (rows : List Reservation) → AllPositive (x ∷ rows) → AllPositive rows
unfolding any_where
rest_positive x rows a = ground arith

weight_nonneg :
    (p : Uuid) (x : Reservation) (rows : List Reservation)
    → AllPositive (x ∷ rows)
    → pos 0 ≤ℤ weight p x
unfolding any_where
weight_nonneg p x rows a = ground arith

found_weight :
    (oid p : Uuid) (x r : Reservation)
    → of_item oid p x ≡ true
    → some x ≡ some r
    → is_reserved r.status ≡ true
    → r.quantity ≡ weight p x
found_weight oid p x r hit e s = ground arith

held_nonneg : (p : Uuid) (rows : List Reservation) → AllPositive rows → pos 0 ≤ℤ held p rows
unfolding any_where held
held_nonneg p [] a = omega arith
held_nonneg p (x ∷ rows) a =
    omega (int_laws, weight_nonneg p x rows a, held_nonneg p rows (rest_positive x rows a))

held-ge :
    (oid p : Uuid) (rows : List Reservation) (r : Reservation)
    → AllPositive rows
    → find_where (of_item oid p) rows ≡ some r
    → is_reserved r.status ≡ true
    → r.quantity ≤ℤ held p rows
unfolding any_where find_where held
held-ge oid p [] r a h s = cc
held-ge oid p (x ∷ rows) r a h s = elim (Bool-cases (of_item oid p x)) [
  | inl hit ↦
      rw (found_weight oid p x r hit (rw hit at h) s)
        (omega (int_laws, held_nonneg p rows (rest_positive x rows a)))
  | inr miss ↦ omega (
    int_laws,
    weight_nonneg p x rows a,
    held-ge oid p rows r (rest_positive x rows a) (rw miss at h) s,
  )
]

positive-update :
    (fits : Reservation → Bool) (s : ReservationStatus) (rows : List Reservation)
    → AllPositive rows
    → AllPositive (update_where fits (with_status s) rows)
unfolding any_where update_where
positive-update fits s [] a = refl
positive-update fits s (x ∷ rows) a = ground (arith, positive-update fits s rows)

counted : (done : Bool) (total n : ℕ) → 0 < n → done ≡ ltb 0 n → count_if done total ≡ total + 1
counted true total n h e = refl
counted false total n h e = absurd (ground arith)

take_back : (u q : ℤ) → u +ℤ q +ℤ (pos 0 -ℤ q) ≡ u
take_back u q = omega int_laws

settle_sum :
    (b : Bool) (q x y u v : ℤ)
    → x ≡ y +ℤ (if b then pos 0 -ℤ q else pos 0)
    → u +ℤ (if b && true then q else pos 0) ≡ v
    → y ≡ v
    → x ≡ u
settle_sum true q x y u v e f g = e ∙ ap (λ t. t +ℤ (pos 0 -ℤ q)) (g ∙ sym f) ∙ take_back u q
settle_sum false q x y u v e f g = e ∙ +ℤ-zero y ∙ g ∙ sym f ∙ +ℤ-zero u

keep_sum : (b : Bool) (q u v : ℤ) → u +ℤ (if b && false then q else pos 0) ≡ v → v ≡ u
keep_sum true q u v e = sym e ∙ +ℤ-zero u
keep_sum false q u v e = sym e ∙ +ℤ-zero u

module _ (oid : Uuid) (r : Reservation) (d : Db) (c : IsConsistent d)
    (found : IsRowOf oid d r) where
  release-count :
      is_reserved r.status ≡ true
      → 0 < count_where (can_release r.product_id r.quantity) d.inventories
  release-count s =
      can_release-count r.product_id r.quantity d.inventories c.stock_keys
        (found_positive (of_item oid r.product_id) d.reservations r c.positive found)
        (rw (c.ledger r.product_id) (held-ge oid r.product_id d.reservations r c.positive found s))

  -- the CHECKs let the row of the stock through
  abbrev ReleaseAllowed : Time → Type 0
  ReleaseAllowed now =
      any_where
        (λ x.
          can_release r.product_id r.quantity x && not (row_allowed (release_row r.quantity now x)))
        d.inventories
      ≡ false

  released_sum :
      (now : Time) (p : Uuid)
      → is_reserved r.status ≡ true
      → sum_stock
          (λ x. x.reserved)
          p
          (update_where
            (can_release r.product_id r.quantity)
            (release_row r.quantity now)
            d.inventories)
        ≡ sum_stock (λ x. x.reserved) p d.inventories
          +ℤ (if r.product_id == p then pos 0 -ℤ r.quantity else pos 0)
  released_sum now p s =
      sum_stock-update r.product_id (λ x. leb_ℤ r.quantity x.reserved) (release_row r.quantity now)
        (λ x. x.reserved) (pos 0 -ℤ r.quantity) p (λ _. omega int_laws) (λ _. refl) d.inventories
        c.stock_keys (release-count s)

  held_released :
      (p : Uuid)
      → held p (update_where (of_item oid r.product_id) (with_status released) d.reservations)
          +ℤ weight p r
        ≡ held p d.reservations
  held_released p =
      held-update oid r.product_id (with_status released) p r d.reservations c.item_keys found
      ∙ ground (arith, +ℤ-zero (held p d.reservations))

  after_release-ledger :
      (now : Time) (p : Uuid)
      → sum_stock (λ x. x.reserved) p (given_back r now d)
        ≡ held p (after_release oid r now d).reservations
  after_release-ledger now p = elim (Bool-cases (is_reserved r.status)) [
    | inl s ↦ rw s (
        settle_sum (r.product_id == p) r.quantity _ _ _ _ (released_sum now p s)
          (rw s at (held_released p)) (c.ledger p))
    | inr s ↦
        rw s (c.ledger p ∙ keep_sum (r.product_id == p) r.quantity _ _ (rw s at (held_released p)))
  ]

  pub after_release-IsConsistent :
      (now : Time)
      → (is_reserved r.status ≡ true → ReleaseAllowed now)
      → IsConsistent (after_release oid r now d)
  after_release-IsConsistent now t = record {
    stock_keys = elim (Bool-cases (is_reserved r.status)) [
      | inl s ↦ rw s (update-StockKeys _ _ (λ _. refl) d.inventories c.stock_keys)
      | inr s ↦ rw s c.stock_keys
    ];
    item_keys =
        update-ItemKeys oid r.product_id (with_status released) (λ _. refl) (λ _. refl)
          d.reservations c.item_keys;
    allowed = elim (Bool-cases (is_reserved r.status)) [
      | inl s ↦ rw s (update-AllAllowed _ _ d.inventories c.allowed (t s))
      | inr s ↦ rw s c.allowed
    ];
    positive = positive-update (of_item oid r.product_id) released d.reservations c.positive;
    ledger = after_release-ledger now;
  }

  pub after_release-total :
      (now : Time) (p : Uuid) → total_stock p (after_release oid r now d) ≡ total_stock p d
  after_release-total now p = elim (Bool-cases (is_reserved r.status)) [
    | inl s ↦ rw s (
        sum_stock-update r.product_id (λ x. leb_ℤ r.quantity x.reserved)
          (release_row r.quantity now) (λ x. x.available +ℤ x.reserved) (pos 0) p
          (λ _. omega int_laws) (λ _. refl) d.inventories c.stock_keys (release-count s)
        ∙ ground (arith, +ℤ-zero (total_stock p d)))
    | inr s ↦ rw s
  ]

  module _ (base : Db) (now : Time) (total : ℕ) where
    -- after `Release` of the repository the count has gone up, for the row held stock
    abbrev Given : ℕ → World Db → Type 0
    Given n v =
        At base now (record d { inventories = given_back r now d }) v
        × (n ≡ total + (if is_reserved r.status then 1 else 0))
        × (is_reserved r.status ≡ true → ReleaseAllowed now)

    give_back-Given :
        (w : World Db) → At base now d w → Post Given (Kept base) (give_back r total w)
    give_back-Given w h = elim (Bool-cases (is_reserved r.status)) [
      | inl s ↦ rw s (
          Post-bind
            (StockWritten base now d (can_release r.product_id r.quantity)
              (release_row r.quantity now))
            _ (Kept base) (Stock.release tx_conn r.product_id r.quantity)
            (λ done. pure (count_if done total)) w
            (release_lem base now d r.product_id r.quantity w h)
            (λ done v (at, e, t). rw s (at, counted done total _ (release-count s) e, λ _. t)))
      | inr s ↦ let given : Given total w = rw s (h, omega arith, λ e. cc) in rw s given
    ]

    -- A round of the loop, if no statement fails.
    pub release_one-After :
        (w : World Db)
        → At base now d w
        → Post
            (λ n v.
              At base now (after_release oid r now d) v
              × (n ≡ total + (if is_reserved r.status then 1 else 0))
              × (is_reserved r.status ≡ true → ReleaseAllowed now))
            (Kept base)
            (release_one oid r total w)
    unfolding release_one Reservations.mark_released
    release_one-After w h =
        Post-bind Given _ (Kept base) (give_back r total)
          (λ n. Reservations.mark released tx_conn oid r.product_id >> pure n) w
          (give_back-Given w h)
          (λ n v (at, e, t).
            Post-bind (λ _ u. At base now (after_release oid r now d) u) _ (Kept base)
              (Reservations.mark released tx_conn oid r.product_id) (λ _. pure n) v
              (mark_lem base now _ released oid r.product_id v at) (λ _ u k. (k, e, t)))
