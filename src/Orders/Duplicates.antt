-- ===== src/Orders/Duplicates.antt =====
-- An order that lists a product twice.
use order_hub.Base.{
  Uuid, Time, ◌≡◌, refl, sym, ap, ◌∙◌, inl, inr, Bool, true, false, ◌&&◌, ◌||◌, List, [], ◌∷◌, ◌++◌,
  arith, ◌==◌, ==_iff, Bool-cases,
}
use order_hub.Base.Int.{ℤ, pos, ◌+ℤ◌, wrap64}
use order_hub.Base.Rows.{any_where}
use order_hub.Base.Store.{World, ok, ok_injective}
use order_hub.Base.Post.{Post, Post-map}
use order_hub.Orders.Models.{OrderItem, Db, Context}
use order_hub.Orders.Repo.Items.{create_rows, item_allowed, item_inserted}
use order_hub.Orders.Pricing.{Price, Prices, Pricing}
use order_hub.Orders.Service.{
  CreateOrderItem, price_items, line_total, order_item, set_order, create_order,
}
use order_hub.Orders.Storing.{KeptOrOpened}
use order_hub.Orders.Placing.{Placed, create_order-Placed}
use order_hub.Orders.Totals.{price_items-step}

-- some product is listed again further on
unfoldable pub lists_twice : List CreateOrderItem → Bool
lists_twice [] = false
lists_twice (it ∷ items) =
    any_where (λ (x : CreateOrderItem). x.product_id == it.product_id) items || lists_twice items

unfoldable rows_twice : List OrderItem → Bool
rows_twice [] = false
rows_twice (it ∷ its) =
    any_where (λ (x : OrderItem). x.product_id == it.product_id) its || rows_twice its

-- the rows of the items, apart from the identifier of the order
unfoldable AreRowsOf : Prices → Time → List CreateOrderItem → List OrderItem → Type 0
AreRowsOf prices now [] rows = rows ≡ []
AreRowsOf prices now (it ∷ items) rows =
    (p : Price) × (rest : List OrderItem) × (rows ≡ order_item now it p ∷ rest)
    × AreRowsOf prices now items rest

++_nil : {A : Type 0} (xs : List A) → xs ++ [] ≡ xs
++_nil [] = refl
++_nil (x ∷ xs) = ap (λ t. x ∷ t) (++_nil xs)

++_snoc : {A : Type 0} (xs : List A) (y : A) (ys : List A) → (xs ++ y ∷ []) ++ ys ≡ xs ++ y ∷ ys
++_snoc [] y ys = refl
++_snoc (x ∷ xs) y ys = ap (λ t. x ∷ t) (++_snoc xs y ys)

price_items-rows :
    (prices : Prices) (now : Time) (items : List CreateOrderItem) (t : ℤ) (rows0 : List OrderItem)
    (total : ℤ) (rows : List OrderItem)
    → price_items prices now items t rows0 ≡ ok (total, rows)
    → (its : List OrderItem) × (rows ≡ rows0 ++ its) × AreRowsOf prices now items its
unfolding price_items AreRowsOf
price_items-rows prices now [] t rows0 total rows h =
    ([], sym (ap (λ x. x.1) (ok_injective h)) ∙ sym (++_nil rows0), refl)
price_items-rows prices now (it ∷ items) t rows0 total rows h =
    let (p, _, k) = price_items-step prices now it items t rows0 total rows h in
    let (its, e, r) =
      price_items-rows prices now items (wrap64 (t +ℤ line_total it.quantity p))
        (rows0 ++ order_item now it p ∷ []) total rows k in
    (order_item now it p ∷ its, e ∙ ++_snoc rows0 (order_item now it p) its, (p, its, refl, r))

any-AreRowsOf :
    (prices : Prices) (now : Time) (pid : Uuid) (items : List CreateOrderItem)
    (rows : List OrderItem)
    → AreRowsOf prices now items rows
    → any_where (λ (x : OrderItem). x.product_id == pid) rows
      ≡ any_where (λ (x : CreateOrderItem). x.product_id == pid) items
unfolding AreRowsOf any_where
any-AreRowsOf prices now pid [] rows e = rw e refl
any-AreRowsOf prices now pid (it ∷ items) rows (p, rest, e, r) =
    rw e (ap (λ b. (it.product_id == pid) || b) (any-AreRowsOf prices now pid items rest r))

twice-AreRowsOf :
    (prices : Prices) (now : Time) (items : List CreateOrderItem) (rows : List OrderItem)
    → AreRowsOf prices now items rows
    → rows_twice rows ≡ lists_twice items
unfolding AreRowsOf rows_twice lists_twice
twice-AreRowsOf prices now [] rows e = rw e refl
twice-AreRowsOf prices now (it ∷ items) rows (p, rest, e, r) =
    rw
      (
        e,
        any-AreRowsOf prices now it.product_id items rest r,
        twice-AreRowsOf prices now items rest r,
      )
      refl

-- the item of the order is in the table
abbrev holds_item : Uuid → Uuid → OrderItem → Bool
holds_item oid pid x = x.order_id == oid && x.product_id == pid

any_where-left :
    (fits : OrderItem → Bool) (xs ys : List OrderItem)
    → any_where fits xs ≡ true
    → any_where fits (xs ++ ys) ≡ true
unfolding any_where
any_where-left fits [] ys h = absurd (ground arith)
any_where-left fits (x ∷ xs) ys h = ground (arith, any_where-left fits xs ys)

any_where-last :
    (fits : OrderItem → Bool) (xs : List OrderItem) (y : OrderItem)
    → fits y ≡ true
    → any_where fits (xs ++ y ∷ []) ≡ true
unfolding any_where
any_where-last fits [] y h = rw h refl
any_where-last fits (x ∷ xs) y h = ground (arith, any_where-last fits xs y h)

accepted :
    (it : OrderItem) (its : List OrderItem) (d d' : Db)
    → create_rows (it ∷ its) d ≡ ok (tt, d')
    → (item_allowed it d ≡ true) × (create_rows its (item_inserted it d) ≡ ok (tt, d'))
unfolding create_rows
accepted it its d d' e = elim (Bool-cases (item_allowed it d)) [
  | inl fine ↦ (fine, rw fine at e)
  | inr refused ↦ absurd (ground arith)
]

-- a product that the order has already is not among the rows of an insert that goes through
no_clash :
    (oid pid : Uuid) (rows : List OrderItem) (d d' : Db)
    → any_where (holds_item oid pid) d.order_items ≡ true
    → create_rows (set_order oid rows) d ≡ ok (tt, d')
    → any_where (λ (x : OrderItem). x.product_id == pid) rows ≡ false
unfolding any_where
no_clash oid pid [] d d' there e = refl
no_clash oid pid (r ∷ rows) d d' there e =
    let (fine, rest) = accepted (record r { order_id = oid }) (set_order oid rows) d d' e in
    let later : any_where (λ (x : OrderItem). x.product_id == pid) rows ≡ false =
      no_clash oid pid rows (item_inserted (record r { order_id = oid }) d) d'
        (any_where-left (holds_item oid pid) d.order_items _ there) rest in
    elim (Bool-cases (r.product_id == pid)) [
      | inl hit ↦ absurd (clash r hit fine)
      | inr miss ↦ rw (miss, later) refl
    ]
  where
    clash :
        (r : OrderItem)
        → (r.product_id == pid) ≡ true
        → item_allowed (record r { order_id = oid }) d ≡ true
        → ⊥
    clash r hit fine =
        let free : any_where (holds_item oid r.product_id) d.order_items ≡ false =
          ground (arith, fine) in
        let taken : any_where (holds_item oid r.product_id) d.order_items ≡ true =
          rw (← (==_iff r.product_id pid).0 hit) at there in
        ground arith

itself : (a b : Uuid) → ((a == a) && (b == b)) ≡ true
itself a b = ground arith

create_rows-once :
    (oid : Uuid) (rows : List OrderItem) (d d' : Db)
    → create_rows (set_order oid rows) d ≡ ok (tt, d')
    → rows_twice rows ≡ false
unfolding rows_twice
create_rows-once oid [] d d' e = refl
create_rows-once oid (r ∷ rows) d d' e =
    let (_, rest) = accepted (record r { order_id = oid }) (set_order oid rows) d d' e in
    let inserted : Db = item_inserted (record r { order_id = oid }) d in
    let later : any_where (λ (x : OrderItem). x.product_id == r.product_id) rows ≡ false =
      no_clash oid r.product_id rows inserted d'
        (any_where-last (holds_item oid r.product_id) d.order_items _ (itself oid r.product_id))
        rest in
    rw (later, create_rows-once oid rows inserted d' rest) refl

-- `CreateOrder` never returns an order that lists a product twice: it fails, and then it has written
-- nothing or left a PENDING order without items.
pub create_order-duplicate :
    (has_bus : Bool) (pricing : Pricing) (ctx : Context) (items : List CreateOrderItem)
    (w : World Db)
    → lists_twice items ≡ true
    → Post
        (λ _ _. ⊥)
        (λ _ v. KeptOrOpened w.db w.clock v.db)
        (create_order has_bus pricing ctx items w)
create_order-duplicate has_bus pricing ctx items w twice =
    Post-map (λ r v. Placed pricing ctx items w r.0 v.db) (λ _ _. ⊥)
      (λ _ v. KeptOrOpened w.db w.clock v.db) (λ _ v. KeptOrOpened w.db w.clock v.db) _
      (create_order-Placed has_bus pricing ctx items w)
      (λ r v p.
        let (its, e, are) =
          price_items-rows p.prices w.clock items (pos 0) [] p.total p.rows p.priced in
        let same : rows_twice p.rows ≡ lists_twice items =
          ap rows_twice e ∙ twice-AreRowsOf p.prices w.clock items its are in
        let once : rows_twice p.rows ≡ false =
          create_rows-once w.db.next_id p.rows _ p.stored.filled p.stored.items_in in
        let bad : true ≡ false = sym twice ∙ sym same ∙ once in cc)
      (λ _ _ k. k)
