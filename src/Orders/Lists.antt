-- ===== src/Orders/Lists.antt =====
-- What `ListOrders` shows.
use order_hub.Base.{
  ℕ, zero, suc, ◌≤◌, Uuid, ◌≡◌, refl, sym, ap, ◌∙◌, inl, inr, Bool, true, false, some, List, [],
  ◌∷◌, arith, ◌==◌, ==_iff, Bool-cases, length, some_injective,
}
use order_hub.Base.Int.{ℤ, pos_part}
use order_hub.Base.Rows.{select_where, order_by, insert_by, take, drop, count_where}
use order_hub.Base.Store.{World, pool, query, ok, pure, ◌>>=◌}
use order_hub.Base.Post.{Post, Post-bind, Post-query, Post-mono}
use order_hub.Orders.Models.{Order, Db, Context, is_admin}
use order_hub.Orders.Repo.Orders
use order_hub.Orders.Repo.Orders.{
  OrderListFilter, matches, page_of, page_limit, fill_items, with_items,
}
use order_hub.Orders.Service.{ListFilter, require_auth, list_orders, own_filter}
use order_hub.Orders.Access.{Kept, MaySee, require_auth_lem}

abbrev pub All : {A : Type 0} → (A → Type 0) → List A → Type 0
All P [] = Unit
All P (x ∷ xs) = P x × All P xs

module _ {A : Type 0} (P : A → Type 0) where
  All-select :
      (fits : A → Bool) (rows : List A)
      → ((a : A) → fits a ≡ true → P a)
      → All P (select_where fits rows)
  unfolding select_where
  All-select fits [] h = tt
  All-select fits (r ∷ rows) h = elim (Bool-cases (fits r)) [
    | inl hit ↦ rw hit (h r hit, All-select fits rows h)
    | inr miss ↦ rw miss (All-select fits rows h)
  ]

  All-insert :
      (before : A → A → Bool) (r : A) (rows : List A)
      → P r
      → All P rows
      → All P (insert_by before r rows)
  All-insert before r [] h k = (h, tt)
  All-insert before r (x ∷ rows) h k = elim (Bool-cases (before r x)) [
    | inl hit ↦ rw hit (h, k)
    | inr miss ↦ rw miss (k.0, All-insert before r rows h k.1)
  ]

  All-order : (before : A → A → Bool) (rows : List A) → All P rows → All P (order_by before rows)
  unfolding order_by
  All-order before [] h = tt
  All-order before (r ∷ rows) h =
      All-insert before r (order_by before rows) h.0 (All-order before rows h.1)

  All-drop : (n : ℕ) (rows : List A) → All P rows → All P (drop n rows)
  All-drop zero rows h = h
  All-drop (suc n) [] h = tt
  All-drop (suc n) (r ∷ rows) h = All-drop n rows h.1

  All-take : (n : ℕ) (rows : List A) → All P rows → All P (take n rows)
  All-take zero rows h = tt
  All-take (suc n) [] h = tt
  All-take (suc n) (r ∷ rows) h = (h.0, All-take n rows h.1)

length-take : {A : Type 0} (n : ℕ) (rows : List A) → length (take n rows) ≤ n
length-take zero rows = omega arith
length-take (suc n) [] = omega arith
length-take (suc n) (r ∷ rows) = let ih = length-take n rows in omega arith

length-fill : (d : Db) (rows : List Order) → length (fill_items d rows) ≡ length rows
length-fill d [] = refl
length-fill d (o ∷ os) = ap suc (length-fill d os)

All-fill :
    (ctx : Context) (d : Db) (rows : List Order)
    → All (MaySee ctx) rows
    → All (MaySee ctx) (fill_items d rows)
All-fill ctx d [] h = tt
All-fill ctx d (o ∷ os) h = (h.0, All-fill ctx d os h.1)

matches-MaySee :
    (ctx : Context) (user : Uuid) (f : ListFilter) (o : Order)
    → ctx.user_id ≡ some user
    → matches (own_filter user ctx.role f) o ≡ true
    → MaySee ctx o
matches-MaySee ctx user f o who h = elim (Bool-cases (is_admin ctx.role)) [
  | inl admin ↦ inl admin
  | inr plain ↦ inr (who ∙ ap some (sym (own plain)))
]
  where
    own : is_admin ctx.role ≡ false → o.user_id ≡ user
    own plain = let k : (o.user_id == user) ≡ true = ground arith in (==_iff o.user_id user).0 k

pub page-All :
    (ctx : Context) (user : Uuid) (f : ListFilter) (d : Db)
    → ctx.user_id ≡ some user
    → All (MaySee ctx) (page_of (own_filter user ctx.role f) d.orders)
page-All ctx user f d who =
    let g : OrderListFilter = own_filter user ctx.role f in
    All-take (MaySee ctx) (pos_part (page_limit g.limit)) _ (
      All-drop (MaySee ctx) _ _ (
        All-order (MaySee ctx) _ _ (
          All-select (MaySee ctx) (matches g) d.orders (λ o h. matches-MaySee ctx user f o who h))))

-- what the repository's `List` returns
abbrev Listed : OrderListFilter → World Db → List Order × ℕ → World Db → Type 0
Listed g w r v =
    (v.db ≡ w.db)
    × (r.0 ≡ fill_items w.db (page_of g w.db.orders))
    × (r.1 ≡ count_where (matches g) w.db.orders)

preload_all_lem :
    (d : Db) (rows : List Order) (v : World Db)
    → v.db ≡ d
    → Post (λ os u. (u.db ≡ d) × (os ≡ fill_items d rows)) (Kept d) (Orders.preload_all pool rows v)
unfolding Orders.preload_all
preload_all_lem d [] v kept = (kept, refl)
preload_all_lem d (o ∷ os) v kept =
    Post-query (λ qs u. (u.db ≡ d) × (qs ≡ fill_items d (o ∷ os))) (Kept d) pool
      (λ e. ok (fill_items e (o ∷ os))) v (λ _. (kept, ap (λ e. fill_items e (o ∷ os)) kept))
      (λ _. kept)

list_lem :
    (g : OrderListFilter) (w : World Db) → Post (Listed g w) (Kept w.db) (Orders.list pool g w)
unfolding Orders.list
list_lem g w =
    Post-bind (λ n v. (v.db ≡ w.db) × (n ≡ count_where (matches g) w.db.orders)) (Listed g w)
      (Kept w.db) (query pool (λ d. ok (count_where (matches g) d.orders)))
      (λ n. query pool (λ d. ok (page_of g d.orders)) >>= λ page.
        Orders.preload_all pool page >>= λ os. pure (os, n))
      w
      (Post-query (λ n v. (v.db ≡ w.db) × (n ≡ count_where (matches g) w.db.orders)) (Kept w.db)
        pool _ w (λ _. (refl, refl)) (λ _. refl))
      (λ n v (kept, e).
        Post-bind (λ rows u. (u.db ≡ w.db) × (rows ≡ page_of g w.db.orders)) (Listed g w)
          (Kept w.db) (query pool (λ d. ok (page_of g d.orders)))
          (λ page. Orders.preload_all pool page >>= λ os. pure (os, n)) v
          (Post-query (λ rows u. (u.db ≡ w.db) × (rows ≡ page_of g w.db.orders)) (Kept w.db) pool _
            v (λ _. (kept, ap (λ d. page_of g d.orders) kept)) (λ _. kept))
          (λ rows u (still, at).
            Post-bind (λ os t. (t.db ≡ w.db) × (os ≡ fill_items w.db rows)) (Listed g w) (Kept w.db)
              (Orders.preload_all pool rows) (λ os. pure (os, n)) u
              (preload_all_lem w.db rows u still)
              (λ os t (last, full). (last, full ∙ ap (fill_items w.db) at, e))))

page_short :
    (g : OrderListFilter) (rows : List Order)
    → length (page_of g rows) ≤ pos_part (page_limit g.limit)
page_short g rows = length-take _ _

le_right : (a b c : ℕ) → b ≡ c → a ≤ b → a ≤ c
le_right a b c e h = omega arith

page_limit_twice :
    (limit : ℤ) → pos_part (page_limit (page_limit limit)) ≡ pos_part (page_limit limit)
page_limit_twice limit = ground arith

-- `ListOrders` changes nothing, shows a caller who is no admin nothing but their own orders, shows no
-- more of them than the limit (20 if none is set), and counts all that the filter lets through.
pub list_orders-MaySee :
    (ctx : Context) (f : ListFilter) (w : World Db)
    → Post
        (λ (page, total) v.
          (v.db ≡ w.db)
          × All (MaySee ctx) page
          × (length page ≤ pos_part (page_limit f.limit))
          × ((user : Uuid)
              → ctx.user_id ≡ some user
              → total ≡ count_where (matches (own_filter user ctx.role f)) w.db.orders))
        (Kept w.db)
        (list_orders ctx f w)
unfolding list_orders
list_orders-MaySee ctx f w =
    Post-bind (λ a v. (v ≡ w) × (ctx.user_id ≡ some a.0) × (ctx.role ≡ a.1)) _ (Kept w.db)
      (require_auth ctx) (λ a. Orders.list pool (own_filter a.0 a.1 f)) w
      (require_auth_lem ctx w (Kept w.db) (λ _. refl))
      (λ a v (same, who, role).
        rw (same, ← role)
          (let g : OrderListFilter = own_filter a.0 ctx.role f in
            Post-mono (Listed g w) _ (Kept w.db) _ (list_lem g w)
              (λ r u k. listed ctx f w a.0 who r u k)))
  where
    listed :
        (ctx : Context) (f : ListFilter) (w : World Db) (user : Uuid)
        → ctx.user_id ≡ some user
        → (r : List Order × ℕ) (v : World Db) → Listed (own_filter user ctx.role f) w r v
        → (v.db ≡ w.db)
          × All (MaySee ctx) r.0
          × (length r.0 ≤ pos_part (page_limit f.limit))
          × ((u : Uuid)
              → ctx.user_id ≡ some u
              → r.1 ≡ count_where (matches (own_filter u ctx.role f)) w.db.orders)
    listed ctx f w user who r v (kept, rows, n) =
        let page : List Order = page_of (own_filter user ctx.role f) w.db.orders in
        (
          kept,
          rw rows (All-fill ctx w.db page (page-All ctx user f w.db who)),
          rw (ap length rows ∙ length-fill w.db page) (
              le_right _ _ _ (page_limit_twice f.limit)
                (page_short (own_filter user ctx.role f) w.db.orders)),
          λ u e. rw (some_injective u user (sym e ∙ who)) n,
        )
