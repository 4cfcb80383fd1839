-- ===== src/Orders/Access.antt =====
-- Who sees and who cancels an order.
use order_hub.Base.{
  Uuid, ◌≡◌, refl, sym, ap, ◌∙◌, ◌⊎◌, inl, inr, Bool, true, Option, none, some, List, [], ◌∷◌,
  arith, ==_iff, if◌then◌else◌, Bool-cases, Option-cases, some_injective,
}
use order_hub.Base.Rows.{find_where}
use order_hub.Base.Store.{World, pool, query, ok, ◌>>=◌, Error}
use order_hub.Base.Post.{Post, Post-bind, Post-query}
use order_hub.Orders.Models.{Order, Db, Context, is_admin, OrderError}
use order_hub.Orders.Repo.Orders
use order_hub.Orders.Repo.Orders.{has_id, has_id_and_user, with_items}
use order_hub.Orders.Service.{require_auth, get_order, or_not_found}

-- the tables are those of `base`
abbrev pub Kept : Db → Error OrderError → World Db → Type 0
Kept base e w = w.db ≡ base

-- a caller that may see the order
abbrev pub MaySee : Context → Order → Type 0
MaySee ctx o = (is_admin ctx.role ≡ true) ⊎ (ctx.user_id ≡ some o.user_id)

-- the caller as `requireAuth` reads it
pub require_auth_lem :
    (ctx : Context) (w : World Db) (X : Error OrderError → World Db → Type 0)
    → ((e : Error OrderError) → X e w)
    → Post (λ a v. (v ≡ w) × (ctx.user_id ≡ some a.0) × (ctx.role ≡ a.1)) X (require_auth ctx w)
unfolding require_auth
require_auth_lem ctx w X h = elim (Option-cases ctx.user_id) [
  | inl e ↦ rw e (h _)
  | inr (u, e) ↦ rw e (refl, refl, refl)
]

pub find_where-fits :
    {A : Type 0} (fits : A → Bool) (rows : List A) (a : A)
    → find_where fits rows ≡ some a
    → fits a ≡ true
unfolding find_where
find_where-fits fits [] a e = ground arith
find_where-fits fits (r ∷ rows) a e = ground (arith, find_where-fits fits rows a)

-- what the queries of one order return: the row with its items, or none
abbrev pub Loaded : (Order → Bool) → World Db → Option Order → World Db → Type 0
Loaded fits w o v =
    (v.db ≡ w.db)
    × ((a : Order) → o ≡ some a → (r : Order) × (a ≡ with_items w.db r) × (fits r ≡ true))

preload_lem :
    (fits : Order → Bool) (w v : World Db) (o : Option Order)
    → v.db ≡ w.db
    → o ≡ find_where fits w.db.orders
    → Post (Loaded fits w) (Kept w.db) (Orders.preload pool o v)
unfolding Orders.preload
preload_lem fits w v none kept e = (kept, λ a e1. ground arith)
preload_lem fits w v (some r) kept e =
    Post-query (Loaded fits w) (Kept w.db) pool (λ d. ok (some (with_items d r))) v
      (λ _. (
        kept,
        λ a e1. (
          r,
          sym (some_injective _ a e1) ∙ ap (λ d. with_items d r) kept,
          find_where-fits fits w.db.orders r (sym e),
        ),
      ))
      (λ _. kept)

pub get_by_id_lem :
    (id : Uuid) (w : World Db)
    → Post (Loaded (has_id id) w) (Kept w.db) (Orders.get_by_id pool id w)
unfolding Orders.get_by_id
get_by_id_lem id w =
    Post-bind (λ o v. (v.db ≡ w.db) × (o ≡ find_where (has_id id) w.db.orders))
      (Loaded (has_id id) w) (Kept w.db) (query pool (λ d. ok (find_where (has_id id) d.orders)))
      (Orders.preload pool) w
      (Post-query (λ o v. (v.db ≡ w.db) × (o ≡ find_where (has_id id) w.db.orders)) (Kept w.db) pool
        _ w (λ _. (refl, refl)) (λ _. refl))
      (λ o v (kept, e). preload_lem (has_id id) w v o kept e)

get_by_id_for_user_lem :
    (id user : Uuid) (w : World Db)
    → Post
        (Loaded (has_id_and_user id user) w)
        (Kept w.db)
        (Orders.get_by_id_for_user pool id user w)
unfolding Orders.get_by_id_for_user
get_by_id_for_user_lem id user w =
    Post-bind (λ o v. (v.db ≡ w.db) × (o ≡ find_where (has_id_and_user id user) w.db.orders))
      (Loaded (has_id_and_user id user) w) (Kept w.db)
      (query pool (λ d. ok (find_where (has_id_and_user id user) d.orders))) (Orders.preload pool) w
      (Post-query (λ o v. (v.db ≡ w.db) × (o ≡ find_where (has_id_and_user id user) w.db.orders))
        (Kept w.db) pool _ w (λ _. (refl, refl)) (λ _. refl))
      (λ o v (kept, e). preload_lem (has_id_and_user id user) w v o kept e)

own_user : (id user : Uuid) (r : Order) → has_id_and_user id user r ≡ true → r.user_id ≡ user
own_user id user r h = ground arith

-- `GetOrder` changes nothing, and the order that it returns has the identifier that was asked for,
-- the rows of its items, and a caller who is its owner or an admin.
pub get_order-MaySee :
    (ctx : Context) (id : Uuid) (w : World Db)
    → Post
        (λ o v. (v.db ≡ w.db) × (o.id ≡ id) × MaySee ctx o × (o ≡ with_items w.db o))
        (Kept w.db)
        (get_order ctx id w)
unfolding get_order
get_order-MaySee ctx id w =
    Post-bind (λ a v. (v ≡ w) × (ctx.user_id ≡ some a.0) × (ctx.role ≡ a.1)) Seen (Kept w.db)
      (require_auth ctx)
      (λ a.
        (if is_admin a.1 then Orders.get_by_id pool id else Orders.get_by_id_for_user pool id a.0)
        >>= or_not_found)
      w (require_auth_lem ctx w (Kept w.db) (λ _. refl))
      (λ a v (same, who, role). rw same (elim (Bool-cases (is_admin a.1)) [
        | inl admin ↦ rw admin (
            Post-bind (Loaded (has_id id) w) Seen (Kept w.db) (Orders.get_by_id pool id)
              or_not_found w (get_by_id_lem id w)
              (λ o u (kept, found). seen_order o u kept (λ x e.
                let (r, same_row, fit) = found x e in
                rw same_row ((==_iff r.id id).0 fit, inl (ap is_admin role ∙ admin), refl))))
        | inr plain ↦ rw plain (
            Post-bind (Loaded (has_id_and_user id a.0) w) Seen (Kept w.db)
              (Orders.get_by_id_for_user pool id a.0) or_not_found w
              (get_by_id_for_user_lem id a.0 w)
              (λ o u (kept, found). seen_order o u kept (λ x e.
                let (r, same_row, fit) = found x e in
                rw same_row
                  (ground (arith, fit), inr (who ∙ ap some (sym (own_user id a.0 r fit))), refl))))
      ]))
  where
    Seen : Order → World Db → Type 0
    Seen o v = (v.db ≡ w.db) × (o.id ≡ id) × MaySee ctx o × (o ≡ with_items w.db o)

    seen_order :
        (o : Option Order) (v : World Db)
        → v.db ≡ w.db
        → ((x : Order) → o ≡ some x → (x.id ≡ id) × MaySee ctx x × (x ≡ with_items w.db x))
        → Post Seen (Kept w.db) (or_not_found o v)
    seen_order none v kept h = kept
    seen_order (some x) v kept h = let (a, b, c) = h x refl in (kept, a, b, c)
