-- ===== src/Orders/Cancelling.antt =====
-- `CancelOrder`.
use order_hub.Base.{
  Uuid, Time, ◌≡◌, refl, sym, ap, ◌∙◌, ◌⊎◌, inl, inr, Bool, true, false, not, ◌||◌, Option, none,
  some, List, [], ◌∷◌, arith, ◌==◌, ==_iff, Bool-cases, some_injective,
}
use mathlib.Core.Option.{map as map_option}
use order_hub.Base.Rows.{update_where, find_where}
use order_hub.Base.Store.{World, pool, query, ok, Error, guard, clock_now, ◌>>=◌, ◌>>◌}
use order_hub.Base.Post.{Post, Post-bind, Post-query, Post-exec_pool, Post-guard_then}
use order_hub.Orders.Models.{
  Order, cancelled, Bytes, Db, Context, Role, is_admin, OrderError, Run, forbidden,
  already_cancelled,
}
use order_hub.Orders.Repo.Orders
use order_hub.Orders.Repo.Orders.{has_id, with_items, status_row}
use order_hub.Orders.Service.{
  require_auth, or_not_found, cancel_order, is_cancelled, announce_cancelled, OrderCancelledEvent,
  sanitize_reason,
}
use order_hub.Orders.Access.{MaySee, require_auth_lem}

-- the reason that is given, or else the one that was there
abbrev reason_after : Option Bytes → Option Bytes → Option Bytes
reason_after none old = old
reason_after (some r) _ = some r

-- the tables with the order cancelled
abbrev pub cancelled_db : Uuid → Option Bytes → Time → Db → Db
cancelled_db id reason now d = record d {
  orders =
      update_where (λ o. o.id == id)
        (λ o. record o {
          status = cancelled;
          cancel_reason = reason_after reason o.cancel_reason;
          updated_at = now;
        })
        d.orders;
}

-- the order is there, the caller may cancel it, it was not cancelled, and now it is
pub record Cancelled (ctx : Context) (id : Uuid) (reason : Option Bytes) (now : Time) (d d' : Db)
    : Type 0 where
  pub order : Order
  pub found : find_where (has_id id) d.orders ≡ some order
  pub allowed : MaySee ctx order
  pub open_before : is_cancelled order.status ≡ false
  pub written : d' ≡ cancelled_db id reason now d

-- nothing is written, or the order is cancelled
abbrev pub KeptOrCancelled :
    Context → Uuid → Option Bytes → World Db → Error OrderError → World Db → Type 0
KeptOrCancelled ctx id reason w e v = (v.db ≡ w.db) ⊎ Cancelled ctx id reason w.clock w.db v.db

-- the event says what was cancelled, if there is a bus
abbrev pub Told : Bool → Option Bytes → Time → Option Order → List OrderCancelledEvent → Type 0
Told false reason now o evs = evs ≡ []
Told true reason now o evs =
    (x : Order) × (o ≡ some x)
    × (evs
        ≡ (record {
          order_id = x.id;
          user_id = x.user_id;
          reason = sanitize_reason reason;
          cancelled_at = now;
        })
          ∷ [])

module _ (d : Db) (now : Time) (id : Uuid) where
  -- a query of the order, in a world whose tables are `d`
  abbrev Row : Option Order → World Db → Type 0
  Row o v =
      (v.db ≡ d)
      × (v.clock ≡ now)
      × (o ≡ map_option (with_items d) (find_where (has_id id) d.orders))

  abbrev Found : Option Order → World Db → Type 0
  Found o v = (v.db ≡ d) × (v.clock ≡ now) × (o ≡ find_where (has_id id) d.orders)

  module _ (X : Error OrderError → World Db → Type 0)
      (fails : (e : Error OrderError) (u : World Db) → u.db ≡ d → X e u) where
    preload-Row :
        (o : Option Order) (v : World Db) → Found o v → Post Row X (Orders.preload pool o v)
    unfolding Orders.preload
    preload-Row none v (kept, at, e) = (kept, at, ap (map_option (with_items d)) e)
    preload-Row (some r) v (kept, at, e) =
        Post-query Row X pool (λ t. ok (some (with_items t r))) v
          (λ _. (kept, at, ap (λ t. some (with_items t r)) kept ∙ ap (map_option (with_items d)) e))
          (λ _. fails _ _ kept)

    row_lem : (v : World Db) → v.db ≡ d → v.clock ≡ now → Post Row X (Orders.get_by_id pool id v)
    unfolding Orders.get_by_id
    row_lem v kept at =
        Post-bind Found Row X (query pool (λ t. ok (find_where (has_id id) t.orders)))
          (Orders.preload pool) v
          (Post-query Found X pool (λ t. ok (find_where (has_id id) t.orders)) v
            (λ _. (kept, at, ap (λ t. find_where (has_id id) t.orders) kept)) (λ _. fails _ _ kept))
          preload-Row

pub update_orders-ok :
    (fits : Order → Bool) (set : Order → Order) (d d' : Db) (a : Unit {0})
    → Orders.update_orders fits set d ≡ ok (a, d')
    → d' ≡ record d { orders = update_where fits set d.orders }
unfolding Orders.update_orders
update_orders-ok fits set d d' a e = ground arith

module _ (ctx : Context) (id : Uuid) (reason : Option Bytes) (w : World Db) where
  abbrev X : Error OrderError → World Db → Type 0
  X = KeptOrCancelled ctx id reason w

  update_status_lem :
      (r : Order) (v : World Db)
      → v.db ≡ w.db
      → v.clock ≡ w.clock
      → find_where (has_id id) w.db.orders ≡ some r
      → MaySee ctx r
      → is_cancelled r.status ≡ false
      → Post
          (λ _ u. Cancelled ctx id reason w.clock w.db u.db × (u.clock ≡ w.clock))
          X
          (Orders.update_status pool id cancelled reason v)
  unfolding Orders.update_status
  update_status_lem r v kept at found allowed still_open =
      Post-exec_pool _ X (Orders.update_orders (has_id id) (status_row cancelled reason v.clock)) v
        (λ a d gs e. (
          record {
            order = r;
            found = found;
            allowed = allowed;
            open_before = still_open;
            written =
                update_orders-ok (has_id id) (status_row cancelled reason v.clock) v.db d a e
                ∙ (ap (cancelled_db id reason v.clock) kept
                    ∙ ap (λ t. cancelled_db id reason t w.db) at);
          },
          at,
        ))
        (λ e gs. inl kept)

  -- what `CancelOrder` returns
  abbrev pub Done : Bool → Option Order × List OrderCancelledEvent → World Db → Type 0
  Done has_bus r v =
      Cancelled ctx id reason w.clock w.db v.db
      × (r.0 ≡ map_option (with_items v.db) (find_where (has_id id) v.db.orders))
      × Told has_bus reason w.clock r.0 r.1

  announce_lem :
      (has_bus : Bool) (o : Option Order) (v : World Db)
      → Cancelled ctx id reason w.clock w.db v.db
      → v.clock ≡ w.clock
      → o ≡ map_option (with_items v.db) (find_where (has_id id) v.db.orders)
      → Post (Done has_bus) X ((clock_now >>= λ now. announce_cancelled has_bus reason now o) v)
  announce_lem false o v c at e = (c, e, refl)
  announce_lem true none v c at e = inr c
  announce_lem true (some x) v c at e = (c, e, (x, refl, rw at refl))

  -- the parts of `CancelOrder` after the update, after the second test, after the first query
  abbrev pub reread : Bool → Run (Option Order × List OrderCancelledEvent)
  reread has_bus =
      Orders.get_by_id pool id >>= λ o. clock_now >>= λ now. announce_cancelled has_bus reason now o

  abbrev pub write : Bool → Run (Option Order × List OrderCancelledEvent)
  write has_bus = Orders.update_status pool id cancelled reason >> reread has_bus

  abbrev pub check :
      Bool → Uuid → Option Role → Order → Run (Option Order × List OrderCancelledEvent)
  check has_bus user role ord =
      guard (is_admin role || ord.user_id == user) forbidden
      >> (guard (not (is_cancelled ord.status)) already_cancelled >> write has_bus)

  write_lem :
      (has_bus : Bool) (r : Order) (v : World Db)
      → v.db ≡ w.db
      → v.clock ≡ w.clock
      → find_where (has_id id) w.db.orders ≡ some r
      → MaySee ctx r
      → is_cancelled r.status ≡ false
      → Post (Done has_bus) X (write has_bus v)
  write_lem has_bus r v kept at found allowed still_open =
      Post-bind (λ _ u. Cancelled ctx id reason w.clock w.db u.db × (u.clock ≡ w.clock))
        (Done has_bus) X (Orders.update_status pool id cancelled reason) (λ _. reread has_bus) v
        (update_status_lem r v kept at found allowed still_open)
        (λ _ u (c, same).
          Post-bind (Row u.db w.clock id) (Done has_bus) X (Orders.get_by_id pool id)
            (λ o. clock_now >>= λ now. announce_cancelled has_bus reason now o) u
            (row_lem u.db w.clock id X (λ e t k. inr (rw k c)) u refl same)
            (λ o t (k, still, e). announce_lem has_bus o t (rw k c) still (rw k e)))

  guards_lem :
      (has_bus : Bool) (user : Uuid) (role : Option Role) (o : Option Order) (v : World Db)
      → ctx.user_id ≡ some user
      → ctx.role ≡ role
      → Row w.db w.clock id o v
      → Post (Done has_bus) X ((or_not_found o >>= check has_bus user role) v)
  guards_lem has_bus user role none v who as_role (kept, at, e) = inl kept
  guards_lem has_bus user role (some x) v who as_role (kept, at, e) =
      Post-guard_then (Done has_bus) X (is_admin role || x.user_id == user) forbidden
        (guard (not (is_cancelled x.status)) already_cancelled >> write has_bus) v
        (λ may.
          Post-guard_then (Done has_bus) X (not (is_cancelled x.status)) already_cancelled
            (write has_bus) v
            (λ still_open.
              let (r, there, same) = row_of (find_where (has_id id) w.db.orders) x e in
              let may_row : MaySee ctx r = rw same at (may_see x may) in
              write_lem has_bus r v kept at there may_row
                (rw same at (not_true (is_cancelled x.status) still_open)))
            (λ _. inl kept))
        (λ _. inl kept)
    where
      row_of :
          (f : Option Order) (x : Order)
          → some x ≡ map_option (with_items w.db) f
          → (r : Order) × (f ≡ some r) × (x ≡ with_items w.db r)
      row_of none x h = cc
      row_of (some r) x h = (r, refl, some_injective x _ h)

      not_true : (b : Bool) → not b ≡ true → b ≡ false
      not_true b h = ground arith

      may_see : (x : Order) → (is_admin role || x.user_id == user) ≡ true → MaySee ctx x
      may_see x may = elim (Bool-cases (is_admin role)) [
        | inl admin ↦ inl (ap is_admin as_role ∙ admin)
        | inr plain ↦ inr (who ∙ ap some (sym ((==_iff x.user_id user).0 (rw plain at may))))
      ]

  -- `CancelOrder` returns only if the order is there, the caller is its owner or an admin, and it
  -- was not cancelled yet; then that order alone is changed, to CANCELLED with the reason that is given, if one is, the
  -- result is its new row with its items, and the bus, if there is one, has been told of it. Where
  -- it fails, it has written nothing or cancelled the order all the same.
  pub cancel_order-Cancelled :
      (has_bus : Bool) → Post (Done has_bus) X (cancel_order has_bus ctx id reason w)
  unfolding cancel_order
  cancel_order-Cancelled has_bus =
      Post-bind (λ a v. (v ≡ w) × (ctx.user_id ≡ some a.0) × (ctx.role ≡ a.1)) (Done has_bus) X
        (require_auth ctx) _ w (require_auth_lem ctx w X (λ _. inl refl))
        (λ a v (same, who, role).
          Post-bind (Row w.db w.clock id) (Done has_bus) X (Orders.get_by_id pool id) _ v
            (row_lem w.db w.clock id X (λ e t k. inl k) v (ap (λ t. t.db) same)
              (ap (λ t. t.clock) same))
            (λ o u row. guards_lem has_bus a.0 a.1 o u who role row))
