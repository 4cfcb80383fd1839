-- ===== src/Orders/CancelReturns.antt =====
-- `CancelOrder` returns where no statement fails.
use order_hub.Base.{
  Uuid, Time, ◌≡◌, refl, ap, ◌∙◌, Bool, true, false, not, ◌&&◌, ◌||◌, Option, some, List, [], ◌∷◌,
  arith, ◌==◌,
}
use mathlib.Core.Option.{map as map_option}
use order_hub.Base.Rows.{update_where, any_where, find_where}
use order_hub.Base.Store.{World, Result, ok, pool, query, exec, attempt, mirror, clock_now, ◌>>=◌}
use order_hub.Orders.Models.{Order, cancelled, Bytes, Db, Context, is_admin, OrderError, Run}
use order_hub.Orders.Repo.Orders
use order_hub.Orders.Repo.Orders.{has_id, with_items, status_row, order_allowed}
use order_hub.Orders.Service.{
  require_auth, or_not_found, cancel_order, is_cancelled, announce_cancelled, OrderCancelledEvent,
}
use order_hub.Orders.CancelTwice.{find_where-update}
use order_hub.Orders.Cancelling.{cancelled_db, reread, write, check}

-- the CHECKs of `orders` hold of every row
abbrev pub AllAllowed : List Order → Type 0
AllAllowed rows = any_where (λ o. not (order_allowed o)) rows ≡ false

update-allowed :
    (id : Uuid) (reason : Option Bytes) (now : Time) (rows : List Order)
    → AllAllowed rows
    → any_where (λ o. has_id id o && not (order_allowed (status_row cancelled reason now o))) rows
      ≡ false
unfolding any_where
update-allowed id reason now [] h = refl
update-allowed id reason now (o ∷ rows) h = ground (arith, update-allowed id reason now rows)

-- a query of the order, where no statement is to fail
get_clear :
    (id : Uuid) (w : World Db) (o : Order)
    → w.faults ≡ []
    → find_where (has_id id) w.db.orders ≡ some o
    → Orders.get_by_id pool id w ≡ (ok (some (with_items w.db o)), record w { faults = [] })
unfolding Orders.get_by_id Orders.preload query attempt
get_clear id w o quiet found = rw (quiet, found) refl

update_orders-accepted :
    (fits : Order → Bool) (set : Order → Order) (d : Db)
    → any_where (λ o. fits o && not (order_allowed (set o))) d.orders ≡ false
    → Orders.update_orders fits set d
      ≡ ok (tt, record d { orders = update_where fits set d.orders })
unfolding Orders.update_orders
update_orders-accepted fits set d h = rw h refl

exec_clear :
    {A : Type 0} (f : Db → Result OrderError (A × Db)) (w : World Db) (a : A) (d : Db)
    → w.faults ≡ []
    → f w.db ≡ ok (a, d)
    → exec pool f w ≡ (ok a, record w { db = d; tx = mirror (f w.tx) w.tx; faults = [] })
unfolding exec attempt
exec_clear f w a d quiet e = rw (quiet, e) refl

update_clear :
    (id : Uuid) (reason : Option Bytes) (w : World Db)
    → w.faults ≡ []
    → AllAllowed w.db.orders
    → Orders.update_status pool id cancelled reason w ≡ (
      ok tt,
      record w {
        db = cancelled_db id reason w.clock w.db;
        tx =
            mirror
              (Orders.update_orders (has_id id) (status_row cancelled reason w.clock) w.tx)
              w.tx;
        faults = [];
      },
    )
unfolding Orders.update_status
update_clear id reason w quiet fine =
    exec_clear (Orders.update_orders (has_id id) (status_row cancelled reason w.clock)) w tt
      (cancelled_db id reason w.clock w.db) quiet
      (update_orders-accepted (has_id id) (status_row cancelled reason w.clock) w.db
        (update-allowed id reason w.clock w.db.orders fine))

find_row :
    (id : Uuid) (reason : Option Bytes) (now : Time) (d : Db) (o : Order)
    → find_where (has_id id) d.orders ≡ some o
    → find_where (has_id id) (cancelled_db id reason now d).orders
      ≡ some (status_row cancelled reason now o)
find_row id reason now d o found =
    find_where-update id reason now d.orders
    ∙ ap (map_option (status_row cancelled reason now)) found

-- after a step that is known to return, the rest is what counts
bind_step :
    {A B : Type 0} (m : Run A) (f : A → Run B) (w v : World Db) (a : A)
    → m w ≡ (ok a, v)
    → (m >>= f) w ≡ f a v
bind_step m f w v a e = ap (λ r. ((λ (_ : World Db). r) >>= f) w) e

announced :
    (has_bus : Bool) (reason : Option Bytes) (now : Time) (x : Order) (v : World Db)
    → (evs : List OrderCancelledEvent) × (announce_cancelled has_bus reason now (some x) v
        ≡ (ok (some x, evs), v))
announced false reason now x v = ([], refl)
announced true reason now x v = (_, refl)

-- Where no statement fails and every row of `orders` is within its CHECKs: a caller who is the owner of
-- the order or an admin cancels an order that is there and was not cancelled. `CancelOrder` returns, and
-- the order that it returns is CANCELLED.
pub cancel_order-Returns :
    (has_bus : Bool) (ctx : Context) (id : Uuid) (reason : Option Bytes) (w : World Db)
    (user : Uuid) (o : Order)
    → w.faults ≡ []
    → AllAllowed w.db.orders
    → ctx.user_id ≡ some user
    → find_where (has_id id) w.db.orders ≡ some o
    → (is_admin ctx.role || o.user_id == user) ≡ true
    → is_cancelled o.status ≡ false
    → (x : Order) × (evs : List OrderCancelledEvent) × (v : World Db) × (cancel_order has_bus ctx id
          reason w
        ≡ (ok (some x, evs), v))
      × (x.status ≡ cancelled)
      × (v.db ≡ cancelled_db id reason w.clock w.db)
unfolding cancel_order require_auth
cancel_order-Returns has_bus ctx id reason w user o quiet fine who found may still_open =
    let d : Db = cancelled_db id reason w.clock w.db in
    let row : Order = with_items w.db o in
    let x : Order = with_items d (status_row cancelled reason w.clock o) in
    let w1 : World Db = record w { faults = [] } in
    let w2 : World Db = record w1 {
      db = d;
      tx =
          mirror (Orders.update_orders (has_id id) (status_row cancelled reason w.clock) w.tx) w.tx;
    } in
    let (evs, last) = announced has_bus reason w.clock x w2 in
    (
      x,
      evs,
      w2,
      signed_in
          ∙ bind_step (Orders.get_by_id pool id)
              (λ y. or_not_found y >>= check ctx id reason w has_bus user ctx.role) w w1 (some row)
              (get_clear id w o quiet found)
          ∙ guarded w1
          ∙ bind_step (Orders.update_status pool id cancelled reason)
              (λ _. reread ctx id reason w has_bus) w1 w2 tt (update_clear id reason w1 refl fine)
          ∙ bind_step (Orders.get_by_id pool id)
              (λ y. clock_now >>= λ now. announce_cancelled has_bus reason now y) w2 w2 (some x)
              (get_clear id w2 (status_row cancelled reason w.clock o) refl
                (find_row id reason w.clock w.db o found))
          ∙ last,
      refl,
      refl,
    )
  where
    signed_in :
        cancel_order has_bus ctx id reason w
        ≡ (Orders.get_by_id pool id >>= λ y.
              or_not_found y >>= check ctx id reason w has_bus user ctx.role)
            w
    signed_in = rw who refl

    guarded :
        (v : World Db)
        → check ctx id reason w has_bus user ctx.role (with_items w.db o) v
          ≡ write ctx id reason w has_bus v
    guarded v = rw (may, still_open) refl
