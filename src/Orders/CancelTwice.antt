-- ===== src/Orders/CancelTwice.antt =====
-- An order that is cancelled a second time.
use order_hub.Base.{
  Uuid, Time, ◌≡◌, refl, sym, ap, ◌∙◌, inl, inr, Bool, true, false, Option, some, List, [], ◌∷◌,
  ◌==◌, Bool-cases, some_injective,
}
use mathlib.Core.Option.{map as map_option}
use order_hub.Base.Rows.{update_where, find_where}
use order_hub.Base.Store.{World, ok}
use order_hub.Base.Post.{Post, Post-map}
use order_hub.Orders.Models.{Order, cancelled, Bytes, Db, Context}
use order_hub.Orders.Repo.Orders.{has_id, status_row}
use order_hub.Orders.Service.{cancel_order, is_cancelled, OrderCancelledEvent}
use order_hub.Orders.Access.{Kept}
use order_hub.Orders.Cancelling.{Cancelled, KeptOrCancelled, Done, cancel_order-Cancelled}

pub find_where-update :
    (id : Uuid) (reason : Option Bytes) (now : Time) (rows : List Order)
    → find_where (has_id id) (update_where (has_id id) (status_row cancelled reason now) rows)
      ≡ map_option (status_row cancelled reason now) (find_where (has_id id) rows)
unfolding find_where update_where
find_where-update id reason now [] = refl
find_where-update id reason now (o ∷ rows) = elim (Bool-cases (o.id == id)) [
  | inl hit ↦ rw (hit, hit) refl
  | inr miss ↦ rw (miss, miss) (find_where-update id reason now rows)
]

-- an order that was cancelled is not there as one that is not
no_second :
    (ctx ctx' : Context) (id : Uuid) (reason reason' : Option Bytes) (now now' : Time)
    (d d' d'' : Db)
    → Cancelled ctx id reason now d d'
    → Cancelled ctx' id reason' now' d' d''
    → ⊥
no_second ctx ctx' id reason reason' now now' d d' d'' first second =
    clash
      (sym second.found
        ∙ ap (λ t. find_where (has_id id) t.orders) first.written
        ∙ find_where-update id reason now d.orders
        ∙ ap (map_option (status_row cancelled reason now)) first.found)
      second.open_before
  where
    clash :
        some second.order ≡ some (status_row cancelled reason now first.order)
        → is_cancelled second.order.status ≡ false
        → ⊥
    clash e h =
        let c : true ≡ false =
          sym (ap (λ (o : Order). is_cancelled o.status) (some_injective second.order _ e)) ∙ h in
        cc

-- Once `CancelOrder` has returned, no further call for the same order returns, whoever makes it, and
-- none changes the tables.
pub cancel_order-once :
    (has_bus has_bus' : Bool) (ctx ctx' : Context) (id : Uuid) (reason reason' : Option Bytes)
    (w w1 : World Db) (r : Option Order × List OrderCancelledEvent)
    → cancel_order has_bus ctx id reason w ≡ (ok r, w1)
    → Post (λ _ _. ⊥) (Kept w1.db) (cancel_order has_bus' ctx' id reason' w1)
cancel_order-once has_bus has_bus' ctx ctx' id reason reason' w w1 r e =
    Post-map (Done ctx' id reason' w1 has_bus') (λ _ _. ⊥) (KeptOrCancelled ctx' id reason' w1)
      (Kept w1.db) _ (cancel_order-Cancelled ctx' id reason' w1 has_bus')
      (λ x v done.
        no_second ctx ctx' id reason reason' w.clock w1.clock w.db w1.db v.db first done.0)
      (λ x v k. elim k [
        | inl kept ↦ kept
        | inr c ↦
            absurd (no_second ctx ctx' id reason reason' w.clock w1.clock w.db w1.db v.db first c)
      ])
  where
    outcome : Done ctx id reason w has_bus r w1
    outcome = rw e at (cancel_order-Cancelled ctx id reason w has_bus)

    first : Cancelled ctx id reason w.clock w.db w1.db
    first = outcome.0
