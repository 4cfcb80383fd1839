-- ===== src/Orders/Placing.antt =====
-- `CreateOrder` as a whole.
use order_hub.Base.{Uuid, ◌≡◌, refl, inl, Bool, true, false, not, Option, none, some, List, []}
use order_hub.Base.Int.{ℤ, pos}
use order_hub.Base.Store.{
  World, Result, ok, err, Error, guard, lift, clock_now, transaction, ◌>>=◌, ◌>>◌,
}
use order_hub.Base.Post.{Post, Post-bind, Post-guard_then, Post-map, Post-transaction_pool}
use order_hub.Orders.Models.{Order, OrderItem, Db, Context, OrderError, Run, empty_items}
use order_hub.Orders.Pricing.{Prices, Pricing}
use order_hub.Orders.Service.{
  CreateOrderItem, OrderCreatedEvent, require_auth, set_order, store_order, place_order,
  price_items, create_order, announce_created, product_ids, no_items,
}
use order_hub.Orders.Access.{require_auth_lem}
use order_hub.Orders.Storing.{KeptOrOpened, Stored, store_order_lem}

-- an order that was accepted, priced and stored
pub record Placed (pricing : Pricing) (ctx : Context) (items : List CreateOrderItem) (w : World Db)
    (o : Option Order) (d : Db) : Type 0 where
  pub user : Uuid
  pub prices : Prices
  pub total : ℤ
  pub rows : List OrderItem
  pub caller : ctx.user_id ≡ some user
  pub asked : pricing (product_ids items) ≡ ok prices
  pub priced : price_items prices w.clock items (pos 0) [] ≡ ok (total, rows)
  pub stored : Stored w.db w.clock user total rows o d

module _ (has_bus : Bool) (pricing : Pricing) (ctx : Context) (items : List CreateOrderItem)
    (w : World Db) where
  abbrev Fails : Error OrderError → World Db → Type 0
  Fails e v = KeptOrOpened w.db w.clock v.db

  abbrev Returns : Option Order × List OrderCreatedEvent → World Db → Type 0
  Returns r v = Placed pricing ctx items w r.0 v.db

  place_lem :
      (user : Uuid) (prices : Prices)
      → ctx.user_id ≡ some user
      → pricing (product_ids items) ≡ ok prices
      → Post
          (λ r v. Placed pricing ctx items w r.0 v.db)
          Fails
          (transaction (place_order user w.clock prices items) w)
  unfolding place_order
  place_lem user prices caller asked =
      Post-transaction_pool (λ r d. Placed pricing ctx items w r.0 d) (KeptOrOpened w.db w.clock)
        (place_order user w.clock prices items) w (inl refl)
        (λ gs.
          priced_lem (price_items prices w.clock items (pos 0) [])
            (record w { tx = w.db; faults = gs }) refl refl refl refl)
    where
      priced_lem :
          (p : Result OrderError (ℤ × List OrderItem)) (v : World Db)
          → price_items prices w.clock items (pos 0) [] ≡ p
          → v.db ≡ w.db
          → v.tx ≡ w.db
          → v.clock ≡ w.clock
          → Post
              (λ r u. Placed pricing ctx items w r.0 u.tx × KeptOrOpened w.db w.clock u.db)
              Fails
              ((lift p >>= λ (total, rows). store_order user w.clock total rows) v)
      priced_lem (err e) v h kept same at = inl kept
      priced_lem (ok (total, rows)) v h kept same at =
          Post-map
            (λ r u.
              (Stored w.db w.clock user total rows r.0 u.tx × (r.1 ≡ set_order w.db.next_id rows))
              × KeptOrOpened w.db w.clock u.db)
            (λ r u. Placed pricing ctx items w r.0 u.tx × KeptOrOpened w.db w.clock u.db) Fails
            Fails _ (store_order_lem w.db w.clock user total rows v kept same at)
            (λ r u ((stored, _), left). (
              record {
                user = user;
                prices = prices;
                total = total;
                rows = rows;
                caller = caller;
                asked = asked;
                priced = h;
                stored = stored;
              },
              left,
            ))
            (λ e u k. k)

  announce_lem :
      (o : Option Order) (rows : List OrderItem) (v : World Db)
      → Placed pricing ctx items w o v.db
      → Post Returns Fails (announce_created has_bus o rows v)
  announce_lem o rows v p = announced has_bus o p
    where
      announced :
          (bus : Bool) (x : Option Order)
          → Placed pricing ctx items w x v.db
          → Post Returns Fails (announce_created bus x rows v)
      announced false x q = q
      announced true none q = let c = q.stored.order in cc
      announced true (some x) q = q

  -- the parts of `CreateOrder` after the tests and after `requireAuth`
  abbrev accept : Uuid → Run (Option Order × List OrderCreatedEvent)
  accept user = clock_now >>= λ now. lift (pricing (product_ids items)) >>= λ prices.
      transaction (place_order user now prices items) >>= λ (order, rows).
      announce_created has_bus order rows

  abbrev check : Uuid → Run (Option Order × List OrderCreatedEvent)
  check user = guard (not (no_items items)) empty_items >> accept user

  -- Where `CreateOrder` fails, it has written nothing or has left a PENDING order without items: the row
  -- of the order is inserted beside the transaction, whose rollback does not take it back.
  -- Where it returns, the caller was signed in, the inventory service priced the items, the items are in,
  -- and the result is the order with its items.
  pub create_order-Placed : Post Returns Fails (create_order has_bus pricing ctx items w)
  unfolding create_order
  create_order-Placed =
      Post-bind (λ a v. (v ≡ w) × (ctx.user_id ≡ some a.0) × (ctx.role ≡ a.1)) Returns Fails
        (require_auth ctx) (λ a. check a.0) w (require_auth_lem ctx w Fails (λ _. inl refl))
        (λ a v (same, who, _). rw same (
          Post-guard_then Returns Fails (not (no_items items)) empty_items (accept a.0) w
            (λ _. priced_lem a.0 who (pricing (product_ids items)) refl) (λ _. inl refl)))
    where
      priced_lem :
          (user : Uuid)
          → ctx.user_id ≡ some user
          → (p : Result OrderError Prices) → pricing (product_ids items) ≡ p
          → Post Returns Fails (
              (lift p >>= λ prices.
              transaction (place_order user w.clock prices items) >>= λ (order, rows).
              announce_created has_bus order rows)
                w)
      priced_lem user who (err e) asked = inl refl
      priced_lem user who (ok prices) asked =
          Post-bind (λ r v. Placed pricing ctx items w r.0 v.db) Returns Fails
            (transaction (place_order user w.clock prices items))
            (λ (order, rows). announce_created has_bus order rows) w
            (place_lem user prices who asked) (λ r v placed. announce_lem r.0 r.1 v placed)
