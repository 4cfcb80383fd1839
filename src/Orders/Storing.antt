-- ===== src/Orders/Storing.antt =====
-- What the transaction of `CreateOrder` leaves, whether it is committed or rolled back.
use order_hub.Base.{
  Uuid, Time, ◌≡◌, refl, sym, ap, ◌∙◌, ◌⊎◌, inl, inr, true, Option, some, List, [], ◌∷◌, arith,
  ◌==◌, ==_iff, Bool-cases,
}
use order_hub.Base.Int.{ℤ}
use order_hub.Base.Rows.{update_where, find_where}
use order_hub.Base.Store.{World, pool, tx_conn, query, ok, Error, pure, ◌>>=◌, ◌>>◌}
use order_hub.Base.Post.{Post, Post-bind, Post-query, Post-exec_pool, Post-exec_tx}
use order_hub.Orders.Models.{Order, OrderItem, Db, OrderError, Run}
use order_hub.Orders.Repo.Orders
use order_hub.Orders.Repo.Orders.{has_id, with_items, inserted, totals_row}
use order_hub.Orders.Repo.Items
use order_hub.Orders.Repo.Items.{create_rows}
use order_hub.Orders.Service.{new_order, set_order, store_order, currency_rub}
use order_hub.Orders.Cancelling.{update_orders-ok}

create_row-ok :
    (o o' : Order) (d d' : Db)
    → Orders.create_row o d ≡ ok (o', d')
    → (o' ≡ record o { id = d.next_id }) × (d' ≡ inserted o d)
unfolding Orders.create_row
create_row-ok o o' d d' e = ground arith

create_rows-orders :
    (rows : List OrderItem) (d d' : Db) → create_rows rows d ≡ ok (tt, d') → d'.orders ≡ d.orders
unfolding create_rows
create_rows-orders [] d d' e = ground arith
create_rows-orders (it ∷ its) d d' e = elim (Bool-cases (Items.item_allowed it d)) [
  | inl yes_in ↦ create_rows-orders its (Items.item_inserted it d) d' (rw yes_in at e)
  | inr refused ↦ absurd (ground arith)
]

module _ (base : Db) (now : Time) where
  -- the tables once the row of the order is in
  abbrev pub opened : Uuid → ℤ → Db
  opened user total = inserted (new_order user total now) base

  -- nothing is written, or a PENDING order without items
  abbrev pub KeptOrOpened : Db → Type 0
  KeptOrOpened d = (d ≡ base) ⊎ ((user : Uuid) × (total : ℤ) × (d ≡ opened user total))

  -- the tables with the order, its items and its total
  abbrev pub closed : ℤ → Db → Db
  closed total d = record d {
    orders = update_where (has_id base.next_id) (totals_row total currency_rub now) d.orders;
  }

  -- The new row comes first, so it is found by its identifier.
  abbrev pub placed_row : Uuid → ℤ → Order
  placed_row user total =
      totals_row total currency_rub now (record (new_order user total now) { id = base.next_id })

  pub record Stored (user : Uuid) (total : ℤ) (rows : List OrderItem) (o : Option Order) (d : Db)
      : Type 0 where
    pub filled : Db
    pub items_in : create_rows (set_order base.next_id rows) (opened user total) ≡ ok (tt, filled)
    pub tables : d ≡ closed total filled
    pub order : o ≡ some (with_items d (placed_row user total))

  abbrev X : Error OrderError → World Db → Type 0
  X e v = KeptOrOpened v.db

  -- in the transaction, once the order is created
  record In (user : Uuid) (total : ℤ) (d : Db) (v : World Db) : Type 0 where
    db : v.db ≡ opened user total
    tx : v.tx ≡ d
    clock : v.clock ≡ now

  create_lem :
      (user : Uuid) (total : ℤ) (v : World Db)
      → v.db ≡ base
      → v.tx ≡ base
      → v.clock ≡ now
      → Post
          (λ o u.
            (o ≡ record (new_order user total now) { id = base.next_id })
            × In user total (opened user total) u)
          X
          (Orders.create pool (new_order user total now) v)
  unfolding Orders.create
  create_lem user total v kept same at =
      Post-exec_pool _ X (Orders.create_row (new_order user total now)) v
        (λ o d gs e.
          let e1 : Orders.create_row (new_order user total now) base ≡ ok (o, d) = rw kept at e in
          let (row, table) = create_row-ok (new_order user total now) o base d e1 in
          (row, record { db = table; tx = rw (same, e1) table; clock = at }))
        (λ e gs. inl kept)

  items_lem :
      (user : Uuid) (total : ℤ) (rows : List OrderItem) (v : World Db)
      → In user total (opened user total) v
      → Post
          (λ _ u.
            (d : Db) × (create_rows rows (opened user total) ≡ ok (tt, d)) × In user total d u)
          X
          (Items.bulk_create tx_conn rows v)
  unfolding Items.bulk_create create_rows
  items_lem user total [] v h = (opened user total, refl, h)
  items_lem user total (it ∷ its) v h =
      Post-exec_tx _ X (create_rows (it ∷ its)) v
        (λ _ d gs e. (d, rw h.tx at e, record { db = h.db; tx = refl; clock = h.clock }))
        (λ e gs. inr (user, total, h.db))

  totals_lem :
      (user : Uuid) (total : ℤ) (d : Db) (v : World Db)
      → In user total d v
      → Post
          (λ _ u. In user total (closed total d) u)
          X
          (Orders.update_totals tx_conn base.next_id total currency_rub v)
  unfolding Orders.update_totals
  totals_lem user total d v h =
      Post-exec_tx _ X
        (Orders.update_orders (has_id base.next_id) (totals_row total currency_rub v.clock)) v
        (λ a d' gs e. record {
          db = h.db;
          tx =
              update_orders-ok (has_id base.next_id) (totals_row total currency_rub v.clock) v.tx d'
                a e
              ∙ ap
                  (λ t. record v.tx {
                    orders =
                        update_where (has_id base.next_id) (totals_row total currency_rub t)
                          v.tx.orders;
                  })
                  h.clock
              ∙ ap (closed total) h.tx;
          clock = h.clock;
        })
        (λ e gs. inr (user, total, h.db))

  reread_lem :
      (user : Uuid) (total : ℤ) (d : Db) (v : World Db)
      → find_where (has_id base.next_id) d.orders ≡ some (placed_row user total)
      → In user total d v
      → Post
          (λ o u. (o ≡ some (with_items d (placed_row user total))) × In user total d u)
          X
          (Orders.get_by_id tx_conn base.next_id v)
  unfolding Orders.get_by_id Orders.preload
  reread_lem user total d v first h =
      Post-bind (λ o u. (o ≡ some (placed_row user total)) × In user total d u) _ X
        (query tx_conn (λ t. ok (find_where (has_id base.next_id) t.orders)))
        (Orders.preload tx_conn) v
        (Post-query _ X tx_conn _ v
          (λ _. (
            ap (λ t. find_where (has_id base.next_id) t.orders) h.tx ∙ first,
            record { db = h.db; tx = h.tx; clock = h.clock },
          ))
          (λ _. inr (user, total, h.db)))
        (λ o u (e, k). rw e (
          Post-query _ X tx_conn (λ t. ok (some (with_items t (placed_row user total)))) u
            (λ _. (
              ap (λ t. some (with_items t (placed_row user total))) k.tx,
              record { db = k.db; tx = k.tx; clock = k.clock },
            ))
            (λ _. inr (user, total, k.db))))

  first_row :
      (user : Uuid) (total : ℤ) (d : Db)
      → d.orders ≡ (opened user total).orders
      → find_where (has_id base.next_id) (closed total d).orders ≡ some (placed_row user total)
  unfolding find_where update_where
  first_row user total d e =
      let itself : (base.next_id == base.next_id) ≡ true =
        (==_iff base.next_id base.next_id).1 refl in
      rw (e, itself, itself) refl

  -- the part of the body after the new row
  abbrev fill_order : ℤ → List OrderItem → Order → Run (Option Order × List OrderItem)
  fill_order total rows order =
      Items.bulk_create tx_conn (set_order order.id rows)
      >> (Orders.update_totals tx_conn order.id total currency_rub
          >> (Orders.get_by_id tx_conn order.id >>= λ found. pure (found, set_order order.id rows)))

  pub store_order_lem :
      (user : Uuid) (total : ℤ) (rows : List OrderItem) (v : World Db)
      → v.db ≡ base
      → v.tx ≡ base
      → v.clock ≡ now
      → Post
          (λ r u.
            (Stored user total rows r.0 u.tx × (r.1 ≡ set_order base.next_id rows))
            × KeptOrOpened u.db)
          X
          (store_order user now total rows v)
  unfolding store_order
  store_order_lem user total rows v kept same at =
      Post-bind _ _ X (Orders.create pool (new_order user total now)) (fill_order total rows) v
        (create_lem user total v kept same at)
        (λ o u (e, k). rw e (
          Post-bind _ _ X (Items.bulk_create tx_conn (set_order base.next_id rows))
            (λ _.
              Orders.update_totals tx_conn base.next_id total currency_rub
              >> (Orders.get_by_id tx_conn base.next_id >>= λ found.
                  pure (found, set_order base.next_id rows)))
            u (items_lem user total (set_order base.next_id rows) u k)
            (λ _ t (d, filled, in_d).
              Post-bind _ _ X (Orders.update_totals tx_conn base.next_id total currency_rub)
                (λ _. Orders.get_by_id tx_conn base.next_id >>= λ found.
                  pure (found, set_order base.next_id rows))
                t (totals_lem user total d t in_d)
                (λ _ y in_closed.
                  Post-bind _ _ X (Orders.get_by_id tx_conn base.next_id)
                    (λ found. pure (found, set_order base.next_id rows)) y
                    (reread_lem user total (closed total d) y
                      (first_row user total d (
                        create_rows-orders (set_order base.next_id rows) (opened user total) d
                          filled))
                      in_closed)
                    (λ found z (f, last). (
                      (
                        record {
                          filled = d;
                          items_in = filled;
                          tables = last.tx;
                          order =
                              f
                              ∙ ap (λ t1. some (with_items t1 (placed_row user total)))
                                  (sym last.tx);
                        },
                        refl,
                      ),
                      inr (user, total, last.db),
                    ))))))
