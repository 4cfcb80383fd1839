-- ===== src/Inventory/Ledger/ReleaseCall.antt =====
-- `Release` as a whole.
use order_hub.Base.{ℕ, ◌+◌, Uuid, Time, ◌≡◌, refl, ◌∙◌, Bool, false, List, [], ◌∷◌, arith}
use order_hub.Base.Rows.{any_where, count_where}
use order_hub.Base.Store.{World, tx_conn, ◌>>=◌}
use order_hub.Base.Post.{Post, Post-bind, Post-query, Post-transaction, Post-mono}
use order_hub.Inventory.Models.{Reservation, Db, released}
use order_hub.Inventory.Repo.Reservations
use order_hub.Inventory.Repo.Reservations.{of_item, of_order, with_status, earlier}
use order_hub.Inventory.Service.Reserving.{release_one, release_rows, release}
use order_hub.Inventory.Ledger.Sums.{IsConsistent}
use order_hub.Inventory.Ledger.Statements.{Kept, At}
use order_hub.Inventory.Ledger.Reserving.{total_stock}
use order_hub.Inventory.Ledger.Releasing.{
  after_release, after_release-IsConsistent, after_release-total, release_one-After,
}
use order_hub.Inventory.Ledger.Listing.{
  AreRows, left_over, select-AreRows, order-AreRows, update-AreRows, update-left_over,
  listed-left_over, reserved_row, holds_stock, count-listed,
}
use order_hub.Inventory.Ledger.Others.{held_else, held_else-update}
use order_hub.Inventory.Ledger.ReserveCall.{listed}

-- What `Release` brings about, from the tables `d`: the database is consistent, no reservation of
-- the order holds stock, no stock has been made or lost, and the other orders hold what they held.
pub record Released (oid : Uuid) (d d' : Db) : Type 0 where
  pub consistent : IsConsistent d'
  pub none_held : any_where (holds_stock oid) d'.reservations ≡ false
  pub total : (p : Uuid) → total_stock p d' ≡ total_stock p d
  pub others : (p : Uuid) → held_else oid p d'.reservations ≡ held_else oid p d.reservations

nothing_left :
    (oid : Uuid) (rows : List Reservation)
    → any_where (left_over oid []) rows ≡ false
    → any_where (holds_stock oid) rows ≡ false
unfolding any_where
nothing_left oid [] h = refl
nothing_left oid (x ∷ rows) h = ground (arith, nothing_left oid rows)

release_rows-Released :
    (base : Db) (now : Time) (oid : Uuid) (rows : List Reservation) (d : Db) (total : ℕ)
    (w : World Db)
    → At base now d w
    → IsConsistent d
    → AreRows oid d.reservations rows
    → any_where (left_over oid rows) d.reservations ≡ false
    → Post
        (λ n v. (v.db ≡ base) × (Released oid d v.tx × (n ≡ total + count_where reserved_row rows)))
        (Kept base)
        (release_rows oid rows total w)
unfolding release_rows AreRows count_where
release_rows-Released base now oid [] d total w h c rs l = (
  h.db,
  (
    rw h.tx (record {
      consistent = c;
      none_held = nothing_left oid d.reservations l;
      total = λ _. refl;
      others = λ _. refl;
    }),
    omega arith,
  ),
)
release_rows-Released base now oid (r ∷ rows) d total w h c (found, _, once, rest) l =
    Post-bind _ _ (Kept base) (release_one oid r total) (release_rows oid rows) w
      (release_one-After oid r d c found base now total w h)
      (λ n v (at, e, t).
        Post-mono
          (λ m u.
            (u.db ≡ base)
            × (Released oid (after_release oid r now d) u.tx
                × (m ≡ n + count_where reserved_row rows)))
          (λ m u.
            (u.db ≡ base)
            × (Released oid d u.tx × (m ≡ total + count_where reserved_row (r ∷ rows))))
          (Kept base) (release_rows oid rows n v)
          (release_rows-Released base now oid rows (after_release oid r now d) n v at
            (after_release-IsConsistent oid r d c found now t)
            (update-AreRows oid r.product_id d.reservations rows once rest)
            (update-left_over oid r rows d.reservations l))
          (λ m u (kept, (done, sum)). (
            kept,
            (
              record {
                consistent = done.consistent;
                none_held = done.none_held;
                total = λ p. done.total p ∙ after_release-total oid r d c found now p;
                others = λ p.
                    done.others p ∙ held_else-update oid r.product_id p released d.reservations;
              },
              omega (arith, e),
            ),
          )))

list_by_order_tx :
    (oid : Uuid) (w : World Db) (gs : List Bool)
    → Post
        (λ rows v. (rows ≡ listed oid w.db) × At w.db w.clock w.db v)
        (Kept w.db)
        (Reservations.list_by_order tx_conn oid (record w { tx = w.db; faults = gs }))
unfolding Reservations.list_by_order
list_by_order_tx oid w gs =
    Post-query (λ rows v. (rows ≡ listed oid w.db) × At w.db w.clock w.db v) (Kept w.db) tx_conn _
      (record w { tx = w.db; faults = gs })
      (λ _. (refl, record { db = refl; tx = refl; clock = refl })) (λ _. refl)

-- From consistent tables: whatever fails on the way, `Release` leaves the tables as they were or
-- returns; then the database is consistent, no reservation of the order is RESERVED, each product
-- has as much stock, available and reserved together, as before, what the other orders hold is as
-- before, and the result is the number of the order's reservations that were RESERVED.
pub release-Released :
    (oid : Uuid) (w : World Db)
    → IsConsistent w.db
    → Post
        (λ n v. Released oid w.db v.db × (n ≡ count_where (holds_stock oid) w.db.reservations))
        (Kept w.db)
        (release oid w)
unfolding release
release-Released oid w c =
    Post-transaction
      (λ n d. Released oid w.db d × (n ≡ count_where (holds_stock oid) w.db.reservations))
      (Reservations.list_by_order tx_conn oid >>= λ rows. release_rows oid rows 0) w
      (λ gs.
        Post-bind (λ rows v. (rows ≡ listed oid w.db) × At w.db w.clock w.db v) _ (Kept w.db)
          (Reservations.list_by_order tx_conn oid) (λ rows. release_rows oid rows 0)
          (record w { tx = w.db; faults = gs }) (list_by_order_tx oid w gs)
          (λ rows v (e, at). rw e (
            Post-mono
              (λ n u.
                (u.db ≡ w.db)
                × (Released oid w.db u.tx × (n ≡ 0 + count_where reserved_row (listed oid w.db))))
              (λ n u.
                (u.db ≡ w.db)
                × (Released oid w.db u.tx × (n ≡ count_where (holds_stock oid) w.db.reservations)))
              (Kept w.db) _
              (release_rows-Released w.db w.clock oid (listed oid w.db) w.db 0 v at c
                (order-AreRows oid w.db.reservations earlier _
                  (select-AreRows oid w.db.reservations c.item_keys))
                (listed-left_over oid w.db.reservations))
              (λ n u (kept, (done, sum)).
                (kept, (done, omega (arith, count-listed oid w.db.reservations)))))))
