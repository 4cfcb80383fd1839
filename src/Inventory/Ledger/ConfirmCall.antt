-- ===== src/Inventory/Ledger/ConfirmCall.antt =====
-- `Confirm` as a whole. It hands the repository the reservation's identifier where the repository
-- looks for a product's.
use order_hub.Base.{
  ℕ, Uuid, Time, ◌≡◌, refl, ◌∙◌, Bool, false, ◌&&◌, List, [], ◌∷◌, arith, Bool-cases, inl, inr,
}
use order_hub.Base.Int.{leb_ℤ}
use order_hub.Base.Rows.{any_where}
use order_hub.Base.Store.{World, Result, tx_conn, ok, err, pure, ◌>>=◌}
use order_hub.Base.Post.{Post, Post-bind, Post-transaction, Post-mono, Post-query}
use order_hub.Inventory.Models.{Reservation, Db}
use order_hub.Inventory.Errors.{InventoryError}
use order_hub.Inventory.Repo.Stock
use order_hub.Inventory.Repo.Stock.{of_product, can_release, confirm_row}
use order_hub.Inventory.Repo.Reservations
use order_hub.Inventory.Repo.Reservations.{of_order, earlier}
use order_hub.Inventory.Service.Reserving.{
  is_reserved, count_if, confirm_one, confirm_rows, confirm, or_nothing,
}
use order_hub.Inventory.Ledger.Sums.{update-none}
use order_hub.Inventory.Ledger.Statements.{Kept, At, StockWritten, confirm_lem}
use order_hub.Inventory.Ledger.Listing.{any_where-listed}

-- some row of the stock is named by the identifier of a reservation of the order
abbrev pub id_names_stock : Uuid → Db → Reservation → Bool
id_names_stock oid d r = of_order oid r && any_where (of_product r.id) d.inventories

module _ (base : Db) (now : Time) (d : Db) where
  confirm_one-idle :
      (r : Reservation) (total : ℕ) (w : World Db)
      → At base now d w
      → any_where (of_product r.id) d.inventories ≡ false
      → Post (λ n v. At base now d v × (n ≡ total)) (Kept base) (confirm_one r total w)
  unfolding confirm_one
  confirm_one-idle r total w h none_there = elim (Bool-cases (is_reserved r.status)) [
    | inl s ↦ rw s (
        Post-bind
          (StockWritten base now d (can_release r.id r.quantity) (confirm_row r.quantity now)) _
          (Kept base) (Stock.confirm tx_conn r.id r.quantity) (λ done. pure (count_if done total)) w
          (confirm_lem base now d r.id r.quantity w h)
          (λ done v (at, e, _).
            let (same, zero_rows) =
              update-none r.id (λ x. leb_ℤ r.quantity x.reserved) (confirm_row r.quantity now)
                d.inventories none_there in
            (rw same at at, rw (e, zero_rows))))
    | inr s ↦ rw s (h, refl)
  ]

  abbrev names_stock : Reservation → Bool
  names_stock r = any_where (of_product r.id) d.inventories

  confirm_rows-idle :
      (rows : List Reservation) (total : ℕ) (w : World Db)
      → At base now d w
      → any_where names_stock rows ≡ false
      → Post
          (λ n v. (v.db ≡ base) × (v.tx ≡ d) × (n ≡ total))
          (Kept base)
          (confirm_rows rows total w)
  unfolding confirm_rows any_where
  confirm_rows-idle [] total w h none_there = (h.db, h.tx, refl)
  confirm_rows-idle (r ∷ rows) total w h none_there =
      Post-bind (λ n v. At base now d v × (n ≡ total)) _ (Kept base) (confirm_one r total)
        (confirm_rows rows) w (confirm_one-idle r total w h (ground arith))
        (λ n v (at, e). rw (← e) (confirm_rows-idle rows n v at (ground arith)))

abbrev Idle : World Db → List Reservation → World Db → Type 0
Idle w rows v =
    (any_where (λ r. any_where (of_product r.id) w.db.inventories) rows ≡ false)
    × At w.db w.clock w.db v

swallowed :
    (w : World Db) (r : Result InventoryError (List Reservation)) (v : World Db)
    → Post (Idle w) (λ _ u. At w.db w.clock w.db u) (r, v)
    → Post (Idle w) (Kept w.db) (or_nothing (λ _. (r, v)) v)
unfolding any_where
swallowed w (ok rows) v h = h
swallowed w (err e) v h = (refl, h)

-- `ListByOrder` lists the order's rows, or fails and is read as the empty list
swallowed_listing :
    (oid : Uuid) (w : World Db) (gs : List Bool)
    → any_where (id_names_stock oid w.db) w.db.reservations ≡ false
    → Post
        (Idle w)
        (Kept w.db)
        (or_nothing (Reservations.list_by_order tx_conn oid) (record w { tx = w.db; faults = gs }))
unfolding Reservations.list_by_order
swallowed_listing oid w gs h =
    let (r, v) = Reservations.list_by_order tx_conn oid (record w { tx = w.db; faults = gs }) in
    swallowed w r v (
      Post-query (Idle w) (λ _ u. At w.db w.clock w.db u) tx_conn _
        (record w { tx = w.db; faults = gs })
        (λ _. (
          any_where-listed oid (λ r. any_where (of_product r.id) w.db.inventories) w.db.reservations
              ∙ h,
          record { db = refl; tx = refl; clock = refl },
        ))
        (λ _. record { db = refl; tx = refl; clock = refl }))

-- Where no reservation of the order has the identifier of a product in stock, as with identifiers
-- that are drawn at random, `Confirm` changes nothing and reports that it has confirmed none,
-- however much the order holds; a failed statement too leaves the tables alone.
pub confirm-changes_nothing :
    (oid : Uuid) (w : World Db)
    → any_where (id_names_stock oid w.db) w.db.reservations ≡ false
    → Post (λ n v. (v.db ≡ w.db) × (n ≡ 0)) (Kept w.db) (confirm oid w)
unfolding confirm
confirm-changes_nothing oid w h =
    Post-transaction (λ n d. (d ≡ w.db) × (n ≡ 0))
      (or_nothing (Reservations.list_by_order tx_conn oid) >>= λ rows. confirm_rows rows 0) w
      (λ gs.
        Post-bind (Idle w) (λ n v. (v.db ≡ w.db) × ((v.tx ≡ w.db) × (n ≡ 0))) (Kept w.db)
          (or_nothing (Reservations.list_by_order tx_conn oid)) (λ rows. confirm_rows rows 0)
          (record w { tx = w.db; faults = gs }) (swallowed_listing oid w gs h)
          (λ rows v (none_there, at).
            Post-mono (λ n u. (u.db ≡ w.db) × (u.tx ≡ w.db) × (n ≡ 0))
              (λ n u. (u.db ≡ w.db) × ((u.tx ≡ w.db) × (n ≡ 0))) (Kept w.db) _
              (confirm_rows-idle w.db w.clock w.db rows 0 v at none_there)
              (λ n u (a, b, c). (a, (b, c)))))
