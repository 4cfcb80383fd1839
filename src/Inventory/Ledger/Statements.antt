-- ===== src/Inventory/Ledger/Statements.antt =====
-- What each statement of the saga does on the open transaction, when it goes through.
use order_hub.Base.{ℕ, suc, Uuid, ◌≡◌, Bool, true, false, not, ◌&&◌, arith, ltb, ap, Time}
use order_hub.Base.Int.{ℤ}
use order_hub.Base.Rows.{update_where, count_where, any_where}
use order_hub.Base.Store.{
  World, Result, ok, err, Error, Conn, tx_conn, query, view, exec, pure, ◌>>=◌,
}
use order_hub.Base.Post.{Post, Post-bind, Post-query, Post-exec_tx}
use order_hub.Inventory.Models.{Inventory, Db, ReservationStatus}
use order_hub.Inventory.Errors.{InventoryError}
use order_hub.Inventory.Repo.Stock
use order_hub.Inventory.Repo.Stock.{
  row_allowed, can_reserve, reserve_row, can_release, release_row, confirm_row, update_stock,
}
use order_hub.Inventory.Repo.Reservations
use order_hub.Inventory.Repo.Reservations.{
  of_item, of_order, upserted, upsert_allowed, upsert_row, with_status, mark_rows,
}

-- an error comes with the committed tables as they were
abbrev pub Kept : Db → Error InventoryError → World Db → Type 0
Kept base _ v = v.db ≡ base

-- The committed tables are `base`, the open transaction sees `d`, and the time is `now`.
pub record At (base : Db) (now : Time) (d : Db) (w : World Db) : Type 0 where
  pub db : w.db ≡ base
  pub tx : w.tx ≡ d
  pub clock : w.clock ≡ now

pub update_stock-ok :
    (fits : Inventory → Bool) (set : Inventory → Inventory) (d : Db) (n : ℕ) (d' : Db)
    → update_stock fits set d ≡ ok (n, d')
    → (any_where (λ r. fits r && not (row_allowed (set r))) d.inventories ≡ false)
      × (n ≡ count_where fits d.inventories)
      × (d' ≡ record d { inventories = update_where fits set d.inventories })
unfolding update_stock
update_stock-ok fits set d n d' h = ground arith

module _ (base : Db) (now : Time) (d : Db) where
  -- An update of the stock writes the rows that fit, which stay within the CHECKs, and says whether
  -- there was one.
  abbrev pub StockWritten : (Inventory → Bool) → (Inventory → Inventory) → Bool → World Db → Type 0
  StockWritten fits set done v =
      At base now (record d { inventories = update_where fits set d.inventories }) v
      × (done ≡ ltb 0 (count_where fits d.inventories))
      × (any_where (λ r. fits r && not (row_allowed (set r))) d.inventories ≡ false)

  write_stock :
      (fits : Inventory → Bool) (set : Time → Inventory → Inventory) (w : World Db)
      → At base now d w
      → Post
          (StockWritten fits (set now))
          (Kept base)
          ((exec tx_conn (update_stock fits (set w.clock)) >>= λ n. pure (ltb 0 n)) w)
  write_stock fits set w h =
      Post-bind (λ n v. StockWritten fits (set now) (ltb 0 n) v) (StockWritten fits (set now))
        (Kept base) (exec tx_conn (update_stock fits (set w.clock))) (λ n. pure (ltb 0 n)) w
        (Post-exec_tx _ (Kept base) (update_stock fits (set w.clock)) w
          (λ n d' gs e.
            let (a, m, t) = update_stock-ok fits (set now) d n d' (rw (h.clock, h.tx) at e) in
            (record { db = h.db; tx = t; clock = h.clock }, ap (ltb 0) m, a))
          (λ _ _. h.db))
        (λ n v k. k)

  pub try_reserve_lem :
      (pid : Uuid) (q : ℤ) (w : World Db)
      → At base now d w
      → Post
          (StockWritten (can_reserve pid q) (reserve_row q now))
          (Kept base)
          (Stock.try_reserve tx_conn pid q w)
  unfolding Stock.try_reserve
  try_reserve_lem pid q w h = write_stock (can_reserve pid q) (reserve_row q) w h

  pub release_lem :
      (pid : Uuid) (q : ℤ) (w : World Db)
      → At base now d w
      → Post
          (StockWritten (can_release pid q) (release_row q now))
          (Kept base)
          (Stock.release tx_conn pid q w)
  unfolding Stock.release
  release_lem pid q w h = write_stock (can_release pid q) (release_row q) w h

  pub confirm_lem :
      (pid : Uuid) (q : ℤ) (w : World Db)
      → At base now d w
      → Post
          (StockWritten (can_release pid q) (confirm_row q now))
          (Kept base)
          (Stock.confirm tx_conn pid q w)
  unfolding Stock.confirm
  confirm_lem pid q w h = write_stock (can_release pid q) (confirm_row q) w h

upsert_row-ok :
    (oid pid : Uuid) (q : ℤ) (now : Time) (d d' : Db)
    → upsert_row oid pid q now d ≡ ok (tt, d')
    → (upsert_allowed pid q d ≡ true)
      × (d' ≡ record d { reservations = upserted oid pid q now d; next_id = suc d.next_id })
unfolding upsert_row
upsert_row-ok oid pid q now d d' h = ground arith

-- the tables after the status of an item has been set
abbrev pub marked : ReservationStatus → Uuid → Uuid → Db → Db
marked s oid pid d = record d {
  reservations = update_where (of_item oid pid) (with_status s) d.reservations;
}

mark_rows-ok :
    (s : ReservationStatus) (oid pid : Uuid) (d : Db) (n : ℕ) (d' : Db)
    → mark_rows s (of_item oid pid) d ≡ ok (n, d')
    → d' ≡ marked s oid pid d
unfolding mark_rows
mark_rows-ok s oid pid d n d' h = ground arith

-- the tables after an item has been entered as PENDING
abbrev pub pended : Uuid → Uuid → ℤ → Time → Db → Db
pended oid pid q now d = record d {
  reservations = upserted oid pid q now d;
  next_id = suc d.next_id;
}

module _ (base : Db) (now : Time) (d : Db) where
  pub upsert_pending_lem :
      (oid pid : Uuid) (q : ℤ) (w : World Db)
      → At base now d w
      → Post
          (λ _ v. At base now (pended oid pid q now d) v × (upsert_allowed pid q d ≡ true))
          (Kept base)
          (Reservations.upsert_pending tx_conn oid pid q w)
  unfolding Reservations.upsert_pending
  upsert_pending_lem oid pid q w h =
      Post-exec_tx _ (Kept base) (upsert_row oid pid q w.clock) w
        (λ _ d' gs e.
          let (a, t) = upsert_row-ok oid pid q now d d' (rw (h.clock, h.tx) at e) in
          (record { db = h.db; tx = t; clock = h.clock }, a))
        (λ _ _. h.db)

  read_lem :
      {A : Type 0} (r : Result InventoryError A) (w : World Db)
      → At base now d w
      → Post (λ _ v. At base now d v) (Kept base) (r, w)
  read_lem (ok a) w h = h
  read_lem (err e) w h = h.db

  pub mark_lem :
      (s : ReservationStatus) (oid pid : Uuid) (w : World Db)
      → At base now d w
      → Post
          (λ _ v. At base now (marked s oid pid d) v)
          (Kept base)
          (Reservations.mark s tx_conn oid pid w)
  unfolding Reservations.mark
  mark_lem s oid pid w h =
      Post-bind (λ _ v. At base now (marked s oid pid d) v)
        (λ _ v. At base now (marked s oid pid d) v) (Kept base)
        (exec tx_conn (mark_rows s (of_item oid pid))) (λ n. pure (ltb 0 n)) w
        (Post-exec_tx _ (Kept base) (mark_rows s (of_item oid pid)) w
          (λ n d' gs e. record {
            db = h.db;
            tx = mark_rows-ok s oid pid d n d' (rw h.tx at e);
            clock = h.clock;
          })
          (λ _ _. h.db))
        (λ n v k. k)

  -- whatever is read, nothing changes
  pub query_lem :
      {A : Type 0} (c : Conn) (f : Db → Result InventoryError A) (w : World Db)
      → At base now d w
      → Post (λ _ v. At base now d v) (Kept base) (query c f w)
  query_lem c f w h =
      Post-query _ (Kept base) c f w
        (λ gs.
          read_lem (f (view c w)) (record w { faults = gs })
            (record { db = h.db; tx = h.tx; clock = h.clock }))
        (λ _. h.db)
