-- ===== src/Inventory/Ledger/Returning.antt =====
-- `Release` returns where no statement fails.
use order_hub.Base.{
  ℕ, Uuid, Time, ◌≡◌, refl, ap, ◌∙◌, Bool, true, false, not, ◌&&◌, List, [], ◌∷◌, arith, ltb,
  Bool-cases, inl, inr,
}
use order_hub.Base.Int.{ℤ, pos, ◌+ℤ◌, ◌-ℤ◌, leb_ℤ, int_laws, max_int32}
use order_hub.Base.Rows.{update_where, any_where, count_where}
use order_hub.Base.Store.{
  World, Result, ok, err, tx_conn, query, exec, attempt, transaction, pure, commit_tx, ◌>>=◌, ◌>>◌,
}
use order_hub.Base.Post.{Post, Post-bind, Post-map}
use order_hub.Inventory.Models.{Inventory, Reservation, Db, released}
use order_hub.Inventory.Errors.{InventoryError}
use order_hub.Inventory.Repo.Stock
use order_hub.Inventory.Repo.Stock.{row_allowed, can_release, release_row, update_stock}
use order_hub.Inventory.Repo.Reservations
use order_hub.Inventory.Repo.Reservations.{of_item, of_order, mark_rows, earlier, with_status}
use order_hub.Inventory.Service.Reserving.{
  is_reserved, give_back, count_if, release_one, release_rows, release,
}
use order_hub.Inventory.Ledger.Sums.{AllAllowed, AllPositive, IsConsistent}
use order_hub.Inventory.Ledger.Keys.{update-AllAllowed}
use order_hub.Inventory.Ledger.Listing.{any_where-listed, holds_stock}
use order_hub.Inventory.Ledger.ReserveCall.{listed}
use order_hub.Inventory.Ledger.ReleaseCall.{Released, release-Released}

-- the available stock could take back all that is held
abbrev too_much : Inventory → Bool
too_much r = not (leb_ℤ (r.available +ℤ r.reserved) max_int32)

abbrev pub AllFit : List Inventory → Type 0
AllFit rows = any_where too_much rows ≡ false

release_row-allowed :
    (pid : Uuid) (q : ℤ) (now : Time) (r : Inventory)
    → leb_ℤ q (pos 0) ≡ false
    → row_allowed r ≡ true
    → too_much r ≡ false
    → (can_release pid q r && not (row_allowed (release_row q now r))) ≡ false
release_row-allowed pid q now r positive fine fit = grind int_laws

release_row-fit : (q : ℤ) (now : Time) (r : Inventory) → too_much (release_row q now r) ≡ too_much r
release_row-fit q now r =
    let same : r.available +ℤ q +ℤ (r.reserved -ℤ q) ≡ r.available +ℤ r.reserved = omega int_laws in
    ap (λ t. not (leb_ℤ t max_int32)) same

release-allowed :
    (pid : Uuid) (q : ℤ) (now : Time) (rows : List Inventory)
    → leb_ℤ q (pos 0) ≡ false
    → AllAllowed rows
    → AllFit rows
    → any_where (λ r. can_release pid q r && not (row_allowed (release_row q now r))) rows ≡ false
unfolding any_where
release-allowed pid q now [] positive fine fit = refl
release-allowed pid q now (r ∷ rows) positive fine fit =
    ground
      (arith, release_row-allowed pid q now r positive, release-allowed pid q now rows positive)

update-AllFit :
    (pid : Uuid) (q : ℤ) (now : Time) (rows : List Inventory)
    → AllFit rows
    → AllFit (update_where (can_release pid q) (release_row q now) rows)
unfolding any_where update_where
update-AllFit pid q now [] fit = refl
update-AllFit pid q now (r ∷ rows) fit = elim (Bool-cases (can_release pid q r)) [
  | inl hit ↦ rw (hit, release_row-fit q now r) (ground (arith, update-AllFit pid q now rows))
  | inr miss ↦ rw miss (ground (arith, update-AllFit pid q now rows))
]

-- an open transaction in which no statement is to fail, on a stock that can take back what is held
record Ready (w : World Db) : Type 0 where
  faults : w.faults ≡ []
  allowed : AllAllowed w.tx.inventories
  fit : AllFit w.tx.inventories

-- a statement that is accepted goes through
exec_clear :
    {A : Type 0} (Q : A → World Db → Type 0) (f : Db → Result InventoryError (A × Db))
    (w : World Db) (a : A) (d : Db)
    → w.faults ≡ []
    → f w.tx ≡ ok (a, d)
    → Q a (record w { tx = d; faults = [] })
    → Post Q (λ _ _. ⊥) (exec tx_conn f w)
unfolding exec attempt
exec_clear Q f w a d none e q = rw (none, e) q

mark_clear :
    (oid pid : Uuid) (w : World Db)
    → Ready w
    → Post (λ _ v. Ready v) (λ _ _. ⊥) (Reservations.mark_released tx_conn oid pid w)
unfolding Reservations.mark_released Reservations.mark mark_rows
mark_clear oid pid w h =
    Post-bind (λ _ v. Ready v) (λ _ v. Ready v) (λ _ _. ⊥)
      (exec tx_conn (mark_rows released (of_item oid pid))) (λ n. pure (ltb 0 n)) w
      (exec_clear (λ _ v. Ready v) (mark_rows released (of_item oid pid)) w
        (count_where (of_item oid pid) w.tx.reservations)
        (record w.tx {
          reservations = update_where (of_item oid pid) (with_status released) w.tx.reservations;
        })
        h.faults refl (record { faults = refl; allowed = h.allowed; fit = h.fit }))
      (λ _ _ k. k)

accepted :
    (fits : Inventory → Bool) (set : Inventory → Inventory) (d : Db)
    → any_where (λ x. fits x && not (row_allowed (set x))) d.inventories ≡ false
    → update_stock fits set d
      ≡ ok (
        count_where fits d.inventories,
        record d { inventories = update_where fits set d.inventories },
      )
unfolding update_stock
accepted fits set d fine = rw fine refl

give_clear :
    (r : Reservation) (total : ℕ) (w : World Db)
    → leb_ℤ r.quantity (pos 0) ≡ false
    → Ready w
    → Post (λ _ v. Ready v) (λ _ _. ⊥) (give_back r total w)
unfolding Stock.release
give_clear r total w positive h = elim (Bool-cases (is_reserved r.status)) [
  | inl held ↦ rw held (
      Post-bind (λ _ v. Ready v) (λ _ v. Ready v) (λ _ _. ⊥)
        (Stock.release tx_conn r.product_id r.quantity) (λ done. pure (count_if done total)) w
        (Post-bind (λ _ v. Ready v) (λ _ v. Ready v) (λ _ _. ⊥)
          (exec tx_conn
            (update_stock (can_release r.product_id r.quantity) (release_row r.quantity w.clock)))
          (λ n. pure (ltb 0 n)) w
          (exec_clear (λ _ v. Ready v)
            (update_stock (can_release r.product_id r.quantity) (release_row r.quantity w.clock)) w
            _ _ h.faults
            (accepted (can_release r.product_id r.quantity) (release_row r.quantity w.clock) w.tx (
              release-allowed r.product_id r.quantity w.clock w.tx.inventories positive h.allowed
                h.fit))
            (record {
              faults = refl;
              allowed =
                  update-AllAllowed (can_release r.product_id r.quantity)
                    (release_row r.quantity w.clock) w.tx.inventories h.allowed
                    (release-allowed r.product_id r.quantity w.clock w.tx.inventories positive
                      h.allowed h.fit);
              fit = update-AllFit r.product_id r.quantity w.clock w.tx.inventories h.fit;
            }))
          (λ _ _ k. k))
        (λ _ _ k. k))
  | inr free ↦ rw free h
]

rows_clear :
    (oid : Uuid) (rows : List Reservation) (total : ℕ) (w : World Db)
    → AllPositive rows
    → Ready w
    → Post (λ _ v. Ready v) (λ _ _. ⊥) (release_rows oid rows total w)
unfolding release_rows release_one any_where
rows_clear oid [] total w positive h = h
rows_clear oid (r ∷ rows) total w positive h =
    Post-bind (λ _ v. Ready v) (λ _ v. Ready v) (λ _ _. ⊥) (release_one oid r total)
      (release_rows oid rows) w
      (Post-bind (λ _ v. Ready v) (λ _ v. Ready v) (λ _ _. ⊥) (give_back r total)
        (λ n. Reservations.mark_released tx_conn oid r.product_id >> pure n) w
        (give_clear r total w (ground arith) h)
        (λ n v k.
          Post-bind (λ _ u. Ready u) (λ _ u. Ready u) (λ _ _. ⊥)
            (Reservations.mark_released tx_conn oid r.product_id) (λ _. pure n) v
            (mark_clear oid r.product_id v k) (λ _ _ last. last)))
      (λ n v k. rows_clear oid rows n v (ground arith) k)

listing_clear :
    (oid : Uuid) (w : World Db)
    → Ready w
    → Post
        (λ rows v. (rows ≡ listed oid w.tx) × Ready v)
        (λ _ _. ⊥)
        (Reservations.list_by_order tx_conn oid w)
unfolding Reservations.list_by_order query attempt
listing_clear oid w h =
    rw h.faults (refl, record { faults = refl; allowed = h.allowed; fit = h.fit })

positive_rows :
    (oid : Uuid) (table : List Reservation)
    → AllPositive table
    → any_where (λ r. of_order oid r && leb_ℤ r.quantity (pos 0)) table ≡ false
unfolding any_where
positive_rows oid [] h = refl
positive_rows oid (r ∷ table) h = ground (arith, positive_rows oid table)

transaction_clear :
    (fn : World Db → Result InventoryError ℕ × World Db) (w : World Db)
    → w.faults ≡ []
    → Post (λ _ v. v.faults ≡ []) (λ _ _. ⊥) (fn (record w { tx = w.db; faults = [] }))
    → Post (λ _ _. Unit) (λ _ _. ⊥) (transaction fn w)
unfolding transaction attempt
transaction_clear fn w none body = rw none (
    Post-bind (λ _ v. v.faults ≡ []) (λ _ _. Unit) (λ _ _. ⊥) fn (λ a. attempt >> commit_tx a)
      (record w { tx = w.db; faults = [] }) body (λ a v e. rw e tt))

release_clear :
    (oid : Uuid) (w : World Db)
    → w.faults ≡ []
    → IsConsistent w.db
    → AllFit w.db.inventories
    → Post (λ _ _. Unit) (λ _ _. ⊥) (release oid w)
unfolding release
release_clear oid w none c fit =
    transaction_clear (Reservations.list_by_order tx_conn oid >>= λ rows. release_rows oid rows 0) w
      none
      (Post-bind (λ rows v. (rows ≡ listed oid w.db) × Ready v) (λ _ v. v.faults ≡ []) (λ _ _. ⊥)
        (Reservations.list_by_order tx_conn oid) (λ rows. release_rows oid rows 0)
        (record w { tx = w.db; faults = [] })
        (listing_clear oid (record w { tx = w.db; faults = [] })
          (record { faults = refl; allowed = c.allowed; fit = fit }))
        (λ rows v (e, ready). rw e (
          Post-map (λ _ u. Ready u) (λ _ u. u.faults ≡ []) (λ _ _. ⊥) (λ _ _. ⊥)
            (release_rows oid (listed oid w.db) 0 v)
            (rows_clear oid (listed oid w.db) 0 v
              (any_where-listed oid (λ r. leb_ℤ r.quantity (pos 0)) w.db.reservations
                ∙ positive_rows oid w.db.reservations c.positive)
              ready)
            (λ _ _ k. k.faults) (λ _ _ k. k))))

-- Where no statement fails, the database is consistent, and no row's available and reserved stock
-- together are above the largest `int32`, `Release` returns, and does all that it promises: the number
-- of the order's reservations that were RESERVED, none of them left, every total as before.
pub release-Returns :
    (oid : Uuid) (w : World Db)
    → w.faults ≡ []
    → IsConsistent w.db
    → AllFit w.db.inventories
    → (n : ℕ) × (v : World Db) × (release oid w ≡ (ok n, v))
      × Released oid w.db v.db
      × (n ≡ count_where (holds_stock oid) w.db.reservations)
release-Returns oid w none c fit = go (release oid w) refl
  where
    go :
        (r : Result InventoryError ℕ × World Db)
        → release oid w ≡ r
        → (n : ℕ) × (v : World Db) × (release oid w ≡ (ok n, v))
          × Released oid w.db v.db
          × (n ≡ count_where (holds_stock oid) w.db.reservations)
    go (ok n, v) e =
        let (done, count) = rw e at (release-Released oid w c) in (n, v, e, done, count)
    go (err x, v) e = absurd (rw e at (release_clear oid w none c fit))
