-- ===== src/Inventory/Ledger/Steps.antt =====
-- What the loop of `Reserve` does to the tables, as a relation: each item is skipped, taken or
-- refused. The body of the transaction takes only such steps, whatever statement fails.
use order_hub.Base.{
  suc, ◌<◌, Uuid, Time, ◌≡◌, refl, sym, ap, ◌∙◌, Bool, true, false, not, ◌&&◌, List, [], ◌∷◌, ◌++◌,
  arith, ltb, str_eq, if◌then◌else◌, ◌==◌, Option, none, some, Bool-cases, inl, inr,
}
use order_hub.Base.Int.{ℤ, leb_ℤ, ◌+ℤ◌, ◌-ℤ◌, to_int32}
use order_hub.Base.Rows.{find_where, update_where, count_where, any_where}
use order_hub.Base.Store.{World, pool, tx_conn, pure, ◌>>=◌}
use order_hub.Base.Post.{Post, Post-query, Post-guard_then, Post-mono, Post-bind}
use order_hub.Inventory.Models.{
  Reservation, pending, Inventory, Product, Db, ReservationStatus, reserved, failed,
}
use order_hub.Inventory.Ledger.Statements.{
  Kept, At, StockWritten, pended, mark_lem, try_reserve_lem, upsert_pending_lem,
}
use order_hub.Inventory.Errors.{invalid_quantity}
use order_hub.Inventory.Repo.Stock
use order_hub.Inventory.Repo.Stock.{row_allowed, can_reserve, reserve_row, update_stock}
use order_hub.Inventory.Repo.Products
use order_hub.Inventory.Repo.Products.{currency_rub}
use order_hub.Inventory.Repo.Reservations
use order_hub.Inventory.Repo.Reservations.{
  of_item, upserted, upsert_allowed, upsert_row, with_status,
}
use order_hub.Inventory.Service.Types.{ReserveItem, Reason, out_of_stock, inactive, ReserveResult}
use order_hub.Inventory.Service.Reserving.{
  add_ok, add_failed, settle, reserve_one, reserve_found, reserve_item, reserve_items,
}

-- the item at the end of those that were taken, and of those that were not, with the reason
abbrev pub ok_with : ReserveItem → ReserveResult → ReserveResult
ok_with it res = record res {
  ok_items = res.ok_items ++ (record { product_id = it.product_id; quantity = it.quantity }) ∷ [];
}

abbrev pub failed_with : ReserveItem → Reason → ReserveResult → ReserveResult
failed_with it why res = record res {
  failed =
      res.failed
      ++ (record { product_id = it.product_id; requested = it.quantity; reason = why }) ∷ [];
}

abbrev is_item : Uuid → ReserveItem → Reservation → Bool
is_item oid it r = r.order_id == oid && r.product_id == it.product_id

-- the reservations with one of the item, PENDING: the one that is there, or a new one
abbrev pended_rows : Uuid → ReserveItem → Time → Db → List Reservation
pended_rows oid it now d =
    if any_where (is_item oid it) d.reservations
    then update_where (is_item oid it)
        (λ r. record r { quantity = to_int32 it.quantity; status = pending }) d.reservations
    else (record {
      id = d.next_id;
      order_id = oid;
      product_id = it.product_id;
      quantity = to_int32 it.quantity;
      status = pending;
      created_at = now;
    })
      ∷ d.reservations

-- the tables after an item has been entered with a status
abbrev pub entered : Uuid → ReserveItem → ReservationStatus → Time → List Inventory → Db → Db
entered oid it s now stock d = record d {
  inventories = stock;
  reservations =
      update_where (is_item oid it) (λ r. record r { status = s }) (pended_rows oid it now d);
  next_id = suc d.next_id;
}

abbrev pub taken_stock : ReserveItem → Time → Db → List Inventory
taken_stock it now d =
    let q : ℤ = to_int32 it.quantity in
    update_where (λ (r : Inventory). r.product_id == it.product_id && leb_ℤ q r.available)
      (λ r. record r { available = r.available -ℤ q; reserved = r.reserved +ℤ q; updated_at = now })
      d.inventories

-- no row that fits breaks the CHECKs when it is taken from
abbrev pub TakeAllowed : ReserveItem → Time → Db → Type 0
TakeAllowed it now d =
    any_where
      (λ r.
        can_reserve it.product_id (to_int32 it.quantity) r
        && not (row_allowed (reserve_row (to_int32 it.quantity) now r)))
      d.inventories
    ≡ false

-- the product is there, on sale or not, and the quantity is not 0
pub record IsOffered (it : ReserveItem) (active : Bool) (d : Db) : Type 0 where
  pub product : Product
  pub found : find_where (λ (p : Product). p.id == it.product_id) d.products ≡ some product
  pub state : product.is_active ≡ active
  pub some_pieces : (it.quantity == 0) ≡ false

pub data ItemStep (oid : Uuid) (it : ReserveItem) (d : Db) (res : ReserveResult) (d' : Db)
    (res' : ReserveResult) : Type 0 where
  skip :
      IsOffered it false d
      → d' ≡ d
      → res' ≡ failed_with it inactive res
      → ItemStep oid it d res d' res'
  take :
      (now : Time)
      → IsOffered it true d
      → upsert_allowed it.product_id (to_int32 it.quantity) d ≡ true
      → 0 < count_where (can_reserve it.product_id (to_int32 it.quantity)) d.inventories
      → TakeAllowed it now d
      → d' ≡ entered oid it reserved now (taken_stock it now d) d
      → res' ≡ ok_with it res
      → ItemStep oid it d res d' res'
  refuse :
      (now : Time)
      → IsOffered it true d
      → upsert_allowed it.product_id (to_int32 it.quantity) d ≡ true
      → count_where (can_reserve it.product_id (to_int32 it.quantity)) d.inventories ≡ 0
      → d' ≡ entered oid it failed now (taken_stock it now d) d
      → res' ≡ failed_with it out_of_stock res
      → ItemStep oid it d res d' res'

-- a step leaves the products alone
step-products :
    (oid : Uuid) (it : ReserveItem) (d : Db) (res : ReserveResult) (d' : Db) (res' : ReserveResult)
    → ItemStep oid it d res d' res'
    → d'.products ≡ d.products
step-products oid it d res d' res' (skip o e _) = ap (λ (t : Db). t.products) e
step-products oid it d res d' res' (take now o a n t e _) = ap (λ (t : Db). t.products) e
step-products oid it d res d' res' (refuse now o a n e _) = ap (λ (t : Db). t.products) e

abbrev pub ItemSteps : Uuid → List ReserveItem → Db → ReserveResult → Db → ReserveResult → Type 0
ItemSteps oid [] d res d' res' = (d' ≡ d) × (res' ≡ res)
ItemSteps oid (it ∷ items) d res d' res' =
    (d1 : Db) × (res1 : ReserveResult) × ItemStep oid it d res d1 res1
    × ItemSteps oid items d1 res1 d' res'

module _ (base : Db) (now : Time) (oid : Uuid) (it : ReserveItem) (d : Db)
    (res : ReserveResult) where
  -- the committed tables are still `base`, and the transaction has made a step from `d`
  pub record Stepped (res' : ReserveResult) (v : World Db) : Type 0 where
    pub db : v.db ≡ base
    pub clock : v.clock ≡ now
    pub step : ItemStep oid it d res v.tx res'

  settle-Stepped :
      (done : Bool) (w : World Db)
      → upsert_allowed it.product_id (to_int32 it.quantity) d ≡ true
      → IsOffered it true d
      → done ≡ ltb 0 (count_where (can_reserve it.product_id (to_int32 it.quantity)) d.inventories)
      → TakeAllowed it now d
      → At base now
          (record (pended oid it.product_id (to_int32 it.quantity) now d) {
            inventories = taken_stock it now d;
          })
          w
      → Post Stepped (Kept base) (settle oid it res done w)
  unfolding settle Reservations.mark_reserved Reservations.mark_failed
  settle-Stepped true w a o c t h =
      Post-bind (λ _ v. At base now (entered oid it reserved now (taken_stock it now d) d) v)
        Stepped (Kept base) (Reservations.mark reserved tx_conn oid it.product_id)
        (λ _. pure (add_ok it res)) w (mark_lem base now _ reserved oid it.product_id w h)
        (λ _ v k. record {
          db = k.db;
          clock = k.clock;
          step = ItemStep.take now o a (ground arith) t k.tx refl;
        })
  settle-Stepped false w a o c t h =
      Post-bind (λ _ v. At base now (entered oid it failed now (taken_stock it now d) d) v) Stepped
        (Kept base) (Reservations.mark failed tx_conn oid it.product_id)
        (λ _. pure (add_failed it out_of_stock res)) w
        (mark_lem base now _ failed oid it.product_id w h)
        (λ _ v k. record {
          db = k.db;
          clock = k.clock;
          step = ItemStep.refuse now o a (ground arith) k.tx refl;
        })

  reserve_one-Stepped :
      (w : World Db)
      → IsOffered it true d
      → At base now d w
      → Post Stepped (Kept base) (reserve_one oid it res w)
  unfolding reserve_one
  reserve_one-Stepped w o h =
      let pid = it.product_id in
      let q = to_int32 it.quantity in
      Post-bind (λ _ v. At base now (pended oid pid q now d) v × (upsert_allowed pid q d ≡ true))
        Stepped (Kept base) (Reservations.upsert_pending tx_conn oid pid q)
        (λ _. Stock.try_reserve tx_conn pid q >>= settle oid it res) w
        (upsert_pending_lem base now d oid pid q w h)
        (λ _ v (k, a).
          Post-bind
            (StockWritten base now (pended oid pid q now d) (can_reserve pid q) (reserve_row q now))
            Stepped (Kept base) (Stock.try_reserve tx_conn pid q) (settle oid it res) v
            (try_reserve_lem base now (pended oid pid q now d) pid q v k)
            (λ done u (at, c, t). settle-Stepped done u a o c t at))

  reserve_found-Stepped :
      (p : Product) (w : World Db)
      → (it.quantity == 0) ≡ false
      → find_where (Products.has_id it.product_id) d.products ≡ some p
      → At base now d w
      → Post Stepped (Kept base) (reserve_found oid it res (some p) w)
  unfolding reserve_found
  reserve_found-Stepped p w pieces e h = elim (Bool-cases p.is_active) [
    | inl active ↦ elim (Bool-cases (str_eq p.currency_code currency_rub)) [
      | inl rub ↦
          rw (active, rub)
            (reserve_one-Stepped w
              (record { product = p; found = e; state = active; some_pieces = pieces }) h)
      | inr other ↦ rw (active, other) h.db
    ]
    | inr idle ↦ rw idle (record {
      db = h.db;
      clock = h.clock;
      step =
          ItemStep.skip (record { product = p; found = e; state = idle; some_pieces = pieces }) h.tx
            refl;
    })
  ]

  of_not : (b : Bool) → not b ≡ true → b ≡ false
  of_not b h = ground arith

  -- the product has been found, and the tables are as before
  abbrev Looked : Option Product → World Db → Type 0
  Looked o v =
      (p : Product) × (o ≡ some p)
      × (find_where (Products.has_id it.product_id) d.products ≡ some p)
      × At base now d v

  found_or_error-Looked :
      (o : Option Product) (v : World Db)
      → find_where (Products.has_id it.product_id) d.products ≡ o
      → At base now d v
      → Post Looked (Kept base) (Products.found_or_error o, v)
  found_or_error-Looked none v e h = h.db
  found_or_error-Looked (some p) v e h = (p, refl, e, h)

  looked_lem :
      (w : World Db)
      → base.products ≡ d.products
      → At base now d w
      → Post Looked (Kept base) (Products.get_by_id pool it.product_id w)
  unfolding Products.get_by_id
  looked_lem w shared h =
      let pid = it.product_id in
      Post-query Looked (Kept base) pool
        (λ t. Products.found_or_error (find_where (Products.has_id pid) t.products)) w
        (λ gs.
          found_or_error-Looked (find_where (Products.has_id pid) w.db.products)
            (record w { faults = gs })
            (ap (find_where (Products.has_id pid))
              (sym shared ∙ ap (λ (t : Db). t.products) (sym h.db)))
            (record { db = h.db; tx = h.tx; clock = h.clock }))
        (λ _. h.db)

  pub reserve_item-Stepped :
      (w : World Db)
      → base.products ≡ d.products
      → At base now d w
      → Post Stepped (Kept base) (reserve_item oid it res w)
  unfolding reserve_item Products.get_by_id
  reserve_item-Stepped w shared h =
      Post-guard_then Stepped (Kept base) (not (it.quantity == 0)) invalid_quantity
        (Products.get_by_id pool it.product_id >>= reserve_found oid it res) w
        (λ pieces.
          Post-bind Looked Stepped (Kept base) (Products.get_by_id pool it.product_id)
            (reserve_found oid it res) w (looked_lem w shared h)
            (λ o v (p, found, e, k).
              rw found (reserve_found-Stepped p v (of_not (it.quantity == 0) pieces) e k)))
        (λ _. h.db)

-- The loop takes a step for each item, in order.
pub reserve_items-ItemSteps :
    (base : Db) (now : Time) (oid : Uuid) (items : List ReserveItem) (d : Db) (res : ReserveResult)
    (w : World Db)
    → base.products ≡ d.products
    → At base now d w
    → Post
        (λ res' v. (v.db ≡ base) × ItemSteps oid items d res v.tx res')
        (Kept base)
        (reserve_items oid items res w)
unfolding reserve_items
reserve_items-ItemSteps base now oid [] d res w shared h = (h.db, (h.tx, refl))
reserve_items-ItemSteps base now oid (it ∷ items) d res w shared h =
    Post-bind (Stepped base now oid it d res)
      (λ res' v. (v.db ≡ base) × ItemSteps oid (it ∷ items) d res v.tx res') (Kept base)
      (reserve_item oid it res) (reserve_items oid items) w
      (reserve_item-Stepped base now oid it d res w shared h)
      (λ res1 v s.
        Post-mono (λ res' u. (u.db ≡ base) × ItemSteps oid items v.tx res1 u.tx res')
          (λ res' u. (u.db ≡ base) × ItemSteps oid (it ∷ items) d res u.tx res') (Kept base) _
          (reserve_items-ItemSteps base now oid items v.tx res1 v
            (shared ∙ sym (step-products oid it d res v.tx res1 s.step))
            (record { db = s.db; tx = refl; clock = s.clock }))
          (λ res' u (kept, rest). (kept, (v.tx, res1, s.step, rest))))
