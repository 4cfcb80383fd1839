-- ===== src/Inventory/Ledger/Reserving.antt =====
-- A step of `Reserve` for an item that the order does not have yet keeps the database consistent,
-- and moves stock from available to reserved without making or losing any.
use order_hub.Base.{
  suc, ◌<◌, Uuid, Time, ◌≡◌, refl, ap, ◌∙◌, Bool, true, false, List, [], ◌∷◌, arith, ◌==◌,
  if◌then◌else◌,
}
use order_hub.Base.Int.{ℤ, pos, ◌+ℤ◌, to_int32, int_laws, +ℤ-zero, zero-+ℤ, +ℤ_comm, leb_ℤ}
use order_hub.Base.Rows.{update_where, count_where, any_where}
use order_hub.Inventory.Models.{Inventory, Reservation, Db, ReservationStatus, reserved, failed}
use order_hub.Inventory.Repo.Stock.{can_reserve, reserve_row}
use order_hub.Inventory.Repo.Reservations.{of_item, new_row, with_status, upsert_allowed}
use order_hub.Inventory.Service.Types.{ReserveItem, ReserveResult}
use order_hub.Inventory.Ledger.Sums.{
  sum_stock, held, ItemKeys, IsConsistent, update-zero, sum_stock-update,
}
use order_hub.Inventory.Ledger.Keys.{update-StockKeys, update-AllAllowed, update-absent}
use order_hub.Inventory.Ledger.Steps.{
  ItemStep, ItemSteps, skip, take, refuse, entered, taken_stock, TakeAllowed,
}

-- the order has no reservation of the product
abbrev pub IsFresh : Uuid → Uuid → Db → Type 0
IsFresh oid pid d = any_where (of_item oid pid) d.reservations ≡ false

-- the new row of the item, in the status that it ends in
abbrev pub item_row : Uuid → ReserveItem → ReservationStatus → Time → Db → Reservation
item_row oid it s now d = with_status s (new_row d oid it.product_id (to_int32 it.quantity) now)

pub entered_fresh :
    (oid : Uuid) (it : ReserveItem) (s : ReservationStatus) (now : Time) (stock : List Inventory)
    (d : Db)
    → IsFresh oid it.product_id d
    → entered oid it s now stock d ≡ record d {
      inventories = stock;
      reservations = item_row oid it s now d ∷ d.reservations;
      next_id = suc d.next_id;
    }
unfolding update_where
entered_fresh oid it s now stock d fresh =
    rw (fresh, update-absent oid it.product_id (with_status s) d.reservations fresh) (ground arith)

-- What the table `inventories` holds of a product in all.
abbrev pub total_stock : Uuid → Db → ℤ
total_stock p d = sum_stock (λ r. r.available +ℤ r.reserved) p d.inventories

module _ (oid : Uuid) (it : ReserveItem) (d : Db) (fresh : IsFresh oid it.product_id d)
    (c : IsConsistent d) where
  taken_sum :
      (now : Time) (p : Uuid)
      → 0 < count_where (can_reserve it.product_id (to_int32 it.quantity)) d.inventories
      → sum_stock (λ r. r.reserved) p (taken_stock it now d)
        ≡ sum_stock (λ r. r.reserved) p d.inventories
          +ℤ (if it.product_id == p then to_int32 it.quantity else pos 0)
  taken_sum now p n =
      sum_stock-update it.product_id (λ r. leb_ℤ (to_int32 it.quantity) r.available)
        (reserve_row (to_int32 it.quantity) now) (λ r. r.reserved) (to_int32 it.quantity) p
        (λ _. refl) (λ _. refl) d.inventories c.stock_keys n

  take-IsConsistent :
      (now : Time)
      → upsert_allowed it.product_id (to_int32 it.quantity) d ≡ true
      → 0 < count_where (can_reserve it.product_id (to_int32 it.quantity)) d.inventories
      → TakeAllowed it now d
      → IsConsistent (entered oid it reserved now (taken_stock it now d) d)
  unfolding ItemKeys any_where held
  take-IsConsistent now a n t =
      rw (entered_fresh oid it reserved now (taken_stock it now d) d fresh) (record {
        stock_keys = update-StockKeys _ _ (λ _. refl) d.inventories c.stock_keys;
        item_keys = (fresh, c.item_keys);
        allowed = update-AllAllowed _ _ d.inventories c.allowed t;
        positive = ground (arith, c.positive);
        ledger = λ p. ground (
          arith,
          taken_sum now p n,
          c.ledger p,
          +ℤ_comm (held p d.reservations) (to_int32 it.quantity),
          +ℤ-zero (held p d.reservations),
          zero-+ℤ (held p d.reservations),
        );
      })

  unchanged :
      (now : Time)
      → count_where (can_reserve it.product_id (to_int32 it.quantity)) d.inventories ≡ 0
      → taken_stock it now d ≡ d.inventories
  unchanged now n =
      update-zero it.product_id (λ r. leb_ℤ (to_int32 it.quantity) r.available)
        (reserve_row (to_int32 it.quantity) now) d.inventories n

  refuse-IsConsistent :
      (now : Time)
      → upsert_allowed it.product_id (to_int32 it.quantity) d ≡ true
      → count_where (can_reserve it.product_id (to_int32 it.quantity)) d.inventories ≡ 0
      → IsConsistent (entered oid it failed now (taken_stock it now d) d)
  unfolding ItemKeys any_where held
  refuse-IsConsistent now a n =
      rw (unchanged now n, entered_fresh oid it failed now d.inventories d fresh)
        (record {
          stock_keys = c.stock_keys;
          item_keys = (fresh, c.item_keys);
          allowed = c.allowed;
          positive = ground (arith, c.positive);
          ledger = λ p. ground (arith, c.ledger p, zero-+ℤ (held p d.reservations));
        })

  pub step-IsConsistent :
      {d' : Db} {res res' : ReserveResult} → ItemStep oid it d res d' res' → IsConsistent d'
  step-IsConsistent (skip why e _) = rw e c
  step-IsConsistent (take now o a n t e _) = rw e (take-IsConsistent now a n t)
  step-IsConsistent (refuse now o a n e _) = rw e (refuse-IsConsistent now a n)

  take-total :
      (now : Time) (p : Uuid)
      → 0 < count_where (can_reserve it.product_id (to_int32 it.quantity)) d.inventories
      → total_stock p (entered oid it reserved now (taken_stock it now d) d) ≡ total_stock p d
  take-total now p n =
      sum_stock-update it.product_id (λ r. leb_ℤ (to_int32 it.quantity) r.available)
        (reserve_row (to_int32 it.quantity) now) (λ r. r.available +ℤ r.reserved) (pos 0) p
        (λ _. omega int_laws) (λ _. refl) d.inventories c.stock_keys n
      ∙ ground (arith, +ℤ-zero (total_stock p d))

  step-total :
      {d' : Db} {res res' : ReserveResult} (p : Uuid)
      → ItemStep oid it d res d' res'
      → total_stock p d' ≡ total_stock p d
  step-total p (skip why e _) = ap (total_stock p) e
  step-total p (take now o a n t e _) = ap (total_stock p) e ∙ take-total now p n
  step-total p (refuse now o a n e _) =
      ap (total_stock p) e ∙ ap (sum_stock (λ r. r.available +ℤ r.reserved) p) (unchanged now n)

  -- the items of other products stay new
  step-IsFresh :
      {d' : Db} {res res' : ReserveResult} (pid : Uuid)
      → (it.product_id == pid) ≡ false
      → IsFresh oid pid d
      → ItemStep oid it d res d' res'
      → IsFresh oid pid d'
  unfolding any_where
  step-IsFresh pid ne f (skip why e _) = rw e f
  step-IsFresh pid ne f (take now o a n t e _) =
      rw (e ∙ entered_fresh oid it reserved now (taken_stock it now d) d fresh) (ground arith)
  step-IsFresh pid ne f (refuse now o a n e _) =
      rw (e ∙ entered_fresh oid it failed now (taken_stock it now d) d fresh) (ground arith)

abbrev pub names_product : Uuid → ReserveItem → Bool
names_product pid it = it.product_id == pid

-- no product is listed twice
unfoldable pub DistinctItems : List ReserveItem → Type 0
DistinctItems [] = Unit
DistinctItems (it ∷ items) =
    (any_where (names_product it.product_id) items ≡ false) × DistinctItems items

unfoldable pub AllFresh : Uuid → List ReserveItem → Db → Type 0
AllFresh oid [] d = Unit
AllFresh oid (it ∷ items) d = IsFresh oid it.product_id d × AllFresh oid items d

pub step-AllFresh :
    (oid : Uuid) (it : ReserveItem) (d : Db)
    → IsFresh oid it.product_id d
    → IsConsistent d
    → {d' : Db} {res res' : ReserveResult} → ItemStep oid it d res d' res'
    → (items : List ReserveItem) → any_where (names_product it.product_id) items ≡ false
    → AllFresh oid items d
    → AllFresh oid items d'
unfolding AllFresh any_where
step-AllFresh oid it d fresh c s [] ne f = tt
step-AllFresh oid it d fresh c s (x ∷ items) ne f = (
  step-IsFresh oid it d fresh c x.product_id (ground arith) f.0 s,
  step-AllFresh oid it d fresh c s items (ground arith) f.1,
)

pub ItemSteps-IsConsistent :
    (oid : Uuid) (items : List ReserveItem) (d : Db) (res : ReserveResult) (d' : Db)
    (res' : ReserveResult)
    → DistinctItems items
    → AllFresh oid items d
    → IsConsistent d
    → ItemSteps oid items d res d' res'
    → IsConsistent d' × ((p : Uuid) → total_stock p d' ≡ total_stock p d)
unfolding DistinctItems AllFresh
ItemSteps-IsConsistent oid [] d res d' res' distinct fresh c (e, _) =
    (rw e c, λ p. ap (total_stock p) e)
ItemSteps-IsConsistent oid (it ∷ items) d res d' res' distinct fresh c (d1, res1, s, rest) =
    let (c', same) =
      ItemSteps-IsConsistent oid items d1 res1 d' res' distinct.1
        (step-AllFresh oid it d fresh.0 c s items distinct.0 fresh.1)
        (step-IsConsistent oid it d fresh.0 c s) rest in
    (c', λ p. same p ∙ step-total oid it d fresh.0 c p s)
