-- ===== src/Inventory/Guards.antt =====
-- What the calls on the catalogue and on the stock ask of their caller.
use order_hub.Base.{Uuid, ◌≡◌, refl, sym, ap, inl, inr, true, Option, none, some, Option-cases}
use order_hub.Base.Rows.{find_where}
use order_hub.Base.Store.{World, Error, pool, pure, guard, ◌>>=◌, ◌>>◌}
use order_hub.Base.Post.{Post, Post-bind, Post-query, Post-guard_then}
use order_hub.Inventory.Models.{Product, Db}
use order_hub.Inventory.Errors.{
  InventoryError, Role, Context, Run, require_auth, may_manage, product_not_found, forbidden,
}
use order_hub.Inventory.Repo.Products
use order_hub.Inventory.Repo.Products.{has_id}
use order_hub.Inventory.Service.Catalog.{or_not_found}
use order_hub.Inventory.Service.StockLevels.{managed_product}

-- signed in as an admin, or as the vendor
abbrev pub MayManage : Context → Uuid → Type 0
MayManage ctx vendor =
    (user : Uuid) × (role : Role) × (ctx.user_id ≡ some user)
    × (ctx.role ≡ some role)
    × (may_manage role vendor user ≡ true)

-- the product is there and the caller manages it
abbrev pub Managed : Context → Uuid → Db → Type 0
Managed ctx id d =
    (p : Product) × (find_where (has_id id) d.products ≡ some p) × MayManage ctx p.vendor_id

module _ (ctx : Context) (w : World Db) (X : Error InventoryError → World Db → Type 0)
    (fails : (e : Error InventoryError) (v : World Db) → v.db ≡ w.db → X e v) where
  pub require_auth_lem :
      Post
        (λ a v. (v ≡ w) × (ctx.user_id ≡ some a.0) × (ctx.role ≡ some a.1))
        X
        (require_auth ctx w)
  unfolding require_auth
  require_auth_lem = elim (Option-cases ctx.user_id) [
    | inl e ↦ rw e (fails _ w refl)
    | inr (u, e) ↦ elim (Option-cases ctx.role) [
      | inl f ↦ rw (e, f) (fails _ w refl)
      | inr (r, f) ↦ rw (e, f) (refl, refl, refl)
    ]
  ]

  -- the product with the identifier: `First` fails if there is none
  abbrev pub Loaded : Uuid → Product → World Db → Type 0
  Loaded id p v =
      (v.db ≡ w.db) × (v.clock ≡ w.clock) × (find_where (has_id id) w.db.products ≡ some p)

  abbrev Row : Uuid → Option Product → World Db → Type 0
  Row id o v = (v.db ≡ w.db) × (v.clock ≡ w.clock) × (o ≡ find_where (has_id id) w.db.products)

  found_lem :
      (id : Uuid) (o : Option Product) (u : World Db)
      → Row id o u
      → Post (Row id) X (Products.found_or_error o, u)
  found_lem id none u h = fails _ u h.0
  found_lem id (some p) u h = h

  -- what follows the query for the product and the test for nil
  pub Loaded-then :
      {A : Type 0} (R : A → World Db → Type 0) (id : Uuid) (k : Product → Run A) (v : World Db)
      → v.db ≡ w.db
      → v.clock ≡ w.clock
      → ((p : Product) (u : World Db) → Loaded id p u → Post R X (k p u))
      → Post R X
          ((Products.get_by_id pool id >>= λ found. or_not_found found product_not_found >>= k) v)
  unfolding Products.get_by_id
  Loaded-then {A = A} R id k v kept at next =
      Post-bind (Row id) R X (Products.get_by_id pool id)
        (λ found. or_not_found found product_not_found >>= k) v
        (Post-query (Row id) X pool
          (λ d. Products.found_or_error (find_where (has_id id) d.products)) v
          (λ gs.
            found_lem id (find_where (has_id id) v.db.products) (record v { faults = gs })
              (kept, at, ap (λ d. find_where (has_id id) d.products) kept))
          (λ gs. fails _ _ kept))
        (λ o u h. then_lem o u h)
    where
      then_lem :
          (o : Option Product) (u : World Db)
          → Row id o u
          → Post R X ((or_not_found o product_not_found >>= k) u)
      then_lem none u h = fails _ u h.0
      then_lem (some p) u (a, b, e) = next p u (a, b, sym e)

  -- what follows the checks that the calls on one product begin with
  pub Managed-then :
      {A : Type 0} (R : A → World Db → Type 0) (id : Uuid) (k : Product → Run A)
      → ((p : Product) (u : World Db)
          → Loaded id p u
          → MayManage ctx p.vendor_id
          → Post R X (k p u))
      → Post R X (
          (require_auth ctx >>= λ (user, role). Products.get_by_id pool id >>= λ found.
          or_not_found found product_not_found >>= λ p.
          guard (may_manage role p.vendor_id user) forbidden >> k p)
            w)
  Managed-then R id k next =
      Post-bind (λ a v. (v ≡ w) × (ctx.user_id ≡ some a.0) × (ctx.role ≡ some a.1)) R X
        (require_auth ctx)
        (λ (user, role). Products.get_by_id pool id >>= λ found.
          or_not_found found product_not_found >>= λ p.
          guard (may_manage role p.vendor_id user) forbidden >> k p)
        w require_auth_lem
        (λ a v (same, who, as_role).
          Loaded-then R id (λ p. guard (may_manage a.1 p.vendor_id a.0) forbidden >> k p) v
            (ap (λ t. t.db) same) (ap (λ t. t.clock) same)
            (λ p u loaded.
              Post-guard_then R X (may_manage a.1 p.vendor_id a.0) forbidden (k p) u
                (λ may. next p u loaded (a.0, a.1, who, as_role, may)) (λ _. fails _ u loaded.0)))

  pub managed_product_lem :
      (id : Uuid)
      → Post (λ p v. Loaded id p v × MayManage ctx p.vendor_id) X (managed_product ctx id w)
  unfolding managed_product
  managed_product_lem id =
      Managed-then (λ p v. Loaded id p v × MayManage ctx p.vendor_id) id pure
        (λ p u loaded may. (loaded, may))
