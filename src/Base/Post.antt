-- ===== src/Base/Post.antt =====
-- Postconditions of requests, with one rule for each way to build an action.
use mathlib.Core.Path.{subst}
use order_hub.Base.{Bool, true, false, List, [], ◌∷◌, ◌≡◌, refl, Time}
use order_hub.Base.Store.{
  unavailable, Error, service, database, Result, ok, err, World, Conn, pool, tx_conn, Action, view,
  mirror, run_exec, pop_fault, guard, attempt, begin_tx, commit_tx, query, exec, transaction, catch,
  ignore, ◌>>=◌, ◌>>◌,
}

-- `Q` of the result and the world where the action returns, `X` where it fails.
abbrev pub Post :
    {D E A : Type 0}
    → (A → World D → Type 0)
    → (Error E → World D → Type 0)
    → Result E A × World D
    → Type 0
Post Q X (ok a, w) = Q a w
Post Q X (err e, w) = X e w

module _ {D E A : Type 0} where
  pub Post-mono :
      (Q R : A → World D → Type 0) (X : Error E → World D → Type 0) (r : Result E A × World D)
      → Post Q X r
      → ((a : A) (w : World D) → Q a w → R a w)
      → Post R X r
  Post-mono Q R X (ok a, w) h k = k a w h
  Post-mono Q R X (err e, w) h k = h

  pub Post-map :
      (Q R : A → World D → Type 0) (X Y : Error E → World D → Type 0) (r : Result E A × World D)
      → Post Q X r
      → ((a : A) (w : World D) → Q a w → R a w)
      → ((e : Error E) (w : World D) → X e w → Y e w)
      → Post R Y r
  Post-map Q R X Y (ok a, w) h k l = k a w h
  Post-map Q R X Y (err e, w) h k l = l e w h

  catch_split :
      (Q R : A → World D → Type 0) (X Y : Error E → World D → Type 0) (h : Error E → Action D E A)
      (r : Result E A) (w : World D)
      → Post Q X (r, w)
      → ((a : A) (v : World D) → Q a v → R a v)
      → ((e : Error E) (v : World D) → X e v → Post R Y (h e v))
      → Post R Y (catch (λ (v : World D). (r, w)) h w)
  catch_split Q R X Y h (ok a) w p k l = k a w p
  catch_split Q R X Y h (err e) w p k l = l e w p

  pub Post-catch :
      (Q R : A → World D → Type 0) (X Y : Error E → World D → Type 0) (m : Action D E A)
      (h : Error E → Action D E A) (w : World D)
      → Post Q X (m w)
      → ((a : A) (v : World D) → Q a v → R a v)
      → ((e : Error E) (v : World D) → X e v → Post R Y (h e v))
      → Post R Y (catch m h w)
  Post-catch Q R X Y m h w p k l = let (r, w') = m w in catch_split Q R X Y h r w' p k l

  -- What holds of the world in either case holds of it.
  pub Post-either :
      (P : World D → Type 0) (r : Result E A) (w : World D)
      → Post (λ _ v. P v) (λ _ v. P v) (r, w)
      → P w
  Post-either P (ok a) w h = h
  Post-either P (err e) w h = h

  pub Post-ignore :
      (P : World D → Type 0) (X : Error E → World D → Type 0) (m : Action D E A) (w : World D)
      → Post (λ _ v. P v) (λ _ v. P v) (m w)
      → Post (λ _ v. P v) X (ignore m w)
  Post-ignore P X m w p = let (r, w') = m w in Post-either P r w' p

module _ {D E A B : Type 0} where
  bind_split :
      (Q : A → World D → Type 0) (R : B → World D → Type 0) (X : Error E → World D → Type 0)
      (f : A → Action D E B) (r : Result E A) (w : World D)
      → Post Q X (r, w)
      → ((a : A) (w' : World D) → Q a w' → Post R X (f a w'))
      → Post R X (((λ (v : World D). (r, v)) >>= f) w)
  bind_split Q R X f (ok a) w h k = k a w h
  bind_split Q R X f (err e) w h k = h

  pub Post-bind :
      (Q : A → World D → Type 0) (R : B → World D → Type 0) (X : Error E → World D → Type 0)
      (m : Action D E A) (f : A → Action D E B) (w : World D)
      → Post Q X (m w)
      → ((a : A) (w' : World D) → Q a w' → Post R X (f a w'))
      → Post R X ((m >>= f) w)
  Post-bind Q R X m f w h k = let (r, w') = m w in bind_split Q R X f r w' h k

module _ {D E A : Type 0} where
  Post-pop_then :
      (Q : A → World D → Type 0) (X : Error E → World D → Type 0) (k : Action D E A)
      (fs : List Bool) (w : World D)
      → ((gs : List Bool) → Post Q X (k (record w { faults = gs })))
      → Post Q X (k w)
      → ((gs : List Bool) → X (database unavailable) (record w { faults = gs }))
      → Post Q X (((λ (v : World D). pop_fault {E = E} fs w) >> k) w)
  Post-pop_then Q X k [] w q q0 x = q0
  Post-pop_then Q X k (false ∷ rest) w q q0 x = q rest
  Post-pop_then Q X k (true ∷ rest) w q q0 x = x rest

  -- The statement fails, or what follows runs in a world that has fewer faults to come.
  pub Post-attempt_then :
      (Q : A → World D → Type 0) (X : Error E → World D → Type 0) (k : Action D E A) (w : World D)
      → ((gs : List Bool) → Post Q X (k (record w { faults = gs })))
      → ((gs : List Bool) → X (database unavailable) (record w { faults = gs }))
      → Post Q X ((attempt >> k) w)
  unfolding attempt
  Post-attempt_then Q X k w q x = Post-pop_then Q X k w.faults w q (q w.faults) x

  pub Post-query :
      (Q : A → World D → Type 0) (X : Error E → World D → Type 0) (c : Conn) (f : D → Result E A)
      (w : World D)
      → ((gs : List Bool) → Post Q X (f (view c w), record w { faults = gs }))
      → ((gs : List Bool) → X (database unavailable) (record w { faults = gs }))
      → Post Q X (query c f w)
  unfolding query
  Post-query Q X Conn.pool f w q x = Post-attempt_then Q X (λ v. (f v.db, v)) w q x
  Post-query Q X Conn.tx_conn f w q x = Post-attempt_then Q X (λ v. (f v.tx, v)) w q x

  pub Post-guard_then :
      (Q : A → World D → Type 0) (X : Error E → World D → Type 0) (b : Bool) (e : E)
      (k : Action D E A) (w : World D)
      → (b ≡ true → Post Q X (k w))
      → (b ≡ false → X (service e) w)
      → Post Q X ((guard b e >> k) w)
  Post-guard_then Q X true e k w q x = q refl
  Post-guard_then Q X false e k w q x = x refl

  run_exec-Post :
      (Q : A → World D → Type 0) (X : Error E → World D → Type 0) (f : D → Result E (A × D))
      (r : Result E (A × D)) (w : World D)
      → ((a : A) (d : D) → r ≡ ok (a, d) → Q a (record w { tx = d }))
      → ((e : Error E) → X e w)
      → Post Q X (run_exec tx_conn f r w)
  run_exec-Post Q X f (ok (a, d)) w q x = q a d refl
  run_exec-Post Q X f (err e) w q x = x e

  pub Post-exec_tx :
      (Q : A → World D → Type 0) (X : Error E → World D → Type 0) (f : D → Result E (A × D))
      (w : World D)
      → ((a : A) (d : D) (gs : List Bool)
          → f w.tx ≡ ok (a, d)
          → Q a (record w { tx = d; faults = gs }))
      → ((e : Error E) (gs : List Bool) → X e (record w { faults = gs }))
      → Post Q X (exec tx_conn f w)
  unfolding exec
  Post-exec_tx Q X f w q x =
      Post-attempt_then Q X (λ v. run_exec tx_conn f (f v.tx) v) w
        (λ gs.
          run_exec-Post Q X f (f w.tx) (record w { faults = gs }) (λ a d. q a d gs) (λ e. x e gs))
        (x (database unavailable))

  run_exec_pool-Post :
      (Q : A → World D → Type 0) (X : Error E → World D → Type 0) (f : D → Result E (A × D))
      (r : Result E (A × D)) (w : World D)
      → ((a : A) (d : D) → r ≡ ok (a, d) → Q a (record w { db = d; tx = mirror (f w.tx) w.tx }))
      → ((e : Error E) → X e w)
      → Post Q X (run_exec pool f r w)
  run_exec_pool-Post Q X f (ok (a, d)) w q x = q a d refl
  run_exec_pool-Post Q X f (err e) w q x = x e

  pub Post-exec_pool :
      (Q : A → World D → Type 0) (X : Error E → World D → Type 0) (f : D → Result E (A × D))
      (w : World D)
      → ((a : A) (d : D) (gs : List Bool)
          → f w.db ≡ ok (a, d)
          → Q a (record w { db = d; tx = mirror (f w.tx) w.tx; faults = gs }))
      → ((e : Error E) (gs : List Bool) → X e (record w { faults = gs }))
      → Post Q X (exec pool f w)
  unfolding exec
  Post-exec_pool Q X f w q x =
      Post-attempt_then Q X (λ v. run_exec pool f (f v.db) v) w
        (λ gs.
          run_exec_pool-Post Q X f (f w.db) (record w { faults = gs }) (λ a d. q a d gs)
            (λ e. x e gs))
        (x (database unavailable))

  -- All or nothing: an error leaves the committed tables as they were, and a result comes with the
  -- tables that the body made.
  pub Post-transaction :
      (Q : A → D → Type 0) (fn : Action D E A) (w : World D)
      → ((gs : List Bool)
          → Post
              (λ a w'. (w'.db ≡ w.db) × Q a w'.tx)
              (λ _ w'. w'.db ≡ w.db)
              (fn (record w { tx = w.db; faults = gs })))
      → Post (λ a w'. Q a w'.db) (λ _ w'. w'.db ≡ w.db) (transaction fn w)
  unfolding transaction
  Post-transaction Q fn w body =
      let Done : A → World D → Type 0 = λ a v. Q a v.db in
      let Kept : Error E → World D → Type 0 = λ _ v. v.db ≡ w.db in
      Post-attempt_then Done Kept (begin_tx >> (fn >>= λ a. attempt >> commit_tx a)) w
        (λ gs.
          Post-bind (λ a v. (v.db ≡ w.db) × Q a v.tx) Done Kept fn (λ a. attempt >> commit_tx a)
            (record w { tx = w.db; faults = gs }) (body gs)
            (λ a u h. Post-attempt_then Done Kept (commit_tx a) u (λ _. h.1) (λ _. h.0)))
        (λ _. refl)

  -- The same where the body writes through the pool as well: what it has committed stays.
  pub Post-transaction_pool :
      (Q : A → D → Type 0) (X : D → Type 0) (fn : Action D E A) (w : World D)
      → X w.db
      → ((gs : List Bool)
          → Post
              (λ a v. Q a v.tx × X v.db)
              (λ _ v. X v.db)
              (fn (record w { tx = w.db; faults = gs })))
      → Post (λ a v. Q a v.db) (λ _ v. X v.db) (transaction fn w)
  unfolding transaction
  Post-transaction_pool Q X fn w x0 body =
      let Done : A → World D → Type 0 = λ a v. Q a v.db in
      let Left : Error E → World D → Type 0 = λ _ v. X v.db in
      Post-attempt_then Done Left (begin_tx >> (fn >>= λ a. attempt >> commit_tx a)) w
        (λ gs.
          Post-bind (λ a v. Q a v.tx × X v.db) Done Left fn (λ a. attempt >> commit_tx a)
            (record w { tx = w.db; faults = gs }) (body gs)
            (λ a u h. Post-attempt_then Done Left (commit_tx a) u (λ _. h.0) (λ _. h.1)))
        (λ _. x0)

module _ {D E A : Type 0} where
  -- what is known of a call that has returned
  pub Post-returned :
      (Q : A → World D → Type 0) (X : Error E → World D → Type 0) (r : Result E A × World D) (a : A)
      (w : World D)
      → Post Q X r
      → r ≡ (ok a, w)
      → Q a w
  Post-returned Q X r a w h e = subst (λ x. Post Q X x) e h

  pub Post-both :
      (P Q : A → World D → Type 0) (X Y : Error E → World D → Type 0) (r : Result E A × World D)
      → Post P X r
      → Post Q Y r
      → Post (λ a v. P a v × Q a v) (λ e v. X e v × Y e v) r
  Post-both P Q X Y (ok a, w) p q = (p, q)
  Post-both P Q X Y (err e, w) p q = (p, q)

  -- The clock stands still in a transaction if it does in its body.
  pub Post-transaction_clock :
      (now : Time) (fn : Action D E A) (w : World D)
      → ((u : World D) → u.clock ≡ now → Post (λ _ v. v.clock ≡ now) (λ _ v. v.clock ≡ now) (fn u))
      → w.clock ≡ now
      → Post (λ _ v. v.clock ≡ now) (λ _ v. v.clock ≡ now) (transaction fn w)
  unfolding transaction
  Post-transaction_clock now fn w body h =
      let Q : A → World D → Type 0 = λ _ v. v.clock ≡ now in
      let X : Error E → World D → Type 0 = λ _ v. v.clock ≡ now in
      Post-attempt_then Q X (begin_tx >> (fn >>= λ a. attempt >> commit_tx a)) w
        (λ gs.
          Post-bind Q Q X fn (λ a. attempt >> commit_tx a) (record w { tx = w.db; faults = gs })
            (body (record w { tx = w.db; faults = gs }) h)
            (λ a u k. Post-attempt_then Q X (commit_tx a) u (λ _. k) (λ _. k)))
        (λ _. h)
