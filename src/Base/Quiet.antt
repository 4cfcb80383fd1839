-- ===== src/Base/Quiet.antt =====
-- Requests in which no statement fails: what each step then does, so that a result says that the code returns.
use mathlib.Core.Path.{subst}
use order_hub.Base.{[], Time, ◌≡◌, refl, sym, ap, ◌∙◌}
use order_hub.Base.Store.{
  Error, Result, ok, World, pool, mirror, attempt, query, exec, ignore, pure, ◌>>=◌,
}
use order_hub.Base.Post.{Post, Post-bind, Post-mono, Post-ignore}

pub record Quiet {D : Type 0} (d : D) (now : Time) (w : World D) : Type 0 where
  pub tables : w.db ≡ d
  pub clock : w.clock ≡ now
  pub quiet : w.faults ≡ []

module _ {D E A : Type 0} (d : D) (now : Time) (X : Error E → World D → Type 0) where
  exec_clear :
      (f : D → Result E (A × D)) (a : A) (d' : D) (w : World D)
      → w.faults ≡ []
      → f w.db ≡ ok (a, d')
      → exec pool f w ≡ (ok a, record w { db = d'; tx = mirror (f w.tx) w.tx; faults = [] })
  unfolding exec attempt
  exec_clear f a d' w quiet e = rw (quiet, e) refl

  pub exec-Quiet :
      (f : D → Result E (A × D)) (a : A) (d' : D) (w : World D)
      → f d ≡ ok (a, d')
      → Quiet d now w
      → Post (λ x v. (x ≡ a) × Quiet d' now v) X (exec pool f w)
  exec-Quiet f a d' w e h =
      subst (λ r. Post (λ x v. (x ≡ a) × Quiet d' now v) X r)
        (sym (exec_clear f a d' w h.quiet (ap f h.tables ∙ e)))
        (refl, record { tables = refl; clock = h.clock; quiet = refl })

  query_clear :
      (f : D → Result E A) (a : A) (w : World D)
      → w.faults ≡ []
      → f w.db ≡ ok a
      → query pool f w ≡ (ok a, record w { faults = [] })
  unfolding query attempt
  query_clear f a w quiet e = rw (quiet, e) refl

  pub query-Quiet :
      (f : D → Result E A) (a : A) (w : World D)
      → f d ≡ ok a
      → Quiet d now w
      → Post (λ x v. (x ≡ a) × Quiet d now v) X (query pool f w)
  query-Quiet f a w e h =
      subst (λ r. Post (λ x v. (x ≡ a) × Quiet d now v) X r)
        (sym (query_clear f a w h.quiet (ap f h.tables ∙ e)))
        (refl, record { tables = h.tables; clock = h.clock; quiet = refl })

module _ {D E A : Type 0} (d d' : D) (now : Time) (X : Error E → World D → Type 0) where
  -- A statement whose result is dropped.
  pub ignore-Quiet :
      (f : D → Result E (A × D)) (a : A) (w : World D)
      → f d ≡ ok (a, d')
      → Quiet d now w
      → Post (λ _ v. Quiet d' now v) X (ignore (exec pool f) w)
  ignore-Quiet f a w e h = Post-ignore (Quiet d' now) X (exec pool f) w (
      Post-mono (λ x v. (x ≡ a) × Quiet d' now v) (λ _ v. Quiet d' now v) (λ _ v. Quiet d' now v)
        (exec pool f w) (exec-Quiet d now (λ _ v. Quiet d' now v) f a d' w e h) (λ _ _ k. k.1))

  -- The same where the number of rows is turned into a Boolean.
  pub ignore_then-Quiet :
      {B : Type 0} (f : D → Result E (A × D)) (g : A → B) (a : A) (w : World D)
      → f d ≡ ok (a, d')
      → Quiet d now w
      → Post (λ _ v. Quiet d' now v) X (ignore (exec pool f >>= λ n. pure (g n)) w)
  ignore_then-Quiet {B} f g a w e h =
      Post-ignore (Quiet d' now) X (exec pool f >>= λ n. pure (g n)) w (
        Post-bind (λ x v. (x ≡ a) × Quiet d' now v) (λ _ v. Quiet d' now v) (λ _ v. Quiet d' now v)
          (exec pool f) (λ n. pure (g n)) w (exec-Quiet d now (λ _ v. Quiet d' now v) f a d' w e h)
          (λ _ _ k. k.1))
