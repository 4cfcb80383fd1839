-- ===== src/Auth/Book.antt =====
-- What the tables of the auth service say once the times of the last use are left out: the abstract state
-- in which the results about the service are stated.
pub mod Statements
use order_hub.Base.{
  Uuid, Time, String, str_eq, ◌≡◌, refl, sym, ap, ◌∙◌, Bool, true, false, not, ◌&&◌, none, List, [],
  ◌∷◌, map, arith, Bool-cases, inl, inr,
}
use order_hub.Base.Rows.{update_where}
use order_hub.Base.Store.{
  catch, fail, service, World, Result, ok, ok_injective, err, database, unavailable, Error, pool,
  mirror, query, exec, ignore,
}
use order_hub.Base.Post.{Post, Post-catch, Post-exec_pool, Post-query, Post-ignore}
use order_hub.Auth.Repo.Refresh.{touch_row, revoke_row}
use order_hub.Auth.Models.{User, RefreshToken, UserSession, Code, Db, AuthError, Run}

abbrev pub forget_use : RefreshToken → RefreshToken
forget_use t = record t { last_used_at = none }

abbrev pub forget_seen : UserSession → UserSession
forget_seen s = record s { last_seen_at = 0 }

pub record Book : Type 0 where
  pub users : List User
  pub tokens : List RefreshToken
  pub sessions : List UserSession
  pub email_verifications : List Code
  pub password_resets : List Code

abbrev pub book : Db → Book
book d = record {
  users = d.users;
  tokens = map forget_use d.refresh_tokens;
  sessions = map forget_seen d.sessions;
  email_verifications = d.email_verifications;
  password_resets = d.password_resets;
}

-- the world's tables read `s`, and its clock `now`
pub record At (s : Book) (now : Time) (w : World Db) : Type 0 where
  pub reads : book w.db ≡ s
  pub clock : w.clock ≡ now

module _ (s : Book) (now : Time) where
  -- A statement that changes the book by `g`, or fails and leaves it.
  pub exec-At :
      {A : Type 0} (X : Error AuthError → World Db → Type 0) (f : Db → Result AuthError (A × Db))
      (g : A → Book → Book) (w : World Db)
      → ((a : A) (d d' : Db) → f d ≡ ok (a, d') → book d' ≡ g a (book d))
      → ((e : Error AuthError) (v : World Db) → At s now v → X e v)
      → At s now w
      → Post (λ a v. At (g a s) now v) X (exec pool f w)
  exec-At X f g w step fails h =
      Post-exec_pool _ X f w
        (λ a d gs e. record { reads = step a w.db d e ∙ ap (g a) h.reads; clock = h.clock })
        (λ e gs. fails e (record w { faults = gs }) (record { reads = h.reads; clock = h.clock }))

  answer-At :
      {A : Type 0} (X : Error AuthError → World Db → Type 0) (r r' : Result AuthError A)
      (v : World Db)
      → r ≡ r'
      → ((e : Error AuthError) → X e v)
      → At s now v
      → Post (λ a u. (r' ≡ ok a) × At s now u) X (r, v)
  answer-At X (ok a) r' v e fails h = (sym e, h)
  answer-At X (err x) r' v e fails h = fails x

  -- A query that the book can answer.
  pub query-At :
      {A : Type 0} (X : Error AuthError → World Db → Type 0) (f : Db → Result AuthError A)
      (g : Book → Result AuthError A) (w : World Db)
      → ((d : Db) → f d ≡ g (book d))
      → ((e : Error AuthError) (v : World Db) → At s now v → X e v)
      → At s now w
      → Post (λ a v. (g s ≡ ok a) × At s now v) X (query pool f w)
  query-At X f g w by_book fails h =
      Post-query _ X pool f w
        (λ gs.
          answer-At X (f w.db) (g s) (record w { faults = gs }) (by_book w.db ∙ ap g h.reads)
            (λ e. fails e (record w { faults = gs }) (record { reads = h.reads; clock = h.clock }))
            (record { reads = h.reads; clock = h.clock }))
        (λ gs.
          fails (database unavailable) (record w { faults = gs })
            (record { reads = h.reads; clock = h.clock }))

module _ (d : Db) (now : Time) where
  -- the tables are `d` and the clock is `now`
  abbrev pub Reads : World Db → Type 0
  Reads v = (v.db ≡ d) × (v.clock ≡ now)

  answer-Reads :
      {A : Type 0} (X : Error AuthError → World Db → Type 0) (r r' : Result AuthError A)
      (v : World Db)
      → r ≡ r'
      → ((e : Error AuthError) → X e v)
      → Reads v
      → Post (λ a u. (r' ≡ ok a) × Reads u) X (r, v)
  answer-Reads X (ok a) r' v e fails h = (sym e, h)
  answer-Reads X (err x) r' v e fails h = fails x

  -- A query answers from the tables that it finds, and changes nothing.
  pub query-Reads :
      {A : Type 0} (X : Error AuthError → World Db → Type 0) (f : Db → Result AuthError A)
      (w : World Db)
      → ((e : Error AuthError) (v : World Db) → Reads v → X e v)
      → Reads w
      → Post (λ a v. (f d ≡ ok a) × Reads v) X (query pool f w)
  query-Reads X f w fails h =
      Post-query _ X pool f w
        (λ gs.
          answer-Reads X (f w.db) (f d) (record w { faults = gs }) (ap f h.0)
            (λ e. fails e (record w { faults = gs }) h) h)
        (λ gs. fails (database unavailable) (record w { faults = gs }) h)

  -- The same where any error of the query is answered by `e`.
  pub catch-Reads :
      {A : Type 0} (X : Error AuthError → World Db → Type 0) (f : Db → Result AuthError A)
      (e : AuthError) (w : World Db)
      → ((x : Error AuthError) (v : World Db) → Reads v → X x v)
      → Reads w
      → Post (λ a v. (f d ≡ ok a) × Reads v) X (catch (query pool f) (λ _. fail (service e)) w)
  catch-Reads {A} X f e w fails h =
      let Q : A → World Db → Type 0 = λ a v. (f d ≡ ok a) × Reads v in
      Post-catch Q Q (λ _ v. Reads v) X (query pool f) (λ _. fail (service e)) w
        (query-Reads (λ _ v. Reads v) f w (λ _ _ k. k) h) (λ _ _ k. k)
        (λ _ v k. fails (service e) v k)

-- A statement whose effect on the tables is known, where it does not fail.
pub exec-Reads :
    {A : Type 0} (d d' : Db) (now : Time) (X : Error AuthError → World Db → Type 0)
    (f : Db → Result AuthError (A × Db)) (a : A) (w : World Db)
    → f d ≡ ok (a, d')
    → ((e : Error AuthError) (v : World Db) → Reads d now v → X e v)
    → Reads d now w
    → Post (λ x v. (x ≡ a) × Reads d' now v) X (exec pool f w)
exec-Reads {A} d d' now X f a w eff fails h =
    Post-exec_pool _ X f w
      (λ x t gs e.
        let same : ◌≡◌ {A = A × Db} (x, t) (a, d') = ok_injective (sym e ∙ ap f h.0 ∙ eff) in
        (ap (λ p. p.0) same, (ap (λ p. p.1) same, h.1)))
      (λ e gs. fails e (record w { faults = gs }) h)

-- What the statements do to the book.
map-touched :
    (fits : RefreshToken → Bool) (at : Time) (rows : List RefreshToken)
    → map forget_use (update_where fits (touch_row at) rows) ≡ map forget_use rows
unfolding update_where
map-touched fits at [] = refl
map-touched fits at (t ∷ rows) = ground (arith, map-touched fits at rows)

-- a test that does not look at the last use
abbrev pub Blind : (RefreshToken → Bool) → Type 0
Blind fits = (t : RefreshToken) → fits (forget_use t) ≡ fits t

pub map-revoked :
    (fits : RefreshToken → Bool) (rows : List RefreshToken)
    → Blind fits
    → map forget_use (update_where fits revoke_row rows)
      ≡ update_where fits revoke_row (map forget_use rows)
unfolding update_where
map-revoked fits [] blind = refl
map-revoked fits (t ∷ rows) blind = ground (arith, blind t, map-revoked fits rows blind)
