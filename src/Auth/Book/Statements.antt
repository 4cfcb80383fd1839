-- ===== src/Auth/Book/Statements.antt =====
-- What each statement on the refresh tokens and the sessions does to the book.
use order_hub.Base.{
  ℕ, Uuid, Time, String, ◌≡◌, refl, sym, ap, ◌∙◌, Bool, List, [], ◌∷◌, map, arith, ltb,
}
use order_hub.Base.Rows.{update_where, count_where}
use order_hub.Base.Store.{ok_injective, World, ok, Error, pool, exec, ignore, pure}
use order_hub.Base.Post.{Post, Post-bind, Post-exec_pool, Post-ignore}
use order_hub.Auth.Models.{RefreshToken, UserSession, Mail, Db, AuthError, Outside}
use order_hub.Auth.Service.Helpers.{
  draw, count_draw, mailed, send_email, hash_password, draw_digits,
}
use order_hub.Auth.Book.{Book, book, At, exec-At, forget_use, forget_seen, map-touched, map-revoked}
use order_hub.Auth.Repo.Refresh
use order_hub.Auth.Repo.Refresh.{
  touched, touch_row, unrevoked, revoke_row, update_tokens, with_tokens,
}
use order_hub.Auth.Repo.Sessions
use order_hub.Auth.Repo.Sessions.{seen_row, is_session, update_sessions}

abbrev pub revoke_tokens : (RefreshToken → Bool) → Book → Book
revoke_tokens fits s = record s { tokens = update_where fits revoke_row s.tokens }

abbrev pub add_token : RefreshToken → Book → Book
add_token t s = record s { tokens = forget_use t ∷ s.tokens }

map-seen :
    (fits : UserSession → Bool) (at : Time) (rows : List UserSession)
    → map forget_seen (update_where fits (seen_row at) rows) ≡ map forget_seen rows
unfolding update_where
map-seen fits at [] = refl
map-seen fits at (t ∷ rows) = ground (arith, map-seen fits at rows)

count_where-forget :
    (h : String) (rows : List RefreshToken)
    → count_where (unrevoked h) (map forget_use rows) ≡ count_where (unrevoked h) rows
unfolding count_where
count_where-forget h [] = refl
count_where-forget h (t ∷ rows) = ground (arith, count_where-forget h rows)

touch_ok :
    (fits : RefreshToken → Bool) (at : Time) (n : ℕ) (d d' : Db)
    → update_tokens fits (touch_row at) d ≡ ok (n, d')
    → book d' ≡ book d
unfolding update_tokens
touch_ok fits at n d d' e =
    let row : d' ≡ with_tokens (update_where fits (touch_row at) d.refresh_tokens) d =
      ground arith in
    rw (row, map-touched fits at d.refresh_tokens) refl

revoke_ok :
    (h : String) (n : ℕ) (d d' : Db)
    → update_tokens (unrevoked h) revoke_row d ≡ ok (n, d')
    → (n ≡ count_where (unrevoked h) (book d).tokens)
      × (book d' ≡ revoke_tokens (unrevoked h) (book d))
unfolding update_tokens
revoke_ok h n d d' e =
    let row : d' ≡ with_tokens (update_where (unrevoked h) revoke_row d.refresh_tokens) d =
      ground arith in
    let count : n ≡ count_where (unrevoked h) d.refresh_tokens = ground arith in
    (
      rw (count_where-forget h d.refresh_tokens) count,
      rw (row, map-revoked (unrevoked h) d.refresh_tokens (λ t. refl)) refl,
    )

seen_ok :
    (fits : UserSession → Bool) (at : Time) (n : ℕ) (d d' : Db)
    → update_sessions fits (seen_row at) d ≡ ok (n, d')
    → book d' ≡ book d
unfolding update_sessions
seen_ok fits at n d d' e =
    let row : d' ≡ Sessions.with_sessions (update_where fits (seen_row at) d.sessions) d =
      ground arith in
    rw (row, map-seen fits at d.sessions) refl

create_ok :
    (ext : Outside) (t : RefreshToken) (a : Unit {0}) (d d' : Db)
    → Refresh.create_row ext t d ≡ ok (a, d')
    → book d' ≡ add_token (record t { id = d.next_id }) (book d)
unfolding Refresh.create_row
create_ok ext t a d d' e = let row : d' ≡ Refresh.inserted ext t d = ground arith in rw row refl

module _ (s : Book) (now : Time) where
  abbrev pub Still : {A : Type 0} → A → World Db → Type 0
  Still _ v = At s now v

  pub touch-At :
      (X : Error AuthError → World Db → Type 0) (user : Uuid) (h : String) (at : Time)
      (w : World Db)
      → At s now w
      → Post Still X (ignore (Refresh.touch user h at) w)
  unfolding Refresh.touch
  touch-At X user h at w here =
      Post-ignore (λ v. At s now v) X (Refresh.touch user h at) w
        (exec-At s now Still (update_tokens (touched user h) (touch_row at)) (λ _ b. b) w
          (touch_ok (touched user h) at) (λ e v k. k) here)

  pub seen-At :
      (X : Error AuthError → World Db → Type 0) (id : Uuid) (at : Time) (w : World Db)
      → At s now w
      → Post Still X (ignore (Sessions.touch id at) w)
  unfolding Sessions.touch
  seen-At X id at w here =
      Post-ignore (λ v. At s now v) X (Sessions.touch id at) w
        (exec-At s now Still (update_sessions (is_session id) (seen_row at)) (λ _ b. b) w
          (seen_ok (is_session id) at) (λ e v k. k) here)

  -- whether a token was revoked, and the book without it
  abbrev pub Spent : String → Bool → World Db → Type 0
  Spent h done v =
      (done ≡ ltb 0 (count_where (unrevoked h) s.tokens)) × At (revoke_tokens (unrevoked h) s) now v

  pub revoke-At :
      (X : Error AuthError → World Db → Type 0) (h : String) (w : World Db)
      → ((e : Error AuthError) (v : World Db) → At s now v → X e v)
      → At s now w
      → Post (Spent h) X (Refresh.revoke_by_hash_only h w)
  unfolding Refresh.revoke_by_hash_only
  revoke-At X h w fails here =
      Post-bind (λ n v. Spent h (ltb 0 n) v) (Spent h) X
        (exec pool (update_tokens (unrevoked h) revoke_row)) (λ n. pure (ltb 0 n)) w
        (Post-exec_pool _ X (update_tokens (unrevoked h) revoke_row) w
          (λ n d gs e.
            let (count, row) = revoke_ok h n w.db d e in
            (
              ap (λ k. ltb 0 k) count
                  ∙ ap (λ b. ltb 0 (count_where (unrevoked h) b.tokens)) here.reads,
              record {
                reads = row ∙ ap (revoke_tokens (unrevoked h)) here.reads;
                clock = here.clock;
              },
            ))
          (λ e gs.
            fails e (record w { faults = gs }) (record { reads = here.reads; clock = here.clock })))
        (λ n v k. k)

  pub create-At :
      (ext : Outside) (X : Error AuthError → World Db → Type 0) (t : RefreshToken) (w : World Db)
      → ((e : Error AuthError) (v : World Db) → At s now v → X e v)
      → At s now w
      → Post
          (λ _ v. (id : Uuid) × At (add_token (record t { id = id }) s) now v)
          X
          (Refresh.create ext t w)
  unfolding Refresh.create
  create-At ext X t w fails here =
      Post-exec_pool _ X (Refresh.create_row ext t) w
        (λ a d gs e. (
          w.db.next_id,
          record {
            reads =
                create_ok ext t a w.db d e
                ∙ ap (add_token (record t { id = w.db.next_id })) here.reads;
            clock = here.clock;
          },
        ))
        (λ e gs.
          fails e (record w { faults = gs }) (record { reads = here.reads; clock = here.clock }))

  pub draw-At :
      (X : Error AuthError → World Db → Type 0) (w : World Db)
      → ((e : Error AuthError) (v : World Db) → At s now v → X e v)
      → At s now w
      → Post Still X (draw w)
  unfolding draw
  draw-At X w fails here =
      exec-At s now X (λ d. ok (d.drawn, count_draw d)) (λ _ b. b) w
        (λ a d d' e. ap (λ p. book p.1) (sym (ok_injective e))) fails here

  pub mail-At :
      (X : Error AuthError → World Db → Type 0) (m : Mail) (w : World Db)
      → ((e : Error AuthError) (v : World Db) → At s now v → X e v)
      → At s now w
      → Post Still X (send_email m w)
  unfolding send_email
  mail-At X m w fails here =
      exec-At s now X (λ d. ok (tt, mailed m d)) (λ _ b. b) w
        (λ a d d' e. ap (λ p. book p.1) (sym (ok_injective e))) fails here

  pub hash-At :
      (ext : Outside) (X : Error AuthError → World Db → Type 0) (password : String) (w : World Db)
      → ((e : Error AuthError) (v : World Db) → At s now v → X e v)
      → At s now w
      → Post
          (λ h v. ((i : ℕ) × (h ≡ ext.hash_password i password)) × At s now v)
          X
          (hash_password ext password w)
  unfolding hash_password
  hash-At ext X password w fails here =
      Post-bind Still _ X draw (λ i. pure (ext.hash_password i password)) w (draw-At X w fails here)
        (λ i v k. ((i, refl), k))

  pub digits-At :
      (ext : Outside) (X : Error AuthError → World Db → Type 0) (n : ℕ) (w : World Db)
      → ((e : Error AuthError) (v : World Db) → At s now v → X e v)
      → At s now w
      → Post (λ c v. ((i : ℕ) × (c ≡ ext.digits n i)) × At s now v) X (draw_digits ext n w)
  unfolding draw_digits
  digits-At ext X n w fails here =
      Post-bind Still _ X draw (λ i. pure (ext.digits n i)) w (draw-At X w fails here)
        (λ i v k. ((i, refl), k))
