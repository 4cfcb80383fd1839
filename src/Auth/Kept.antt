-- ===== src/Auth/Kept.antt =====
-- The full cleanup, against one filter for each table.
pub mod Filters
use mathlib.Core.Path.{subst}
use order_hub.Base.{
  ◌+◌, ◌*◌, Uuid, Time, ◌≡◌, refl, sym, ap, ◌∙◌, Bool, true, false, not, ◌&&◌, List, [], ◌∷◌, arith,
  ltb, leb,
}
use order_hub.Base.Rows.{delete_where, select_where, any_where}
use order_hub.Base.Store.{World, Error, ◌>>◌}
use order_hub.Base.Post.{Post, Post-bind, Post-mono}
use order_hub.Auth.Models.{RefreshToken, UserSession, Code, Db, AuthError, Run, day}
use order_hub.Auth.Repo.Refresh.{with_tokens, live_in}
use order_hub.Auth.Repo.Sessions.{with_sessions}
use order_hub.Auth.Repo.Codes.{CodeTable, email_verifications, password_resets, codes, with_codes}
use order_hub.Auth.Cleanup.{
  token_expired, code_expired, code_used, orphaned, old_session, delete_tokens, delete_codes,
  delete_sessions, cleanup_expired_tokens, cleanup_consumed_tokens, cleanup_orphaned_sessions,
  cleanup_old_sessions, run_full_cleanup,
}
use order_hub.Auth.Book.{Reads, exec-Reads}
use order_hub.Auth.Kept.Filters.{
  cleaned, cleaned-codes, cleaned-sessions, cleaned-tokens, codes_once, keep_code, keep_session,
  less_codes, less_sessions, less_tokens, sessions_once, tokens_once,
}

module _ (goal : Db) (now : Time) where
  abbrev Resumes : {A : Type 0} → A → World Db → Type 0
  Resumes _ v = cleaned now v.db ≡ goal

  -- the tables are `d`, and the rows that stay are those of the goal
  abbrev Left : Db → World Db → Type 0
  Left d v = (cleaned now d ≡ goal) × Reads d now v

  tokens-Left :
      (d : Db) (w : World Db)
      → Left d w
      → Post (λ _ v. Left (less_tokens now d) v) Resumes (delete_tokens (token_expired now) w)
  unfolding delete_tokens
  tokens-Left d w (same, h) =
      Post-mono _ (λ _ v. Left (less_tokens now d) v) Resumes (delete_tokens (token_expired now) w)
        (exec-Reads d (less_tokens now d) now Resumes _ tt w refl
          (λ _ _ k. ap (cleaned now) k.0 ∙ same) h)
        (λ _ v k. (cleaned-tokens now d ∙ same, k.1))

  codes-Left :
      (table : CodeTable) (f : Code → Bool) (d : Db) (w : World Db)
      → ((c : Code) → f c ≡ true → keep_code now c ≡ false)
      → Left d w
      → Post (λ _ v. Left (less_codes table f d) v) Resumes (delete_codes table f w)
  unfolding delete_codes
  codes-Left table f d w sound (same, h) =
      Post-mono _ (λ _ v. Left (less_codes table f d) v) Resumes (delete_codes table f w)
        (exec-Reads d (less_codes table f d) now Resumes _ tt w refl
          (λ _ _ k. ap (cleaned now) k.0 ∙ same) h)
        (λ _ v k. (cleaned-codes now table f d sound ∙ same, k.1))

  sessions-Left :
      (f : List RefreshToken → UserSession → Bool) (d : Db) (w : World Db)
      → ((s : UserSession)
          → f d.refresh_tokens s ≡ true
          → keep_session now d.refresh_tokens s ≡ false)
      → Left d w
      → Post (λ _ v. Left (less_sessions f d) v) Resumes (delete_sessions f w)
  unfolding delete_sessions
  sessions-Left f d w sound (same, h) =
      Post-mono _ (λ _ v. Left (less_sessions f d) v) Resumes (delete_sessions f w)
        (exec-Reads d (less_sessions f d) now Resumes _ tt w refl
          (λ _ _ k. ap (cleaned now) k.0 ∙ same) h)
        (λ _ v k. (cleaned-sessions now f d sound ∙ same, k.1))

expired_out : (now : Time) (c : Code) → code_expired now c ≡ true → keep_code now c ≡ false
expired_out now c e = ground arith

used_out : (now : Time) (c : Code) → code_used now c ≡ true → keep_code now c ≡ false
used_out now c e = ground arith

orphan_out :
    (now : Time) (tokens : List RefreshToken) (s : UserSession)
    → orphaned now tokens s ≡ true
    → keep_session now tokens s ≡ false
orphan_out now tokens s e = ground arith

old_out :
    (now : Time) (tokens : List RefreshToken) (s : UserSession)
    → old_session now s ≡ true
    → keep_session now tokens s ≡ false
old_out now tokens s e = ground arith

abbrev after_expired : Time → Db → Db
after_expired now d =
    less_codes email_verifications (code_expired now)
      (less_codes password_resets (code_expired now) (less_tokens now d))

abbrev after_consumed : Time → Db → Db
after_consumed now d =
    less_codes email_verifications (code_used now) (less_codes password_resets (code_used now) d)

abbrev after_all : Time → Db → Db
after_all now d =
    less_sessions (λ _. old_session now)
      (less_sessions (orphaned now) (after_consumed now (after_expired now d)))

after_all-cleaned : (now : Time) (d : Db) → after_all now d ≡ cleaned now d
after_all-cleaned now d =
    rw
      (
        codes_once now d.email_verifications,
        codes_once now d.password_resets,
        sessions_once now d.refresh_tokens d.sessions,
        tokens_once now d.refresh_tokens,
      )
      refl

abbrev expired_body : Time → Run (Unit {0})
expired_body t =
    delete_tokens (token_expired t)
    >> (delete_codes password_resets (code_expired t)
        >> delete_codes email_verifications (code_expired t))

abbrev consumed_body : Time → Run (Unit {0})
consumed_body t =
    delete_codes password_resets (code_used t) >> delete_codes email_verifications (code_used t)

module _ (goal : Db) (now : Time) where
  abbrev Fails : {A : Type 0} → A → World Db → Type 0
  Fails = Resumes goal now

  expired-Left :
      (d : Db) (w : World Db)
      → Left goal now d w
      → Post (λ _ v. Left goal now (after_expired now d) v) Fails (cleanup_expired_tokens w)
  unfolding cleanup_expired_tokens
  expired-Left d w h =
      let R : Unit {0} → World Db → Type 0 = λ _ v. Left goal now (after_expired now d) v in
      let run : Post R Fails (expired_body now w) =
        Post-bind _ R Fails (delete_tokens (token_expired now))
          (λ _.
            delete_codes password_resets (code_expired now)
            >> delete_codes email_verifications (code_expired now))
          w (tokens-Left goal now d w h)
          (λ _ v k.
            Post-bind _ R Fails (delete_codes password_resets (code_expired now))
              (λ _. delete_codes email_verifications (code_expired now)) v
              (codes-Left goal now password_resets (code_expired now) (less_tokens now d) v
                (expired_out now) k)
              (λ _ u l.
                codes-Left goal now email_verifications (code_expired now)
                  (less_codes password_resets (code_expired now) (less_tokens now d)) u
                  (expired_out now) l)) in
      subst (λ t. Post R Fails (expired_body t w)) (sym h.1.1) run

  consumed-Left :
      (d : Db) (w : World Db)
      → Left goal now d w
      → Post (λ _ v. Left goal now (after_consumed now d) v) Fails (cleanup_consumed_tokens w)
  unfolding cleanup_consumed_tokens
  consumed-Left d w h =
      let R : Unit {0} → World Db → Type 0 = λ _ v. Left goal now (after_consumed now d) v in
      let run : Post R Fails (consumed_body now w) =
        Post-bind _ R Fails (delete_codes password_resets (code_used now))
          (λ _. delete_codes email_verifications (code_used now)) w
          (codes-Left goal now password_resets (code_used now) d w (used_out now) h)
          (λ _ v k.
            codes-Left goal now email_verifications (code_used now)
              (less_codes password_resets (code_used now) d) v (used_out now) k) in
      subst (λ t. Post R Fails (consumed_body t w)) (sym h.1.1) run

  orphaned-Left :
      (d : Db) (w : World Db)
      → Left goal now d w
      → Post
          (λ _ v. Left goal now (less_sessions (orphaned now) d) v)
          Fails
          (cleanup_orphaned_sessions w)
  unfolding cleanup_orphaned_sessions
  orphaned-Left d w h =
      let R : Unit {0} → World Db → Type 0 =
        λ _ v. Left goal now (less_sessions (orphaned now) d) v in
      subst (λ t. Post R Fails (delete_sessions (orphaned t) w)) (sym h.1.1)
        (sessions-Left goal now (orphaned now) d w (orphan_out now d.refresh_tokens) h)

  old-Left :
      (d : Db) (w : World Db)
      → Left goal now d w
      → Post
          (λ _ v. Left goal now (less_sessions (λ _. old_session now) d) v)
          Fails
          (cleanup_old_sessions w)
  unfolding cleanup_old_sessions
  old-Left d w h =
      let R : Unit {0} → World Db → Type 0 =
        λ _ v. Left goal now (less_sessions (λ _. old_session now) d) v in
      subst (λ t. Post R Fails (delete_sessions (λ _. old_session t) w)) (sym h.1.1)
        (sessions-Left goal now (λ _. old_session now) d w (old_out now d.refresh_tokens) h)

-- Whatever statements fail. Where `RunFullCleanup` returns, each table holds what one filter leaves of
-- it: the refresh tokens that have not expired; the codes that have not expired and are not both
-- consumed and older than a day; the sessions that were seen in the last 30 days and have a token that is
-- neither revoked nor expired; users, keys and all else are as they were. Where it fails, the same
-- filters on what is left give the same tables, so that nothing they would keep is lost and a later run
-- completes the work.
pub run_full_cleanup-cleaned :
    (w : World Db)
    → Post
        (λ _ v. v.db ≡ cleaned w.clock w.db)
        (λ _ v. cleaned w.clock v.db ≡ cleaned w.clock w.db)
        (run_full_cleanup w)
unfolding run_full_cleanup
run_full_cleanup-cleaned w =
    let now : Time = w.clock in
    let d : Db = w.db in
    let goal : Db = cleaned now d in
    let Q : Unit {0} → World Db → Type 0 = λ _ v. v.db ≡ goal in
    let X : Error AuthError → World Db → Type 0 = Fails goal now in
    Post-bind _ Q X cleanup_expired_tokens
      (λ _. cleanup_consumed_tokens >> (cleanup_orphaned_sessions >> cleanup_old_sessions)) w
      (expired-Left goal now d w (refl, (refl, refl)))
      (λ _ w1 h1.
        Post-bind _ Q X cleanup_consumed_tokens
          (λ _. cleanup_orphaned_sessions >> cleanup_old_sessions) w1
          (consumed-Left goal now (after_expired now d) w1 h1)
          (λ _ w2 h2.
            Post-bind _ Q X cleanup_orphaned_sessions (λ _. cleanup_old_sessions) w2
              (orphaned-Left goal now (after_consumed now (after_expired now d)) w2 h2)
              (λ _ w3 h3.
                Post-mono _ Q X (cleanup_old_sessions w3)
                  (old-Left goal now
                    (less_sessions (orphaned now) (after_consumed now (after_expired now d))) w3 h3)
                  (λ _ v k. k.1.0 ∙ after_all-cleaned now d))))
