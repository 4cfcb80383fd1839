-- ===== src/Auth/LoggingOut.antt =====
-- `Logout`.
use mathlib.Core.Path.{subst}
use order_hub.Base.{
  ℕ, Uuid, Time, String, str_eq, ◌≡◌, refl, sym, ap, ◌∙◌, ◌⊎◌, inl, inr, Bool, true, false, not,
  Option, none, some, List, [], ◌∷◌, map, arith, ltb, Bool-cases, if◌then◌else◌,
}
use order_hub.Base.Rows.{count_where, update_where, first_by}
use order_hub.Base.Store.{
  World, ok, Error, ok_injective, pool, exec, ignore, pure, guard, clock_now, ◌>>=◌, ◌>>◌,
}
use order_hub.Base.Post.{Post, Post-bind, Post-map, Post-mono, Post-guard_then, Post-ignore}
use order_hub.Auth.Models.{
  RefreshToken, UserSession, Db, AuthError, token_not_found_or_revoked, empty_refresh_token, Run,
  Outside,
}
use order_hub.Auth.Repo.Refresh
use order_hub.Auth.Repo.Refresh.{unrevoked, of_user, live_in, id_order, found_token, update_tokens}
use order_hub.Auth.Repo.Sessions
use order_hub.Auth.Repo.Sessions.{open_session, open_of, update_sessions, with_sessions}
use order_hub.Auth.Service.Types.{AuthService}
use order_hub.Auth.Service.Tokens.{close_session, blacklist_access, log_out_with_access_token}
use order_hub.Auth.Book.{Book, book, At, query-At, exec-At, query-Reads, forget_use, forget_seen}
use order_hub.Auth.Book.Statements.{Still, touch-At, Spent, revoke-At}
use order_hub.Auth.Provider.{IsProvider}
use order_hub.Auth.Rotation.{spend, found_token-some}

-- the sessions that fit are revoked
abbrev pub revoke_sessions : (UserSession → Bool) → Book → Book
revoke_sessions fits s = record s { sessions = update_where fits Sessions.revoke_row s.sessions }

map-closed :
    (fits : UserSession → Bool) (rows : List UserSession)
    → ((r : UserSession) → fits (forget_seen r) ≡ fits r)
    → map forget_seen (update_where fits Sessions.revoke_row rows)
      ≡ update_where fits Sessions.revoke_row (map forget_seen rows)
unfolding update_where
map-closed fits [] blind = refl
map-closed fits (r ∷ rows) blind = ground (arith, blind r, map-closed fits rows blind)

closed_ok :
    (fits : UserSession → Bool) (n : ℕ) (d d' : Db)
    → ((r : UserSession) → fits (forget_seen r) ≡ fits r)
    → update_sessions fits Sessions.revoke_row d ≡ ok (n, d')
    → book d' ≡ revoke_sessions fits (book d)
unfolding update_sessions
closed_ok fits n d d' blind e =
    let row : d' ≡ with_sessions (update_where fits Sessions.revoke_row d.sessions) d =
      ground arith in
    rw (row, map-closed fits d.sessions blind) refl

count_live-forget :
    (id : Uuid) (now : Time) (rows : List RefreshToken)
    → count_where (live_in id now) rows ≡ count_where (live_in id now) (map forget_use rows)
unfolding count_where
count_live-forget id now [] = refl
count_live-forget id now (t ∷ rows) = ground (arith, count_live-forget id now rows)

-- The revocation of sessions that fit either took place or failed, and the error is dropped.
abbrev pub ClosedOrNot : (UserSession → Bool) → Book → Time → World Db → Type 0
ClosedOrNot fits s now v = At s now v ⊎ At (revoke_sessions fits s) now v

no_more : (n : ℕ) → ltb 0 n ≡ false → n ≡ 0
no_more n e = ground arith

-- the end of `close_session`
abbrev close_unless : Uuid → Bool → Run (Unit {0})
close_unless id active = if active then pure tt else ignore (Sessions.revoke id)

module _ (s : Book) (now : Time) where
  -- No live token is left in the session, and it is revoked; or nothing is done.
  abbrev pub SessionClosed : Option Uuid → World Db → Type 0
  SessionClosed none v = At s now v
  SessionClosed (some id) v =
      At s now v
      ⊎ ((count_where (live_in id now) s.tokens ≡ 0)
          × At (revoke_sessions (open_session id) s) now v)

  pub close_all-ClosedOrNot :
      (X : Error AuthError → World Db → Type 0) (user : Uuid) (w : World Db)
      → At s now w
      → Post
          (λ _ v. ClosedOrNot (open_of user) s now v)
          X
          (ignore (Sessions.revoke_all_by_user user) w)
  unfolding Sessions.revoke_all_by_user
  close_all-ClosedOrNot X user w here =
      let P : World Db → Type 0 = ClosedOrNot (open_of user) s now in
      Post-ignore P X (Sessions.revoke_all_by_user user) w (
        Post-mono (λ _ v. At (revoke_sessions (open_of user) s) now v) (λ _ v. P v) (λ _ v. P v)
          (Sessions.revoke_all_by_user user w)
          (exec-At s now (λ _ v. P v) (update_sessions (open_of user) Sessions.revoke_row)
            (λ _. revoke_sessions (open_of user)) w
            (λ n d d' e. closed_ok (open_of user) n d d' (λ _. refl) e) (λ _ _ k. inl k) here)
          (λ _ _ k. inr k))

  revoke_session-ClosedOrNot :
      (X : Error AuthError → World Db → Type 0) (id : Uuid) (w : World Db)
      → At s now w
      → Post (λ _ v. ClosedOrNot (open_session id) s now v) X (ignore (Sessions.revoke id) w)
  unfolding Sessions.revoke
  revoke_session-ClosedOrNot X id w here =
      let P : World Db → Type 0 = ClosedOrNot (open_session id) s now in
      Post-ignore P X (Sessions.revoke id) w (
        Post-bind (λ _ v. At (revoke_sessions (open_session id) s) now v) (λ _ v. P v) (λ _ v. P v)
          (exec pool (update_sessions (open_session id) Sessions.revoke_row)) (λ n. pure (ltb 0 n))
          w
          (exec-At s now (λ _ v. P v) (update_sessions (open_session id) Sessions.revoke_row)
            (λ _. revoke_sessions (open_session id)) w
            (λ n d d' e. closed_ok (open_session id) n d d' (λ _. refl) e) (λ _ _ k. inl k) here)
          (λ _ _ k. inr k))

  close_session-SessionClosed :
      (session : Option Uuid) (w : World Db)
      → At s now w
      → Post (λ _ v. SessionClosed session v) (Still s now) (close_session session w)
  unfolding close_session Refresh.has_active_by_session
  close_session-SessionClosed none w here = here
  close_session-SessionClosed (some id) w here =
      let X : Error AuthError → World Db → Type 0 = Still s now in
      let R : Unit {0} → World Db → Type 0 = λ _ v. SessionClosed (some id) v in
      Post-bind _ R X (Refresh.has_active_by_session id w.clock) (close_unless id) w
        (query-At s now X (λ t. ok (ltb 0 (count_where (live_in id w.clock) t.refresh_tokens)))
          (λ b. ok (ltb 0 (count_where (live_in id w.clock) b.tokens))) w
          (λ d. ap (λ n. ok (ltb 0 n)) (count_live-forget id w.clock d.refresh_tokens)) (λ _ _ k. k)
          here)
        (λ active v (a, k). elim (Bool-cases active) [
          | inl more ↦ rw more (inl k)
          | inr last ↦ rw last (
              Post-mono (λ _ u. ClosedOrNot (open_session id) s now u) R X
                (ignore (Sessions.revoke id) v) (revoke_session-ClosedOrNot X id v k)
                (λ _ u c. elim c [
                  | inl same ↦ inl same
                  | inr closed ↦ inr (
                    subst (λ t. count_where (live_in id t) s.tokens ≡ 0) here.clock
                        (no_more (count_where (live_in id w.clock) s.tokens)
                          (ok_injective a ∙ last)),
                    closed,
                  )
                ]))
        ])

-- What a call of `Logout` that returns has done: the token was there and not revoked; every token with its
-- hash is revoked; the session of the token is revoked only if no live token is left in it.
pub record LoggedOut (hash : String) (now : Time) (d : Db) (v : World Db) : Type 0 where
  pub old : RefreshToken
  pub found : first_by id_order (unrevoked hash) d.refresh_tokens ≡ some old
  pub was_there : ltb 0 (count_where (unrevoked hash) (book d).tokens) ≡ true
  pub after : SessionClosed (spend hash (book d)) now old.session_id v

module _ (ext : Outside) (svc : AuthService) (lawful : IsProvider svc.tokens) where
  open lawful use {blacklist_token_keeps}

  blacklist_access-At :
      (s : Book) (now : Time) (X : Error AuthError → World Db → Type 0) (access : String)
      (w : World Db)
      → At s now w
      → Post (Still s now) X (blacklist_access svc access w)
  unfolding blacklist_access
  blacklist_access-At s now X access w here = elim (Bool-cases (str_eq access "")) [
    | inl empty ↦ rw empty here
    | inr given ↦ rw given (
        Post-ignore (λ v. At s now v) X (svc.tokens.blacklist_token access) w
          (blacklist_token_keeps s now access w here))
  ]

  abbrev end_session : RefreshToken → Bool → Run (Unit {0})
  end_session rt done = guard done token_not_found_or_revoked >> close_session rt.session_id

  abbrev spend_token : String → RefreshToken → Run (Unit {0})
  spend_token h rt = Refresh.revoke_by_hash_only h >>= end_session rt

  abbrev log_out_token : String → String → Time → RefreshToken → Run (Unit {0})
  log_out_token access h now rt =
      ignore (Refresh.touch rt.user_id h now) >> (blacklist_access svc access >> spend_token h rt)

  log_out_token-LoggedOut :
      (access h : String) (d : Db) (now : Time) (rt : RefreshToken) (w : World Db)
      → first_by id_order (unrevoked h) d.refresh_tokens ≡ some rt
      → At (book d) now w
      → Post
          (λ _ v. LoggedOut h now d v)
          (λ _ v. (book v.db ≡ book d) ⊎ (book v.db ≡ spend h (book d)))
          (log_out_token access h now rt w)
  log_out_token-LoggedOut access h d now rt w e here =
      let s : Book = book d in
      let Q : Unit {0} → World Db → Type 0 = λ _ v. LoggedOut h now d v in
      let X : Error AuthError → World Db → Type 0 =
        λ _ v. (book v.db ≡ s) ⊎ (book v.db ≡ spend h s) in
      Post-bind (Still s now) Q X (ignore (Refresh.touch rt.user_id h now))
        (λ _. blacklist_access svc access >> spend_token h rt) w
        (touch-At s now X rt.user_id h now w here)
        (λ _ w1 h1.
          Post-bind (Still s now) Q X (blacklist_access svc access) (λ _. spend_token h rt) w1
            (blacklist_access-At s now X access w1 h1)
            (λ _ w2 h2.
              Post-bind (Spent s now h) Q X (Refresh.revoke_by_hash_only h) (end_session rt) w2
                (revoke-At s now X h w2 (λ _ _ k. inl k.reads) h2)
                (λ done w3 (count, h3).
                  Post-guard_then Q X done token_not_found_or_revoked (close_session rt.session_id)
                    w3
                    (λ some_done.
                      Post-map (λ _ v. SessionClosed (spend h s) now rt.session_id v) Q
                        (Still (spend h s) now) X (close_session rt.session_id w3)
                        (close_session-SessionClosed (spend h s) now rt.session_id w3 h3)
                        (λ _ v k. record {
                          old = rt;
                          found = e;
                          was_there = sym count ∙ some_done;
                          after = k;
                        })
                        (λ _ _ k. inr k.reads))
                    (λ _. inr h3.reads))))

  -- Whatever statements fail. Where `Logout`, with an access token or without, returns, the refresh token
  -- that was given was there and not revoked; every token with its hash is revoked, and its session is
  -- revoked only if no live token is left in it; apart from the times of the last use no other row of the
  -- accounts is changed. Where it fails, they are, apart from those times, as they were, or only the
  -- tokens with that hash are revoked. The token provider is to leave the tables alone.
  pub log_out-LoggedOut :
      (opaque access : String) (w : World Db)
      → Post
          (λ _ v. LoggedOut (ext.digest opaque) w.clock w.db v)
          (λ _ v. (book v.db ≡ book w.db) ⊎ (book v.db ≡ spend (ext.digest opaque) (book w.db)))
          (log_out_with_access_token ext svc opaque access w)
  unfolding log_out_with_access_token Refresh.get_by_hash_only
  log_out-LoggedOut opaque access w =
      let h : String = ext.digest opaque in
      let Q : Unit {0} → World Db → Type 0 = λ _ v. LoggedOut h w.clock w.db v in
      let X : Error AuthError → World Db → Type 0 =
        λ _ v. (book v.db ≡ book w.db) ⊎ (book v.db ≡ spend h (book w.db)) in
      Post-guard_then Q X (not (str_eq opaque "")) empty_refresh_token
        (Refresh.get_by_hash_only h >>= λ rt. clock_now >>= λ now. log_out_token access h now rt) w
        (λ _.
          Post-bind _ Q X (Refresh.get_by_hash_only h)
            (λ rt. clock_now >>= λ now. log_out_token access h now rt) w
            (query-Reads w.db w.clock X
              (λ t. found_token (first_by id_order (unrevoked h) t.refresh_tokens)) w
              (λ _ _ k. inl (ap book k.0)) (refl, refl))
            (λ rt v (e, r).
              let done : Post Q X (log_out_token access h w.clock rt v) =
                log_out_token-LoggedOut access h w.db w.clock rt v (found_token-some _ rt e)
                  (record { reads = ap book r.0; clock = r.1 }) in
              subst (λ t. Post Q X (log_out_token access h t rt v)) (sym r.1) done))
        (λ _. inl refl)
