-- ===== src/Auth/ResetReturns.antt =====
-- `ConfirmPasswordReset` where no statement fails.
use mathlib.Core.Path.{subst}
use order_hub.Base.{
  true, Bool, ℕ, Uuid, Time, String, ◌≡◌, refl, sym, ap, ◌∙◌, some, List, [], ◌∷◌, arith, ltb, not,
  ◌&&◌, ◌==◌, false,
}
use order_hub.Base.Rows.{find_where, first_by, update_where, delete_where, count_where, any_where}
use order_hub.Base.Store.{
  World, Result, ok, service, Error, pool, exec, query, ignore, pure, fail, catch, ◌>>=◌, ◌>>◌,
}
use order_hub.Base.Post.{Post, Post-bind, Post-mono, Post-catch}
use order_hub.Base.Quiet.{Quiet, exec-Quiet, query-Quiet, ignore-Quiet, ignore_then-Quiet}
use order_hub.Auth.Models.{
  User, RefreshToken, UserSession, Code, Db, AuthError, not_found, invalid_or_expired_code,
  repo_not_found, Run, Outside,
}
use order_hub.Auth.Repo.Users
use order_hub.Auth.Repo.Users.{has_id, password_row, with_users}
use order_hub.Auth.Repo.Refresh
use order_hub.Auth.Repo.Refresh.{with_tokens}
use order_hub.Auth.Repo.Sessions
use order_hub.Auth.Repo.Sessions.{with_sessions, open_of}
use order_hub.Auth.Repo.Codes
use order_hub.Auth.Repo.Codes.{
  password_resets, valid, id_order, found_code, unconsumed, consume_row, with_codes,
}
use order_hub.Auth.Service.Helpers.{draw, count_draw, hash_password}
use order_hub.Auth.Service.Resets.{confirm_password_reset}
use order_hub.Auth.Resetting.{forget_all, set_password, with_reset, with_reset_user}

abbrev unconsumed_rows : Uuid → List Code → List Code
unconsumed_rows id rows = update_where (unconsumed id) consume_row rows

none_left_of :
    (user id : Uuid) (rows : List Code)
    → count_where (Codes.of_user user) (delete_where (Codes.of_user user) (unconsumed_rows id rows))
      ≡ 0
unfolding count_where delete_where update_where
none_left_of user id [] = refl
none_left_of user id (c ∷ rows) = ground (arith, none_left_of user id rows)

-- no code of another user has the identifier
abbrev pub IsOwnCode : Uuid → Uuid → List Code → Type 0
IsOwnCode user id rows =
    any_where (λ (c : Code). c.id == id && not (c.user_id == user)) rows ≡ false

others_left :
    (user id : Uuid) (rows : List Code)
    → IsOwnCode user id rows
    → delete_where (Codes.of_user user) (unconsumed_rows id rows)
      ≡ delete_where (λ (c : Code). c.user_id == user) rows
unfolding any_where delete_where update_where
others_left user id [] own = refl
others_left user id (c ∷ rows) own = ground (arith, others_left user id rows)

none_unrevoked :
    (user : Uuid) (rows : List RefreshToken)
    → count_where
        (Refresh.of_user user)
        (update_where (Refresh.of_user user) Refresh.revoke_row rows)
      ≡ 0
unfolding count_where update_where
none_unrevoked user [] = refl
none_unrevoked user (t ∷ rows) = ground (arith, none_unrevoked user rows)

none_open :
    (user : Uuid) (rows : List UserSession)
    → count_where (open_of user) (update_where (open_of user) Sessions.revoke_row rows) ≡ 0
unfolding count_where update_where
none_open user [] = refl
none_open user (s ∷ rows) = ground (arith, none_open user rows)

-- the tables after each of the last four statements
module _ (reset : Code) (user : Uuid) where
  abbrev consumed : Db → Db
  consumed d = with_codes password_resets (unconsumed_rows reset.id d.password_resets) d

  abbrev tokens_out : Db → Db
  tokens_out d =
      with_tokens (update_where (Refresh.of_user user) Refresh.revoke_row d.refresh_tokens) d

  abbrev sessions_out : Db → Db
  sessions_out d = with_sessions (update_where (open_of user) Sessions.revoke_row d.sessions) d

  abbrev codes_out : Db → Db
  codes_out d = with_codes password_resets (delete_where (Codes.of_user user) d.password_resets) d

  abbrev pub forgotten : Db → Db
  forgotten d = codes_out (sessions_out (tokens_out (consumed d)))

forget_all-forgotten :
    (d : Db) (now : Time) (X : Error AuthError → World Db → Type 0) (reset : Code) (user : User)
    (w : World Db)
    → Quiet d now w
    → Post (λ _ v. Quiet (forgotten reset user.id d) now v) X (forget_all reset user w)
unfolding Codes.consume Codes.consume_rows Refresh.revoke_all Refresh.update_tokens
    Sessions.revoke_all_by_user Sessions.update_sessions Codes.delete_all_for_user Codes.delete_rows
forget_all-forgotten d now X reset user w h =
    let d1 : Db = consumed reset user.id d in
    let d2 : Db = tokens_out reset user.id d1 in
    let d3 : Db = sessions_out reset user.id d2 in
    let d4 : Db = codes_out reset user.id d3 in
    let R : Unit {0} → World Db → Type 0 = λ _ v. Quiet d4 now v in
    Post-bind (λ _ v. Quiet d1 now v) R X (ignore (Codes.consume password_resets reset.id))
      (λ _.
        ignore (Refresh.revoke_all user.id)
        >> (ignore (Sessions.revoke_all_by_user user.id)
            >> ignore (Codes.delete_all_for_user password_resets user.id)))
      w
      (ignore_then-Quiet d d1 now X (Codes.consume_rows password_resets reset.id) (λ n. ltb 0 n) _ w
        refl h)
      (λ _ w1 h1.
        Post-bind (λ _ v. Quiet d2 now v) R X (ignore (Refresh.revoke_all user.id))
          (λ _.
            ignore (Sessions.revoke_all_by_user user.id)
            >> ignore (Codes.delete_all_for_user password_resets user.id))
          w1
          (ignore-Quiet d1 d2 now X
            (Refresh.update_tokens (Refresh.of_user user.id) Refresh.revoke_row) _ w1 refl h1)
          (λ _ w2 h2.
            Post-bind (λ _ v. Quiet d3 now v) R X (ignore (Sessions.revoke_all_by_user user.id))
              (λ _. ignore (Codes.delete_all_for_user password_resets user.id)) w2
              (ignore-Quiet d2 d3 now X
                (Sessions.update_sessions (open_of user.id) Sessions.revoke_row) _ w2 refl h2)
              (λ _ w3 h3.
                ignore-Quiet d3 d4 now X (Codes.delete_rows password_resets (Codes.of_user user.id))
                  _ w3 refl h3)))

-- the tables once the password is set
abbrev pub password_set : Outside → String → Time → User → Db → Db
password_set ext new_password now user d =
    with_users
      (update_where (has_id user.id) (password_row (ext.hash_password d.drawn new_password) now)
        d.users)
      (count_draw d)

-- what is not revoked of the user
abbrev pub holds_token : Uuid → RefreshToken → Bool
holds_token user t = t.user_id == user && not t.revoked

abbrev pub holds_session : Uuid → UserSession → Bool
holds_session user s = s.user_id == user && not s.revoked

-- The password is changed, and nothing that the user held before is of use: no refresh token that is not
-- revoked, no session, no reset code. Those of other users are as they were.
pub record ResetDone (ext : Outside) (new_password : String) (now : Time) (user : User) (d d' : Db)
    : Type 0 where
  pub users :
      d'.users
      ≡ update_where
          (λ u. u.id == user.id)
          (λ u. record u { password = ext.hash_password d.drawn new_password; updated_at = now })
          d.users
  pub no_token : count_where (holds_token user.id) d'.refresh_tokens ≡ 0
  pub tokens :
      d'.refresh_tokens
      ≡ update_where (holds_token user.id) (λ t. record t { revoked = true }) d.refresh_tokens
  pub no_session : count_where (holds_session user.id) d'.sessions ≡ 0
  pub sessions :
      d'.sessions
      ≡ update_where (holds_session user.id) (λ t. record t { revoked = true }) d.sessions
  pub no_code : count_where (λ (c : Code). c.user_id == user.id) d'.password_resets ≡ 0
  pub codes :
      d'.password_resets ≡ delete_where (λ (c : Code). c.user_id == user.id) d.password_resets
  pub verifications : d'.email_verifications ≡ d.email_verifications

module _ (ext : Outside) (code new_password : String) (d : Db) (now : Time) where
  abbrev Done : User → {A : Type 0} → A → World Db → Type 0
  Done user _ v = ResetDone ext new_password now user d v.db

  abbrev Never : {A : Type 0} → A → World Db → Type 0
  Never _ _ = ⊥

  set_password-Done :
      (reset : Code) (user : User) (w : World Db)
      → IsOwnCode user.id reset.id d.password_resets
      → Quiet (count_draw d) now w
      → Post (Done user) Never (set_password reset user (ext.hash_password d.drawn new_password) w)
  unfolding Users.update_password Users.update_users
  set_password-Done reset user w own h =
      let hash : String = ext.hash_password d.drawn new_password in
      let d1 : Db = count_draw d in
      let d2 : Db = password_set ext new_password now user d in
      let d3 : Db = forgotten reset user.id d2 in
      let set : Time → Run (Unit {0}) =
        λ t. exec pool (Users.update_users (has_id user.id) (password_row hash t)) in
      Post-bind (λ a v. (a ≡ tt) × Quiet d2 now v) (Done user) Never
        (Users.update_password (record user { password = hash })) (λ _. forget_all reset user) w
        (subst (λ t. Post (λ a v. (a ≡ tt) × Quiet d2 now v) Never (set t w)) (sym h.clock)
          (exec-Quiet d1 now Never (Users.update_users (has_id user.id) (password_row hash now)) tt
            d2 w refl h))
        (λ _ w1 k.
          Post-mono (λ _ v. Quiet d3 now v) (Done user) Never (forget_all reset user w1)
            (forget_all-forgotten d2 now Never reset user w1 k.1)
            (λ _ v q. record {
              users = ap (λ t. t.users) q.tables;
              no_token =
                  ap (λ t. count_where (Refresh.of_user user.id) t.refresh_tokens) q.tables
                  ∙ none_unrevoked user.id d.refresh_tokens;
              tokens = ap (λ t. t.refresh_tokens) q.tables;
              no_session =
                  ap (λ t. count_where (open_of user.id) t.sessions) q.tables
                  ∙ none_open user.id d.sessions;
              sessions = ap (λ t. t.sessions) q.tables;
              no_code =
                  ap (λ t. count_where (Codes.of_user user.id) t.password_resets) q.tables
                  ∙ none_left_of user.id reset.id d.password_resets;
              codes =
                  ap (λ t. t.password_resets) q.tables
                  ∙ others_left user.id reset.id d.password_resets own;
              verifications = ap (λ t. t.email_verifications) q.tables;
            }))

  with_reset_user-Done :
      (reset : Code) (user : User) (w : World Db)
      → IsOwnCode user.id reset.id d.password_resets
      → Quiet d now w
      → Post (Done user) Never (with_reset_user ext code new_password reset (some user) w)
  unfolding hash_password draw
  with_reset_user-Done reset user w own h =
      let hash : String = ext.hash_password d.drawn new_password in
      let count : Db → Result AuthError (ℕ × Db) = λ t. ok (t.drawn, count_draw t) in
      let hashed : Run String = exec pool count >>= λ i. pure (ext.hash_password i new_password) in
      let Q : String → World Db → Type 0 = λ x v. (x ≡ hash) × Quiet (count_draw d) now v in
      Post-bind Q (Done user) Never hashed (set_password reset user) w
        (Post-bind (λ i v. (i ≡ d.drawn) × Quiet (count_draw d) now v) Q Never (exec pool count)
          (λ i. pure (ext.hash_password i new_password)) w
          (exec-Quiet d now Never count d.drawn (count_draw d) w refl h)
          (λ i v (e, k). (ap (λ n. ext.hash_password n new_password) e, k)))
        (λ x v (e, k).
          subst (λ t. Post (Done user) Never (set_password reset user t v)) (sym e)
            (set_password-Done reset user v own k))

  catch-Quiet :
      {A : Type 0} (f : Db → Result AuthError A) (e : AuthError) (a : A) (w : World Db)
      → f d ≡ ok a
      → Quiet d now w
      → Post (λ x v. (x ≡ a) × Quiet d now v) Never (catch (query pool f) (λ _. fail (service e)) w)
  catch-Quiet {A} f e a w found h =
      let Q : A → World Db → Type 0 = λ x v. (x ≡ a) × Quiet d now v in
      Post-catch Q Q Never Never (query pool f) (λ _. fail (service e)) w
        (query-Quiet d now Never f a w found h) (λ _ _ k. k) (λ _ _ k. absurd k)

-- Where no statement fails, and a reset code that is neither consumed nor expired has the hash of the code that
-- is given, its user is there, and no code of another user has its identifier: `ConfirmPasswordReset` returns. The user's password is then a hash of the
-- new one; no refresh token of the user is left that is not revoked, no session that is not revoked,
-- and no reset code; the users, tokens, sessions and reset codes of others are as before.
pub confirm_password_reset-ResetDone :
    (ext : Outside) (code new_password : String) (reset : Code) (user : User) (w : World Db)
    → w.faults ≡ []
    → first_by id_order (valid (ext.digest code) w.clock) w.db.password_resets ≡ some reset
    → find_where (has_id reset.user_id) w.db.users ≡ some user
    → IsOwnCode user.id reset.id w.db.password_resets
    → Post
        (λ _ v. ResetDone ext new_password w.clock user w.db v.db)
        (λ _ _. ⊥)
        (confirm_password_reset ext code new_password w)
unfolding confirm_password_reset Codes.get_valid_by_hash Users.get_by_id
confirm_password_reset-ResetDone ext code new_password reset user w quiet found owner own =
    let d : Db = w.db in
    let now : Time = w.clock in
    let valid_code : Db → Result AuthError Code = λ t.
      found_code repo_not_found
        (first_by id_order (valid (ext.digest code) now) t.password_resets) in
    let Q : Unit {0} → World Db → Type 0 = Done ext code new_password d now user in
    let X : Error AuthError → World Db → Type 0 = Never ext code new_password d now in
    Post-bind (λ c v. (c ≡ reset) × Quiet d now v) Q X
      (catch (Codes.get_valid_by_hash password_resets (ext.digest code) now)
        (λ _. fail (service invalid_or_expired_code)))
      (with_reset ext code new_password) w
      (catch-Quiet ext code new_password d now valid_code invalid_or_expired_code reset w
        (ap (found_code repo_not_found) found)
        (record { tables = refl; clock = refl; quiet = quiet }))
      (λ c w1 (e, h1).
        subst (λ r. Post Q X (with_reset ext code new_password r w1)) (sym e)
          (Post-bind (λ o v. (o ≡ some user) × Quiet d now v) Q X
            (catch (Users.get_by_id reset.user_id) (λ _. fail (service not_found)))
            (with_reset_user ext code new_password reset) w1
            (catch-Quiet ext code new_password d now
              (λ t. ok (find_where (has_id reset.user_id) t.users)) not_found (some user) w1
              (ap ok owner) h1)
            (λ o w2 (f, h2).
              subst (λ r. Post Q X (with_reset_user ext code new_password reset r w2)) (sym f)
                (with_reset_user-Done ext code new_password d now reset user w2 own h2))))
