-- ===== src/Auth/Resetting.antt =====
-- `ConfirmPasswordReset`.
use mathlib.Core.Path.{subst}
use order_hub.Base.{
  ℕ, Uuid, Time, String, ◌≡◌, refl, sym, ap, ◌∙◌, Option, none, some, List, ltb, ◌==◌,
}
use order_hub.Base.Rows.{find_where, first_by, update_where}
use order_hub.Base.Store.{
  World, Result, ok, service, Error, ok_injective, pool, exec, ignore, pure, fail, catch, ◌>>=◌,
  ◌>>◌,
}
use order_hub.Base.Post.{Post, Post-bind, Post-mono, Post-ignore, Post-exec_pool}
use order_hub.Auth.Models.{
  User, Code, Db, AuthError, not_found, invalid_or_expired_code, repo_not_found, Run, Outside,
}
use order_hub.Auth.Repo.Users
use order_hub.Auth.Repo.Users.{has_id, password_row, with_users}
use order_hub.Auth.Repo.Refresh
use order_hub.Auth.Repo.Sessions
use order_hub.Auth.Repo.Codes
use order_hub.Auth.Repo.Codes.{password_resets, valid, id_order, found_code}
use order_hub.Auth.Service.Helpers.{hash_password, found_user}
use order_hub.Auth.Service.Resets.{confirm_password_reset}
use order_hub.Auth.Book.{book, At, Reads, catch-Reads}
use order_hub.Auth.Book.Statements.{hash-At}

-- What a call of `ConfirmPasswordReset` that returns has done to the passwords: a valid code was there, its
-- user too, and that user's password is a hash of the new one.
pub record PasswordChanged (ext : Outside) (code new_password : String) (now : Time) (d d' : Db)
    : Type 0 where
  pub reset : Code
  pub user : User
  pub salt : ℕ
  pub found : first_by id_order (valid (ext.digest code) now) d.password_resets ≡ some reset
  pub owner : find_where (has_id reset.user_id) d.users ≡ some user
  pub users :
      d'.users
      ≡ update_where
          (λ u. u.id == user.id)
          (λ u. record u { password = ext.hash_password salt new_password; updated_at = now })
          d.users
  pub verifications : d'.email_verifications ≡ d.email_verifications

-- the users and the codes that verify emails
abbrev Same : List User → List Code → Db → Type 0
Same us vs d = (d.users ≡ us) × (d.email_verifications ≡ vs)

-- A statement on other tables, whose error is dropped.
exec-Same :
    {A : Type 0} (us : List User) (vs : List Code) (X : Error AuthError → World Db → Type 0)
    (f : Db → Result AuthError (A × Db)) (w : World Db)
    → ((a : A) (d d' : Db) → f d ≡ ok (a, d') → Same us vs d → Same us vs d')
    → Same us vs w.db
    → Post (λ _ v. Same us vs v.db) (λ _ v. Same us vs v.db) (exec pool f w)
exec-Same us vs X f w keeps h = Post-exec_pool _ _ f w (λ a d gs e. keeps a w.db d e h) (λ _ _. h)

module _ (us : List User) (vs : List Code) where
  abbrev Kept : {A : Type 0} → A → World Db → Type 0
  Kept _ v = Same us vs v.db

  consume-Same :
      (X : Error AuthError → World Db → Type 0) (id : Uuid) (w : World Db)
      → Same us vs w.db
      → Post Kept X (ignore (Codes.consume password_resets id) w)
  unfolding Codes.consume Codes.consume_rows
  consume-Same X id w h =
      Post-ignore (λ v. Same us vs v.db) X (Codes.consume password_resets id) w
        (Post-bind Kept Kept Kept (exec pool (Codes.consume_rows password_resets id))
          (λ n. pure (ltb 0 n)) w
          (exec-Same us vs X (Codes.consume_rows password_resets id) w
            (λ a d d' e s. subst (λ t. Same us vs t) (ap (λ p. p.1) (ok_injective e)) s) h)
          (λ _ _ k. k))

  revoke-Same :
      (X : Error AuthError → World Db → Type 0) (user : Uuid) (w : World Db)
      → Same us vs w.db
      → Post Kept X (ignore (Refresh.revoke_all user) w)
  unfolding Refresh.revoke_all Refresh.update_tokens
  revoke-Same X user w h =
      Post-ignore (λ v. Same us vs v.db) X (Refresh.revoke_all user) w
        (exec-Same us vs X (Refresh.update_tokens (Refresh.of_user user) Refresh.revoke_row) w
          (λ a d d' e s. subst (λ t. Same us vs t) (ap (λ p. p.1) (ok_injective e)) s) h)

  close-Same :
      (X : Error AuthError → World Db → Type 0) (user : Uuid) (w : World Db)
      → Same us vs w.db
      → Post Kept X (ignore (Sessions.revoke_all_by_user user) w)
  unfolding Sessions.revoke_all_by_user Sessions.update_sessions
  close-Same X user w h =
      Post-ignore (λ v. Same us vs v.db) X (Sessions.revoke_all_by_user user) w
        (exec-Same us vs X (Sessions.update_sessions (Sessions.open_of user) Sessions.revoke_row) w
          (λ a d d' e s. subst (λ t. Same us vs t) (ap (λ p. p.1) (ok_injective e)) s) h)

  delete-Same :
      (X : Error AuthError → World Db → Type 0) (user : Uuid) (w : World Db)
      → Same us vs w.db
      → Post Kept X (ignore (Codes.delete_all_for_user password_resets user) w)
  unfolding Codes.delete_all_for_user Codes.delete_rows
  delete-Same X user w h =
      Post-ignore (λ v. Same us vs v.db) X (Codes.delete_all_for_user password_resets user) w
        (exec-Same us vs X (Codes.delete_rows password_resets (Codes.of_user user)) w
          (λ a d d' e s. subst (λ t. Same us vs t) (ap (λ p. p.1) (ok_injective e)) s) h)

-- what follows the new password
abbrev pub forget_all : Code → User → Run (Unit {0})
forget_all reset user =
    ignore (Codes.consume password_resets reset.id)
    >> (ignore (Refresh.revoke_all user.id)
        >> (ignore (Sessions.revoke_all_by_user user.id)
            >> ignore (Codes.delete_all_for_user password_resets user.id)))

abbrev pub set_password : Code → User → String → Run (Unit {0})
set_password reset user hash =
    Users.update_password (record user { password = hash }) >> forget_all reset user

forget_all-Same :
    (us : List User) (vs : List Code) (X : Error AuthError → World Db → Type 0) (reset : Code)
    (user : User) (w : World Db)
    → Same us vs w.db
    → Post (Kept us vs) X (forget_all reset user w)
forget_all-Same us vs X reset user w h =
    let R : Unit {0} → World Db → Type 0 = Kept us vs in
    Post-bind R R X (ignore (Codes.consume password_resets reset.id))
      (λ _.
        ignore (Refresh.revoke_all user.id)
        >> (ignore (Sessions.revoke_all_by_user user.id)
            >> ignore (Codes.delete_all_for_user password_resets user.id)))
      w (consume-Same us vs X reset.id w h)
      (λ _ w1 h1.
        Post-bind R R X (ignore (Refresh.revoke_all user.id))
          (λ _.
            ignore (Sessions.revoke_all_by_user user.id)
            >> ignore (Codes.delete_all_for_user password_resets user.id))
          w1 (revoke-Same us vs X user.id w1 h1)
          (λ _ w2 h2.
            Post-bind R R X (ignore (Sessions.revoke_all_by_user user.id))
              (λ _. ignore (Codes.delete_all_for_user password_resets user.id)) w2
              (close-Same us vs X user.id w2 h2) (λ _ w3 h3. delete-Same us vs X user.id w3 h3)))

found_code-some : (e : AuthError) (o : Option Code) (c : Code) → found_code e o ≡ ok c → o ≡ some c
found_code-some e none c h = cc
found_code-some e (some x) c h = ap some (ok_injective h)

module _ (ext : Outside) (code new_password : String) where
  abbrev pub with_reset_user : Code → Option User → Run (Unit {0})
  with_reset_user reset found =
      found_user found >>= λ user. hash_password ext new_password >>= set_password reset user

  abbrev pub with_reset : Code → Run (Unit {0})
  with_reset reset =
      catch (Users.get_by_id reset.user_id) (λ _. fail (service not_found))
      >>= with_reset_user reset

  module _ (d : Db) (now : Time) where
    abbrev Unchanged : {A : Type 0} → A → World Db → Type 0
    Unchanged _ v = book v.db ≡ book d

    abbrev Changed : {A : Type 0} → A → World Db → Type 0
    Changed _ v = PasswordChanged ext code new_password now d v.db

    changed_lem :
        (reset : Code) (user : User) (salt : ℕ) (w : World Db)
        → first_by id_order (valid (ext.digest code) now) d.password_resets ≡ some reset
        → find_where (has_id reset.user_id) d.users ≡ some user
        → At (book d) now w
        → Post Changed Unchanged (set_password reset user (ext.hash_password salt new_password) w)
    unfolding Users.update_password Users.update_users
    changed_lem reset user salt w e f here =
        let hash : String = ext.hash_password salt new_password in
        let set : Time → List User → List User =
          λ t rows. update_where (has_id user.id) (password_row hash t) rows in
        let us : List User = set now d.users in
        let vs : List Code = d.email_verifications in
        Post-bind (Kept us vs) Changed Unchanged
          (Users.update_password (record user { password = hash })) (λ _. forget_all reset user) w
          (Post-exec_pool _ Unchanged
            (Users.update_users (has_id user.id) (password_row hash w.clock)) w
            (λ a t gs eff.
              let row : with_users (set w.clock w.db.users) w.db ≡ t =
                ap (λ p. p.1) (ok_injective eff) in
              (
                ap (λ x. x.users) (sym row)
                    ∙ ap (λ c. set c w.db.users) here.clock
                    ∙ ap (λ b. set now b.users) here.reads,
                ap (λ x. x.email_verifications) (sym row)
                    ∙ ap (λ b. b.email_verifications) here.reads,
              ))
            (λ _ _. here.reads))
          (λ _ w1 same.
            Post-mono (Kept us vs) Changed Unchanged (forget_all reset user w1)
              (forget_all-Same us vs Unchanged reset user w1 same)
              (λ _ v k. record {
                reset = reset;
                user = user;
                salt = salt;
                found = e;
                owner = f;
                users = k.0;
                verifications = k.1;
              }))

    with_reset_user_lem :
        (reset : Code) (o : Option User) (w : World Db)
        → first_by id_order (valid (ext.digest code) now) d.password_resets ≡ some reset
        → find_where (has_id reset.user_id) d.users ≡ o
        → At (book d) now w
        → Post Changed Unchanged (with_reset_user reset o w)
    with_reset_user_lem reset none w e f here = here.reads
    with_reset_user_lem reset (some user) w e f here =
        Post-bind _ Changed Unchanged (hash_password ext new_password) (set_password reset user) w
          (hash-At (book d) now ext Unchanged new_password w (λ _ _ k. k.reads) here)
          (λ h w1 ((salt, drawn), h1).
            subst (λ t. Post Changed Unchanged (set_password reset user t w1)) (sym drawn)
              (changed_lem reset user salt w1 e f h1))

  -- Whatever statements fail. Where `ConfirmPasswordReset` returns, a reset code that was neither consumed
  -- nor expired had the hash of the code that was given, the user of that code was there, and the users
  -- are as they were but that this user's password is a hash of the new one; no code that verifies an
  -- email is changed. Where it fails, the accounts are, apart from the times of the last use, as they were.
  pub confirm_password_reset-PasswordChanged :
      (w : World Db)
      → Post
          (λ _ v. PasswordChanged ext code new_password w.clock w.db v.db)
          (λ _ v. book v.db ≡ book w.db)
          (confirm_password_reset ext code new_password w)
  unfolding confirm_password_reset Codes.get_valid_by_hash Users.get_by_id
  confirm_password_reset-PasswordChanged w =
      let d : Db = w.db in
      let now : Time = w.clock in
      let Q : Unit {0} → World Db → Type 0 = Changed d now in
      let X : Error AuthError → World Db → Type 0 = Unchanged d now in
      let unchanged : (e : Error AuthError) (v : World Db) → Reads d now v → X e v =
        λ _ _ k. ap book k.0 in
      let valid_code : Result AuthError Code =
        found_code repo_not_found
          (first_by id_order (valid (ext.digest code) now) d.password_resets) in
      let C : Code → World Db → Type 0 = λ c v. (valid_code ≡ ok c) × Reads d now v in
      let U : Uuid → Option User → World Db → Type 0 =
        λ id o v. (ok (find_where (has_id id) d.users) ≡ ok o) × Reads d now v in
      Post-bind C Q X
        (catch (Codes.get_valid_by_hash password_resets (ext.digest code) now)
          (λ _. fail (service invalid_or_expired_code)))
        with_reset w
        (catch-Reads d now X
          (λ t.
            found_code repo_not_found
              (first_by id_order (valid (ext.digest code) now) t.password_resets))
          invalid_or_expired_code w unchanged (refl, refl))
        (λ reset w1 (e, r1).
          Post-bind (U reset.user_id) Q X
            (catch (Users.get_by_id reset.user_id) (λ _. fail (service not_found)))
            (with_reset_user reset) w1
            (catch-Reads d now X (λ t. ok (find_where (has_id reset.user_id) t.users)) not_found w1
              unchanged r1)
            (λ o w2 (f, r2).
              with_reset_user_lem d now reset o w2 (found_code-some repo_not_found _ reset e)
                (ok_injective f) (record { reads = ap book r2.0; clock = r2.1 })))
