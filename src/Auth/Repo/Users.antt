-- ===== src/Auth/Repo/Users.antt =====
-- auth_repo.go: the statements on the table `users`. `ext.lower` is PostgreSQL's function.
use order_hub.Base.{Uuid, Time, String, str_eq, Bool, Option, List, ◌∷◌, ltb, ◌==◌, if◌then◌else◌}
use order_hub.Base.Rows.{update_where, count_where, find_where, any_where}
use order_hub.Base.Store.{
  Result, ok, err, database, constraint, pool, clock_now, query, exec, ◌>>=◌,
}
use order_hub.Auth.Models.{User, Db, AuthError, Run, Outside}

abbrev pub has_id : Uuid → User → Bool
has_id id u = u.id == id

abbrev pub inserted : User → Db → Db
inserted u d = record d { users = u ∷ d.users }

abbrev pub password_row : String → Time → User → User
password_row password now u = record u { password = password; updated_at = now }

abbrev pub verified_row : Bool → Time → User → User
verified_row verified now u = record u { is_email_verified = verified; updated_at = now }

abbrev pub with_users : List User → Db → Db
with_users rows d = record d { users = rows }

unfoldable pub update_users : (User → Bool) → (User → User) → Db → Result AuthError (Unit {0} × Db)
update_users fits set d = ok (tt, with_users (update_where fits set d.users) d)

unfoldable pub get_by_id : Uuid → Run (Option User)
get_by_id id = query pool (λ d. ok (find_where (has_id id) d.users))

-- gorm's `Updates` sets `updated_at` as well.
unfoldable pub update_password : User → Run (Unit {0})
update_password u = do
  now ← clock_now
  exec pool (update_users (has_id u.id) (password_row u.password now))

unfoldable pub update_is_email_verified : User → Run (Unit {0})
update_is_email_verified u = do
  now ← clock_now
  exec pool (update_users (has_id u.id) (verified_row u.is_email_verified now))

module _ (ext : Outside) where
  abbrev pub has_email : String → User → Bool
  has_email email u = str_eq (ext.lower u.email) (ext.lower email)

  -- `ux_users_email`: the emails differ, however they are spelled
  unfoldable pub create_row : User → Db → Result AuthError (Unit {0} × Db)
  create_row u d =
      if any_where (has_email u.email) d.users
      then err (database constraint)
      else ok (tt, inserted u d)

  unfoldable pub create : User → Run (Unit {0})
  create u = exec pool (create_row u)

  -- The unique index leaves one row at most.
  unfoldable pub get_by_email : String → Run (Option User)
  get_by_email email = query pool (λ d. ok (find_where (has_email email) d.users))

  unfoldable pub exists_by_email : String → Run Bool
  exists_by_email email = query pool (λ d. ok (ltb 0 (count_where (has_email email) d.users)))
