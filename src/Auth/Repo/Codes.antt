-- ===== src/Auth/Repo/Codes.antt =====
-- password_reset_repo.go and email_verification_repo.go, which hold the same statements on two tables
-- with the same columns.
use order_hub.Base.{
  ℕ, suc, Uuid, Time, String, str_eq, Bool, true, Option, none, some, List, ◌∷◌, ltb, ◌==◌,
  if◌then◌else◌, not, ◌&&◌, ◌||◌,
}
use order_hub.Base.Rows.{update_where, count_where, any_where, delete_where, first_by}
use order_hub.Base.Store.{
  Result, ok, err, service, database, constraint, record_not_found, pool, pure, query, exec, ◌>>=◌,
}
use order_hub.Auth.Models.{Code, Db, AuthError, repo_not_found, Run}
use order_hub.Auth.Repo.Users.{has_id}

pub data CodeTable : Type 0 where
  email_verifications password_resets : CodeTable

abbrev pub codes : CodeTable → Db → List Code
codes CodeTable.email_verifications d = d.email_verifications
codes CodeTable.password_resets d = d.password_resets

abbrev pub with_codes : CodeTable → List Code → Db → Db
with_codes CodeTable.email_verifications rows d = record d { email_verifications = rows }
with_codes CodeTable.password_resets rows d = record d { password_resets = rows }

abbrev pub id_order : Code → Code → Bool
id_order a b = ltb a.id b.id

-- `code_hash = ? AND consumed = false AND expires_at > ?`
abbrev pub valid : String → Time → Code → Bool
valid hash now c = str_eq c.code_hash hash && not c.consumed && ltb now c.expires_at

abbrev pub of_user : Uuid → Code → Bool
of_user user c = c.user_id == user

abbrev pub unconsumed : Uuid → Code → Bool
unconsumed id c = c.id == id && not c.consumed

abbrev pub consume_row : Code → Code
consume_row c = record c { consumed = true }

-- `created_at desc`, then the primary key
abbrev pub newest_first : Code → Code → Bool
newest_first a b = ltb b.created_at a.created_at || (a.created_at == b.created_at && ltb a.id b.id)

abbrev pub found_code : AuthError → Option Code → Result AuthError Code
found_code e none = err (service e)
found_code e (some c) = ok c

abbrev latest_code : Option Code → Result AuthError Code
latest_code none = err (database record_not_found)
latest_code (some c) = ok c

module _ (table : CodeTable) where
  -- the foreign key to `users`
  abbrev pub inserted : Code → Db → Db
  inserted c d =
      let filled : Db = with_codes table ((record c { id = d.next_id }) ∷ codes table d) d in
      record filled { next_id = suc d.next_id }

  unfoldable pub create_row : Code → Db → Result AuthError (Unit {0} × Db)
  create_row c d =
      if any_where (has_id c.user_id) d.users
      then ok (tt, inserted c d)
      else err (database constraint)

  unfoldable pub create : Code → Run (Unit {0})
  create c = exec pool (create_row c)

  unfoldable pub get_valid_by_hash : String → Time → Run Code
  get_valid_by_hash hash now =
      query pool
        (λ d. found_code repo_not_found (first_by id_order (valid hash now) (codes table d)))

  unfoldable pub consume_rows : Uuid → Db → Result AuthError (ℕ × Db)
  consume_rows id d = ok (
    count_where (unconsumed id) (codes table d),
    with_codes table (update_where (unconsumed id) consume_row (codes table d)) d,
  )

  unfoldable pub consume : Uuid → Run Bool
  consume id = do n ← exec pool (consume_rows id); pure (ltb 0 n)

  unfoldable pub delete_rows : (Code → Bool) → Db → Result AuthError (ℕ × Db)
  delete_rows fits d =
      ok (count_where fits (codes table d), with_codes table (delete_where fits (codes table d)) d)

  unfoldable pub delete_all_for_user : Uuid → Run ℕ
  delete_all_for_user user = exec pool (delete_rows (of_user user))

  unfoldable pub find_latest_by_user : Uuid → Run Code
  find_latest_by_user user =
      query pool (λ d. latest_code (first_by newest_first (of_user user) (codes table d)))
