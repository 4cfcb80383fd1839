-- ===== src/Auth/Repo/Refresh.antt =====
-- refresh_repo.go: the statements on the table `refresh_tokens`.
use order_hub.Base.{
  ℕ, suc, Uuid, Time, String, str_eq, Bool, true, false, Option, none, some, List, ◌∷◌, ltb, ◌==◌,
  if◌then◌else◌, not, ◌&&◌,
}
use order_hub.Base.Rows.{update_where, count_where, any_where, first_by}
use order_hub.Base.Store.{
  Result, ok, err, database, constraint, record_not_found, pool, pure, query, exec, ◌>>=◌,
}
use order_hub.Auth.Models.{RefreshToken, Db, AuthError, Run, Outside}
use order_hub.Auth.Repo.Users.{has_id}

abbrev pub with_tokens : List RefreshToken → Db → Db
with_tokens rows d = record d { refresh_tokens = rows }

-- `First` orders by the primary key.
abbrev pub id_order : RefreshToken → RefreshToken → Bool
id_order a b = ltb a.id b.id

abbrev pub revoke_row : RefreshToken → RefreshToken
revoke_row t = record t { revoked = true }

abbrev pub touch_row : Time → RefreshToken → RefreshToken
touch_row at t = record t { last_used_at = some at }

-- `token_hash = ? AND revoked = false`
abbrev pub unrevoked : String → RefreshToken → Bool
unrevoked hash t = str_eq t.token_hash hash && not t.revoked

-- and `expires_at > ?`
abbrev pub live : String → Time → RefreshToken → Bool
live hash now t = unrevoked hash t && ltb now t.expires_at

abbrev pub of_user : Uuid → RefreshToken → Bool
of_user user t = t.user_id == user && not t.revoked

abbrev pub touched : Uuid → String → RefreshToken → Bool
touched user hash t = t.user_id == user && unrevoked hash t

abbrev in_session : Option Uuid → Uuid → Bool
in_session none _ = false
in_session (some s) id = s == id

abbrev pub live_in : Uuid → Time → RefreshToken → Bool
live_in session now t = in_session t.session_id session && not t.revoked && ltb now t.expires_at

-- an update with the number of rows
unfoldable pub update_tokens :
    (RefreshToken → Bool) → (RefreshToken → RefreshToken) → Db → Result AuthError (ℕ × Db)
update_tokens fits set d =
    ok (count_where fits d.refresh_tokens, with_tokens (update_where fits set d.refresh_tokens) d)

unfoldable pub revoke_all : Uuid → Run ℕ
revoke_all user = exec pool (update_tokens (of_user user) revoke_row)

unfoldable pub touch : Uuid → String → Time → Run ℕ
touch user hash at = exec pool (update_tokens (touched user hash) (touch_row at))

-- `ErrRecordNotFound` is returned as it is.
abbrev pub found_token : Option RefreshToken → Result AuthError RefreshToken
found_token none = err (database record_not_found)
found_token (some t) = ok t

unfoldable pub get_by_hash_only : String → Run RefreshToken
get_by_hash_only hash =
    query pool (λ d. found_token (first_by id_order (unrevoked hash) d.refresh_tokens))

unfoldable pub is_active_by_hash : String → Time → Run Bool
is_active_by_hash hash now =
    query pool (λ d. ok (ltb 0 (count_where (live hash now) d.refresh_tokens)))

unfoldable pub revoke_by_hash_only : String → Run Bool
revoke_by_hash_only hash = do
  n ← exec pool (update_tokens (unrevoked hash) revoke_row)
  pure (ltb 0 n)

unfoldable pub has_active_by_session : Uuid → Time → Run Bool
has_active_by_session session now =
    query pool (λ d. ok (ltb 0 (count_where (live_in session now) d.refresh_tokens)))

module _ (ext : Outside) where
  -- the type of the column `ip`
  abbrev pub ip_allowed : Option String → Bool
  ip_allowed none = true
  ip_allowed (some ip) = ext.is_inet ip

  -- `fk_refresh_user`
  abbrev pub token_allowed : RefreshToken → Db → Bool
  token_allowed t d = any_where (has_id t.user_id) d.users && ip_allowed t.ip

  abbrev pub inserted : RefreshToken → Db → Db
  inserted t d = record d {
    refresh_tokens = (record t { id = d.next_id }) ∷ d.refresh_tokens;
    next_id = suc d.next_id;
  }

  unfoldable pub create_row : RefreshToken → Db → Result AuthError (Unit {0} × Db)
  create_row t d = if token_allowed t d then ok (tt, inserted t d) else err (database constraint)

  unfoldable pub create : RefreshToken → Run (Unit {0})
  create t = exec pool (create_row t)
