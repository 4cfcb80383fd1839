-- ===== src/Auth/Repo/Sessions.antt =====
-- session_repo.go: the statements on the table `user_sessions`.
use order_hub.Base.{
  ℕ, suc, Uuid, Time, Bool, true, List, ◌∷◌, ltb, leb, ◌==◌, if◌then◌else◌, not, ◌&&◌,
}
use order_hub.Base.Rows.{update_where, count_where, any_where, select_where, order_by}
use order_hub.Base.Store.{Result, ok, err, database, constraint, pool, pure, query, exec, ◌>>=◌}
use order_hub.Auth.Models.{UserSession, Db, AuthError, Run, Outside}
use order_hub.Auth.Repo.Users.{has_id}
use order_hub.Auth.Repo.Refresh.{ip_allowed}

abbrev pub with_sessions : List UserSession → Db → Db
with_sessions rows d = record d { sessions = rows }

abbrev pub is_session : Uuid → UserSession → Bool
is_session id s = s.id == id

abbrev pub open_session : Uuid → UserSession → Bool
open_session id s = s.id == id && not s.revoked

abbrev pub open_of : Uuid → UserSession → Bool
open_of user s = s.user_id == user && not s.revoked

abbrev pub revoke_row : UserSession → UserSession
revoke_row s = record s { revoked = true }

abbrev pub seen_row : Time → UserSession → UserSession
seen_row at s = record s { last_seen_at = at }

unfoldable pub update_sessions :
    (UserSession → Bool) → (UserSession → UserSession) → Db → Result AuthError (ℕ × Db)
update_sessions fits set d =
    ok (count_where fits d.sessions, with_sessions (update_where fits set d.sessions) d)

unfoldable pub touch : Uuid → Time → Run ℕ
touch id at = exec pool (update_sessions (is_session id) (seen_row at))

unfoldable pub revoke : Uuid → Run Bool
revoke id = do n ← exec pool (update_sessions (open_session id) revoke_row); pure (ltb 0 n)

unfoldable pub revoke_all_by_user : Uuid → Run ℕ
revoke_all_by_user user = exec pool (update_sessions (open_of user) revoke_row)

abbrev pub recent : Uuid → Time → UserSession → Bool
recent user since s = open_of user s && leb since s.last_seen_at

-- `last_seen_at DESC`
abbrev pub later_seen : UserSession → UserSession → Bool
later_seen s t = ltb t.last_seen_at s.last_seen_at

unfoldable pub list_active_by_user : Uuid → Time → Run (List UserSession)
list_active_by_user user since =
    query pool (λ d. ok (order_by later_seen (select_where (recent user since) d.sessions)))

module _ (ext : Outside) where
  -- `fk_sessions_user`, and the type of the column `ip`
  abbrev pub session_allowed : UserSession → Db → Bool
  session_allowed s d = any_where (has_id s.user_id) d.users && ip_allowed ext s.ip

  abbrev pub inserted : UserSession → Db → Db
  inserted s d = record d {
    sessions = (record s { id = d.next_id }) ∷ d.sessions;
    next_id = suc d.next_id;
  }

  -- The new identifier is copied back into the argument.
  unfoldable pub create_row : UserSession → Db → Result AuthError (UserSession × Db)
  create_row s d =
      if session_allowed s d
      then ok (record s { id = d.next_id }, inserted s d)
      else err (database constraint)

  unfoldable pub create : UserSession → Run UserSession
  create s = exec pool (create_row s)
