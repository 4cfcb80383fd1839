-- ===== src/Auth/Cleanup.antt =====
-- cleanup/cleanup.go: the statements that delete old rows, on the pool, in their order. The 30 days of
-- `AddDate` are counted as 30 times 24 hours, as in a zone without summer time.

use order_hub.Base.{◌+◌, ◌*◌, Time, Bool, List, ltb, not, ◌&&◌}
use order_hub.Base.Rows.{delete_where, any_where}
use order_hub.Base.Store.{ok, pool, clock_now, exec, ◌>>=◌, ◌>>◌}
use order_hub.Auth.Models.{RefreshToken, UserSession, Code, Run, day}
use order_hub.Auth.Repo.Refresh.{with_tokens, live_in}
use order_hub.Auth.Repo.Sessions.{with_sessions}
use order_hub.Auth.Repo.Codes.{CodeTable, email_verifications, password_resets, codes, with_codes}

abbrev pub token_expired : Time → RefreshToken → Bool
token_expired now t = ltb t.expires_at now

abbrev pub code_expired : Time → Code → Bool
code_expired now c = ltb c.expires_at now

-- `consumed = true AND created_at < cutoff`
abbrev pub code_used : Time → Code → Bool
code_used now c = c.consumed && ltb (c.created_at + day) now

-- `id NOT IN (SELECT session_id ...)`
abbrev pub orphaned : Time → List RefreshToken → UserSession → Bool
orphaned now tokens s = not (any_where (live_in s.id now) tokens)

abbrev pub old_session : Time → UserSession → Bool
old_session now s = ltb (s.last_seen_at + 30 * day) now

unfoldable pub delete_tokens : (RefreshToken → Bool) → Run (Unit {0})
delete_tokens fits = exec pool (λ d. ok (tt, with_tokens (delete_where fits d.refresh_tokens) d))

unfoldable pub delete_codes : CodeTable → (Code → Bool) → Run (Unit {0})
delete_codes table fits =
    exec pool (λ d. ok (tt, with_codes table (delete_where fits (codes table d)) d))

-- The test may look at the refresh tokens.
unfoldable pub delete_sessions : (List RefreshToken → UserSession → Bool) → Run (Unit {0})
delete_sessions fits =
    exec pool (λ d. ok (tt, with_sessions (delete_where (fits d.refresh_tokens) d.sessions) d))

unfoldable pub cleanup_expired_tokens : Run (Unit {0})
unfolding delete_tokens delete_codes
cleanup_expired_tokens = do
  now ← clock_now
  delete_tokens (token_expired now)
  delete_codes password_resets (code_expired now)
  delete_codes email_verifications (code_expired now)

unfoldable pub cleanup_orphaned_sessions : Run (Unit {0})
unfolding delete_sessions
cleanup_orphaned_sessions = do now ← clock_now; delete_sessions (orphaned now)

unfoldable pub cleanup_old_sessions : Run (Unit {0})
unfolding delete_sessions
cleanup_old_sessions = do now ← clock_now; delete_sessions (λ _. old_session now)

unfoldable pub cleanup_consumed_tokens : Run (Unit {0})
unfolding delete_codes
cleanup_consumed_tokens = do
  now ← clock_now
  delete_codes password_resets (code_used now)
  delete_codes email_verifications (code_used now)

unfoldable pub run_full_cleanup : Run (Unit {0})
unfolding cleanup_expired_tokens cleanup_consumed_tokens cleanup_orphaned_sessions
    cleanup_old_sessions
run_full_cleanup = do
  cleanup_expired_tokens
  cleanup_consumed_tokens
  cleanup_orphaned_sessions
  cleanup_old_sessions
