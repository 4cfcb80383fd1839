-- ===== src/Auth/Service/Tokens.antt =====
-- `Refresh`, `Logout`, `LogoutAll`, `GetJwks` and `Introspect`.
use order_hub.Base.{ℕ, Uuid, Time, String, str_eq, Option, none, some, List, if◌then◌else◌, not}
use order_hub.Base.Store.{pure, guard, clock_now, catch, ignore, ◌>>=◌, ◌>>◌}
use order_hub.Auth.Models.{
  User, RefreshToken, token_expired, token_not_found_or_revoked, empty_refresh_token, Run, Outside,
}
use order_hub.Auth.Repo.Users
use order_hub.Auth.Repo.Refresh
use order_hub.Auth.Repo.Sessions
use order_hub.Auth.Repo.Jwks
use order_hub.Auth.Repo.Jwks.{PublicJwk}
use order_hub.Auth.Service.Types.{AuthService, ClientMeta, TokenPair, Claims}
use order_hub.Auth.Service.Helpers.{context_user, found_user, role_name}
use order_hub.Auth.Service.Accounts.{new_token, token_pair}

-- `_ = s.sessions.Touch(...)`
unfoldable pub touch_session : Option Uuid → Time → Run (Unit {0})
touch_session none now = pure tt
touch_session (some id) now = ignore (Sessions.touch id now)

-- The session ends with its last live token; an error of the revocation is dropped.
unfoldable pub close_session : Option Uuid → Run (Unit {0})
close_session none = pure tt
close_session (some id) = do
  now ← clock_now
  still_active ← Refresh.has_active_by_session id now
  if still_active then pure tt else ignore (Sessions.revoke id)

unfoldable pub log_out_all : Option Uuid → Run ℕ
unfolding context_user
log_out_all ctx = do
  user ← context_user ctx
  affected ← Refresh.revoke_all user
  ignore (Sessions.revoke_all_by_user user)
  pure affected

unfoldable pub get_jwks : Run (List PublicJwk)
get_jwks = Jwks.list_public

-- An invalid token is an answer, not an error.
pub data Introspection : Type 0 where
  inactive_token : Introspection
  active_token : Claims → Introspection

module _ (svc : AuthService) where
  unfoldable pub introspect : String → Run Introspection
  introspect access =
      catch
        (do
          claims ← svc.tokens.parse_and_validate_access access
          pure (Introspection.active_token claims))
        (λ _. pure Introspection.inactive_token)

  unfoldable pub blacklist_access : String → Run (Unit {0})
  blacklist_access access =
      if str_eq access "" then pure tt else ignore (svc.tokens.blacklist_token access)

module _ (ext : Outside) (svc : AuthService) where
  -- the new pair, of the session that the old token had
  unfoldable pub issue_pair : User → Option Uuid → ClientMeta → Time → Run TokenPair
  unfolding touch_session
  issue_pair u session meta now = do
    access ← svc.tokens.sign_access u.id (role_name u.role) svc.access_ttl
    fresh ← svc.tokens.new_refresh u.id svc.refresh_ttl
    touch_session session now
    Refresh.create ext (new_token u.id session meta fresh now)
    pure (token_pair access fresh)

  -- the old token is spent before the new one is made
  unfoldable pub rotate_token : String → User → RefreshToken → ClientMeta → Time → Run TokenPair
  unfolding issue_pair
  rotate_token hash u rt meta now = do
    ignore (Refresh.touch rt.user_id hash now)
    _ ← Refresh.revoke_by_hash_only hash
    issue_pair u rt.session_id meta now

  unfoldable pub refresh : String → ClientMeta → Run TokenPair
  unfolding rotate_token
  refresh opaque meta = do
    now ← clock_now
    active ← Refresh.is_active_by_hash (ext.digest opaque) now
    guard active token_expired
    rt ← Refresh.get_by_hash_only (ext.digest opaque)
    found ← Users.get_by_id rt.user_id
    u ← found_user found
    rotate_token (ext.digest opaque) u rt meta now

  unfoldable pub log_out_with_access_token : String → String → Run (Unit {0})
  unfolding blacklist_access close_session
  log_out_with_access_token opaque access = do
    guard (not (str_eq opaque "")) empty_refresh_token
    rt ← Refresh.get_by_hash_only (ext.digest opaque)
    now ← clock_now
    ignore (Refresh.touch rt.user_id (ext.digest opaque) now)
    blacklist_access svc access
    done ← Refresh.revoke_by_hash_only (ext.digest opaque)
    guard done token_not_found_or_revoked
    close_session rt.session_id

  unfoldable pub log_out : String → Run (Unit {0})
  unfolding log_out_with_access_token
  log_out opaque = log_out_with_access_token opaque ""
