-- ===== src/Auth/Service/Accounts.antt =====
-- `Register` and `Login`.
use order_hub.Base.{◌+◌, Uuid, Time, String, false, Option, none, some, if◌then◌else◌, not}
use order_hub.Base.Store.{service, pure, fail, guard, clock_now, catch, ignore, ◌>>=◌, ◌>>◌}
use order_hub.Auth.Models.{
  Role, User, RefreshToken, UserSession, Code, verify_email, not_found, email_exists,
  invalid_credentials, Run, Outside, day,
}
use order_hub.Auth.Repo.Users
use order_hub.Auth.Repo.Refresh
use order_hub.Auth.Repo.Sessions
use order_hub.Auth.Repo.Codes
use order_hub.Auth.Repo.Codes.{CodeTable}
use order_hub.Auth.Service.Types.{AuthService, ClientMeta, TokenPair, Access, NewToken}
use order_hub.Auth.Service.Helpers.{fresh_id, draw_digits, hash_password, send_email, role_name}

-- gorm fills the times that are zero.
abbrev pub new_user : Uuid → String → String → Time → User
new_user id email hash now = record {
  id = id;
  email = email;
  password = hash;
  role = Role.role_customer;
  is_email_verified = false;
  created_at = now;
  updated_at = now;
}

abbrev pub new_code : Uuid → String → String → Time → Time → Code
new_code user email hash expires now = record {
  id = 0;
  user_id = user;
  email = email;
  code_hash = hash;
  expires_at = expires;
  consumed = false;
  created_at = now;
}

-- The session of `meta` is created by the database's defaults where a field is missing.
abbrev or_empty : Option String → String
or_empty none = ""
or_empty (some s) = s

abbrev pub new_session : Uuid → ClientMeta → Time → UserSession
new_session user meta now = record {
  id = 0;
  user_id = user;
  client_id = or_empty meta.client_id;
  ip = meta.ip;
  user_agent = meta.user_agent;
  created_at = now;
  last_seen_at = now;
  revoked = false;
}

abbrev pub new_token : Uuid → Option Uuid → ClientMeta → NewToken → Time → RefreshToken
new_token user session meta fresh now = record {
  id = 0;
  user_id = user;
  session_id = session;
  token_hash = fresh.hash;
  client_id = meta.client_id;
  ip = meta.ip;
  user_agent = meta.user_agent;
  expires_at = fresh.exp;
  revoked = false;
  created_at = now;
  last_used_at = none;
}

abbrev pub token_pair : Access → NewToken → TokenPair
token_pair access fresh = record {
  access_token = access.token;
  access_expires_at = access.exp;
  refresh_opaque = fresh.opaque;
  refresh_expires_at = fresh.exp;
  refresh_hash = fresh.hash;
}

module _ (ext : Outside) where
  -- The argument `role` of the source is not used.
  unfoldable pub register : String → String → Run User
  unfolding fresh_id draw_digits hash_password send_email
  register email password = do
    exists ← Users.exists_by_email ext email
    guard (not exists) email_exists
    hash ← hash_password ext password
    id ← fresh_id
    now ← clock_now
    Users.create ext (new_user id email hash now)
    rng ← draw_digits ext 10
    Codes.create CodeTable.email_verifications (new_code id email (ext.digest rng) (now + day) now)
    ignore (send_email (verify_email email rng))
    pure (new_user id email hash now)

  abbrev pub checked_user : String → Option User → Run User
  checked_user password none = fail (service invalid_credentials)
  checked_user password (some u) =
      if ext.compare_password u.password password
      then pure u
      else fail (service invalid_credentials)

  -- Any error of the query is answered as `ErrNotFound`.
  unfoldable pub login :
      AuthService → String → String → ClientMeta → Run (Uuid × String × TokenPair)
  login svc email password meta = do
    found ← catch (Users.get_by_email ext email) (λ _. fail (service not_found))
    u ← checked_user password found
    access ← svc.tokens.sign_access u.id (role_name u.role) svc.access_ttl
    fresh ← svc.tokens.new_refresh u.id svc.refresh_ttl
    now ← clock_now
    session ← Sessions.create ext (new_session u.id meta now)
    Refresh.create ext (new_token u.id (some session.id) meta fresh now)
    pure (u.id, role_name u.role, token_pair access fresh)
