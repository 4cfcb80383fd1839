-- ===== src/Auth/Tests.antt =====
-- Small accounts, runs of the operations on them, and the results at these inputs.
use order_hub.Base.{
  Uuid, str_eq, eq_iff, sym, ◌∙◌, ◌≡◌, ◌≢◌, refl, ◌⊎◌, true, false, none, some, [], ◌∷◌, arith, ltb,
}
use order_hub.Base.Text.{text_append}
use order_hub.Base.Rows.{find_where, first_by, order_by, update_where, count_where, any_where}
use order_hub.Base.Store.{World, Result, ok, err, service, pure, fail, attempt, query, exec}
use order_hub.Base.Post.{Post}
use order_hub.Auth.Models.{
  Role, User, RefreshToken, UserSession, Code, JwkKey, Db, AuthError, bad_token, Outside,
}
use order_hub.Auth.Repo.Users
use order_hub.Auth.Repo.Refresh
use order_hub.Auth.Repo.Sessions
use order_hub.Auth.Repo.Sessions.{open_of}
use order_hub.Auth.Repo.Codes
use order_hub.Auth.Repo.Jwks.{with_keys, has_kid, set_active}
use order_hub.Auth.Service.Types.{AuthService, CacheClient, ClientMeta, TokenPair}
use order_hub.Auth.Service.Accounts.{register, login}
use order_hub.Auth.Service.Tokens.{
  issue_pair, rotate_token, touch_session, refresh, log_out_with_access_token, log_out_all,
}
use order_hub.Auth.Service.Resets.{confirm_password_reset}
use order_hub.Auth.Cleanup.{run_full_cleanup}
use order_hub.Auth.Book.{book}
use order_hub.Auth.Book.Statements.{revoke_tokens}
use order_hub.Auth.Provider.{IsProvider}
use order_hub.Auth.Token.{parse_and_validate_access, Crypto, Settings, CustomClaims, rsa_provider}
use order_hub.Auth.Token.Bytes.{big_int_to_bytes, read_bytes, read_bytes-big_int_to_bytes}
use order_hub.Base.Int.{pos, negsuc}
use order_hub.Auth.Token.Accepts.{Accepted, parse_and_validate_access-Accepted}
use order_hub.Auth.Token.Keeps.{rsa_provider-IsProvider}
use order_hub.Auth.Rotation.{Rotated, spend, refresh-Rotated}
use order_hub.Auth.Once.{refresh-once}
use order_hub.Auth.LoggingOut.{LoggedOut, ClosedOrNot, log_out-LoggedOut}
use order_hub.Auth.LoggingOutAll.{log_out_all-Revoked}
use order_hub.Auth.LoggingIn.{LoggedIn, KeptOrBare, login-LoggedIn}
use order_hub.Auth.Registering.{
  Distinct, Registered, KeptOrHalf, register-Registered, register-Distinct,
}
use order_hub.Auth.Resetting.{PasswordChanged, confirm_password_reset-PasswordChanged}
use order_hub.Auth.ResetReturns.{IsOwnCode, ResetDone, confirm_password_reset-ResetDone}
use order_hub.Auth.Keys.{only_active, set_active-Switched}
use order_hub.Auth.Kept.{run_full_cleanup-cleaned}
use order_hub.Auth.Kept.Filters.{cleaned}

abbrev outside : Outside
outside = record {
  lower = λ s. s;
  text_before = λ _ _. false;
  is_inet = λ _. true;
  digest = λ s. text_append "#" s;
  hash_password = λ _ p. text_append "bcrypt:" p;
  compare_password = λ h p. str_eq h (text_append "bcrypt:" p);
  digits = λ _ _. "123456";
  opaque = λ _. "new";
  from_uuid = λ _. "id";
  parse_uuid = λ _. some 1;
}

abbrev claims : CustomClaims
claims = record {
  sub = "id";
  role = "ROLE_CUSTOMER";
  id = "jti";
  issuer = "auth";
  audience = "hub";
  issued_at = 10;
  expires_at = some 20;
}

abbrev crypto : Crypto
crypto = record {
  generate = λ _. "key";
  key_id = λ _. "kid";
  modulus = λ k. k;
  exponent = λ _. "AQAB";
  encode_private = λ k. k;
  parse_private = λ k. some k;
  jwk_to_public = λ n _. some n;
  pem_to_public = λ p. some p;
  public_to_pem = λ p. some p;
  sign = λ _ _ _. some "jwt";
  parse = λ _. some (record { is_rs256 = true; kid = "kid"; claims = claims });
  verify = λ _ _. true;
  numeric_date = λ t. t;
  validate = λ _ _ _ _. true;
}

abbrev settings : Settings
settings = record { issuer = "auth"; audience = "hub"; has_cache = false }

abbrev svc : AuthService
svc = record {
  tokens = rsa_provider outside crypto settings;
  cache = CacheClient.no_cache;
  access_ttl = 5;
  refresh_ttl = 50;
}

lawful : IsProvider svc.tokens
lawful = rsa_provider-IsProvider outside crypto settings

abbrev ann : User
ann = record {
  id = 1;
  email = "ann@shop";
  password = "bcrypt:pw";
  role = Role.role_customer;
  is_email_verified = true;
  created_at = 0;
  updated_at = 0;
}

abbrev old_token : RefreshToken
old_token = record {
  id = 3;
  user_id = 1;
  session_id = some 2;
  token_hash = "#old";
  client_id = none;
  ip = none;
  user_agent = none;
  expires_at = 100;
  revoked = false;
  created_at = 0;
  last_used_at = none;
}

abbrev laptop : UserSession
laptop = record {
  id = 2;
  user_id = 1;
  client_id = "laptop";
  ip = none;
  user_agent = none;
  created_at = 0;
  last_seen_at = 0;
  revoked = false;
}

abbrev reset_code : Code
reset_code = record {
  id = 4;
  user_id = 1;
  email = "ann@shop";
  code_hash = "#code";
  expires_at = 100;
  consumed = false;
  created_at = 0;
}

abbrev key : JwkKey
key = record {
  kid = "kid";
  alg = "RS256";
  kty = "RSA";
  key_use = "sig";
  n = "key";
  e = "AQAB";
  priv_pem = "key";
  active = true;
  created_at = 0;
  rotates_at = none;
}

abbrev accounts : Db
accounts = record {
  users = ann ∷ [];
  refresh_tokens = old_token ∷ [];
  sessions = laptop ∷ [];
  email_verifications = [];
  password_resets = reset_code ∷ [];
  ring = record { jwk_keys = key ∷ []; active = none; pub_keys = [] };
  redis = [];
  mails = [];
  next_id = 10;
  drawn = 0;
}

abbrev meta : ClientMeta
meta = record { client_id = none; ip = none; user_agent = none }

abbrev quiet : World Db
quiet = record { db = accounts; tx = accounts; faults = []; clock = 10 }

refresh-Rotated_example :
    Post
      (λ pair v. Rotated "#old" meta 10 accounts pair v.db)
      (λ _ v. (book v.db ≡ book accounts) ⊎ (book v.db ≡ spend "#old" (book accounts)))
      (refresh outside svc "old" meta quiet)
unfolding text_append
refresh-Rotated_example = refresh-Rotated outside svc lawful "old" meta quiet

abbrev ended : {A : Type 0} → A → Result AuthError A × World Db → A × World Db
ended a (ok b, w) = (b, w)
ended a (err _, w) = (a, w)

abbrev no_pair : TokenPair
no_pair = record {
  access_token = "";
  access_expires_at = 0;
  refresh_opaque = "";
  refresh_expires_at = 0;
  refresh_hash = "";
}

-- a provider that answers at once
abbrev stub : AuthService
stub = record svc {
  tokens = record {
    sign_access = λ _ _ _. pure (record { token = "jwt"; exp = 15 });
    new_refresh = λ _ _. pure (record { opaque = "new"; hash = "#new"; exp = 60 });
    parse_and_validate_access = λ _. fail (service bad_token);
    blacklist_token = λ _. pure tt;
  };
}

stub_lawful : IsProvider stub.tokens
stub_lawful = record {
  sign_access_keeps = λ _ _ _ _ _ _ h. h;
  new_refresh_keeps = λ _ _ _ _ _ h. h;
  blacklist_token_keeps = λ _ _ _ _ h. h;
}

abbrev refreshed : TokenPair × World Db
refreshed = ended no_pair (refresh outside stub "old" meta quiet)

-- what the run gives, in one computation
refreshed_lem :
    (refresh outside stub "old" meta quiet ≡ (ok refreshed.0, refreshed.1))
    × (refreshed.0.refresh_hash ≡ "#new")
unfolding refresh Refresh.is_active_by_hash query count_where text_append Refresh.get_by_hash_only
    find_where order_by Users.get_by_id Refresh.revoke_by_hash_only exec Refresh.touch
    Refresh.update_tokens Refresh.create Sessions.touch Refresh.create_row Sessions.update_sessions
    issue_pair rotate_token touch_session any_where update_where attempt
refreshed_lem = (refl, refl)

new-ne-old : "#new" ≢ outside.digest "old"
unfolding text_append
new-ne-old e = cc ((eq_iff "#new" "#old").1 e)

refresh-once_example :
    Post
      (λ _ _. ⊥)
      (λ _ t. t.db ≡ refreshed.1.db)
      (refresh outside stub "old" meta (record refreshed.1 { clock = 12 }))
refresh-once_example =
    refresh-once outside stub stub_lawful "old" meta meta quiet refreshed.1
      (record refreshed.1 { clock = 12 }) refreshed.0 refreshed_lem.0
      (λ e. new-ne-old (sym refreshed_lem.1 ∙ e)) refl

log_out-LoggedOut_example :
    Post
      (λ _ v. LoggedOut "#old" 10 accounts v)
      (λ _ v. (book v.db ≡ book accounts) ⊎ (book v.db ≡ spend "#old" (book accounts)))
      (log_out_with_access_token outside svc "old" "jwt" quiet)
unfolding text_append
log_out-LoggedOut_example = log_out-LoggedOut outside svc lawful "old" "jwt" quiet

log_out_all-Revoked_example :
    Post
      (λ n v.
        (user : Uuid) × (some 1 ≡ some user)
        × (n ≡ count_where (Refresh.of_user user) accounts.refresh_tokens)
        × ClosedOrNot (open_of user) (revoke_tokens (Refresh.of_user user) (book accounts)) 10 v)
      (λ _ v. book v.db ≡ book accounts)
      (log_out_all (some 1) quiet)
log_out_all-Revoked_example = log_out_all-Revoked (some 1) quiet

login-LoggedIn_example :
    Post
      (λ a v. LoggedIn outside "ann@shop" "pw" meta 10 accounts a v.db)
      (λ e v. KeptOrBare outside svc lawful "ann@shop" "pw" meta 10 accounts e v)
      (login outside svc "ann@shop" "pw" meta quiet)
login-LoggedIn_example = login-LoggedIn outside svc lawful "ann@shop" "pw" meta quiet

register-Registered_example :
    Post
      (λ u v. Registered outside "bob@shop" "pw" 10 accounts u v.db)
      (λ _ v. KeptOrHalf outside "bob@shop" "pw" 10 accounts v)
      (register outside "bob@shop" "pw" quiet)
register-Registered_example = register-Registered outside "bob@shop" "pw" quiet

accounts-Distinct : Distinct outside accounts.users
unfolding any_where
accounts-Distinct = (refl, tt)

register-Distinct_example :
    Post
      (λ _ v. Distinct outside v.db.users)
      (λ _ v. Distinct outside v.db.users)
      (register outside "bob@shop" "pw" quiet)
register-Distinct_example = register-Distinct outside "bob@shop" "pw" quiet accounts-Distinct

confirm_password_reset-PasswordChanged_example :
    Post
      (λ _ v. PasswordChanged outside "code" "new" 10 accounts v.db)
      (λ _ v. book v.db ≡ book accounts)
      (confirm_password_reset outside "code" "new" quiet)
confirm_password_reset-PasswordChanged_example =
    confirm_password_reset-PasswordChanged outside "code" "new" quiet

code_there :
    (first_by Codes.id_order (Codes.valid (outside.digest "code") 10) accounts.password_resets
      ≡ some reset_code)
    × (find_where (Users.has_id 1) accounts.users ≡ some ann)
unfolding find_where order_by text_append
code_there = (refl, refl)

own_code : IsOwnCode 1 4 accounts.password_resets
unfolding any_where
own_code = refl

confirm_password_reset-ResetDone_example :
    Post
      (λ _ v. ResetDone outside "new" 10 ann accounts v.db)
      (λ _ _. ⊥)
      (confirm_password_reset outside "code" "new" quiet)
confirm_password_reset-ResetDone_example =
    confirm_password_reset-ResetDone outside "code" "new" reset_code ann quiet refl code_there.0
      code_there.1 own_code

set_active-Switched_example :
    Post
      (λ _ v.
        (ltb 0 (count_where (has_kid "kid") (key ∷ [])) ≡ true)
        × (v.db ≡ with_keys (only_active "kid" (key ∷ [])) accounts))
      (λ _ v. v.db ≡ accounts)
      (set_active "kid" quiet)
set_active-Switched_example = set_active-Switched "kid" quiet

run_full_cleanup-cleaned_example :
    Post
      (λ _ v. v.db ≡ cleaned 10 accounts)
      (λ _ v. cleaned 10 v.db ≡ cleaned 10 accounts)
      (run_full_cleanup quiet)
run_full_cleanup-cleaned_example = run_full_cleanup-cleaned quiet

read_bytes-big_int_to_bytes_example :
    (read_bytes (pos 0) (big_int_to_bytes (pos 65537)) ≡ pos 65537)
    × (big_int_to_bytes (negsuc 65537) ≡ [])
    × (read_bytes (pos 0) (big_int_to_bytes (negsuc 65537)) ≡ pos 0)
read_bytes-big_int_to_bytes_example = read_bytes-big_int_to_bytes 65537 (omega arith)

-- a world in which the key "kid" is held in memory
abbrev keyed : World Db
keyed = record quiet {
  db = record accounts {
    ring = record { jwk_keys = []; active = none; pub_keys = ("kid", "key") ∷ [] };
  };
}

parse_and_validate_access-Accepted_example :
    Post
      (λ c _. Accepted outside crypto settings keyed.db 10 "jwt" c)
      (λ _ _. Unit {0})
      (parse_and_validate_access outside crypto settings "jwt" keyed)
parse_and_validate_access-Accepted_example =
    parse_and_validate_access-Accepted outside crypto settings keyed "jwt"
