-- ===== src/Auth/Models.antt =====
-- models.go, the errors of service/errors.go, and what the service keeps outside a request: its
-- tables, the entries of Redis, the mails that it has sent to Kafka, and the keys that the token
-- provider holds in memory.
use order_hub.Base.{ℕ, ◌*◌, Uuid, Time, String, Bool, Option, List}
use order_hub.Base.Store.{Action}

pub data Role : Type 0 where
  role_customer role_vendor role_admin : Role

-- `password` is a hash.
pub record User : Type 0 where
  pub id : Uuid
  pub email : String
  pub password : String
  pub role : Role
  pub is_email_verified : Bool
  pub created_at : Time
  pub updated_at : Time

pub record RefreshToken : Type 0 where
  pub id : Uuid
  pub user_id : Uuid
  pub session_id : Option Uuid
  pub token_hash : String
  pub client_id : Option String
  pub ip : Option String
  pub user_agent : Option String
  pub expires_at : Time
  pub revoked : Bool
  pub created_at : Time
  pub last_used_at : Option Time

pub record UserSession : Type 0 where
  pub id : Uuid
  pub user_id : Uuid
  pub client_id : String
  pub ip : Option String
  pub user_agent : Option String
  pub created_at : Time
  pub last_seen_at : Time
  pub revoked : Bool

-- `EmailVerification` and `PasswordResetToken` have the same fields.
pub record Code : Type 0 where
  pub id : Uuid
  pub user_id : Uuid
  pub email : String
  pub code_hash : String
  pub expires_at : Time
  pub consumed : Bool
  pub created_at : Time

-- `key_use` is the column `use`.
pub record JwkKey : Type 0 where
  pub kid : String
  pub alg : String
  pub kty : String
  pub key_use : String
  pub n : String
  pub e : String
  pub priv_pem : String
  pub active : Bool
  pub created_at : Time
  pub rotates_at : Option Time

-- The keys of Redis, by the prefix that the code gives them.
pub data RedisKey : Type 0 where
  pwd_reset : String → RedisKey
  email_ver : Uuid → RedisKey
  jwk : String → RedisKey
  blacklist : String → RedisKey

pub record RedisEntry : Type 0 where
  pub key : RedisKey
  pub value : String
  pub expires : Time

pub data Mail : Type 0 where
  verify_email : String → String → Mail
  reset_password : String → String → Mail

-- `activeKid` with `privKey`, and `pubKeys`, of the token provider, beside the table `jwk_keys`
pub record KeyRing : Type 0 where
  pub jwk_keys : List JwkKey
  pub active : Option (String × String)
  pub pub_keys : List (String × String)

-- `next_id` stands for `gen_random_uuid()` and `uuid.New()`; `drawn` counts the random texts drawn.
pub record Db : Type 0 where
  pub users : List User
  pub refresh_tokens : List RefreshToken
  pub sessions : List UserSession
  pub email_verifications : List Code
  pub password_resets : List Code
  pub ring : KeyRing
  pub redis : List RedisEntry
  pub mails : List Mail
  pub next_id : Uuid
  pub drawn : ℕ

-- `repo_not_found` is `ErrNotFound` of the package repository, another value than that of the service;
-- `nil_pointer` is the panic of a nil dereference; `bad_token` and `bad_key` stand for the errors of the token
-- provider.
pub data AuthError : Type 0 where
  not_found email_exists invalid_credentials token_expired : AuthError
  token_not_found_or_revoked too_many_requests invalid_or_expired_code : AuthError
  email_verification_in_progress email_already_verified : AuthError
  empty_refresh_token unauthenticated repo_not_found nil_pointer bad_token bad_key : AuthError

abbrev pub Run : Type 0 → Type 0
Run A = Action Db AuthError A

-- Instants are counted in nanoseconds.
abbrev pub minute : Time
minute = 60000000000

abbrev pub hour : Time
hour = 60 * minute

abbrev pub day : Time
day = 24 * hour

-- What the repository does not hold: PostgreSQL's `lower`, its order of texts and its reading of the type `inet`, SHA-256,
-- bcrypt (the salt is the n-th draw), the texts that the random sources give at the n-th draw, and
-- `UUID.String` and `uuid.Parse`.
pub record Outside : Type 0 where
  pub lower : String → String
  pub text_before : String → String → Bool
  pub is_inet : String → Bool
  pub digest : String → String
  pub hash_password : ℕ → String → String
  pub compare_password : String → String → Bool
  pub digits : ℕ → ℕ → String
  pub opaque : ℕ → String
  pub from_uuid : Uuid → String
  pub parse_uuid : String → Option Uuid
