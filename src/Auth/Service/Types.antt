-- ===== src/Auth/Service/Types.antt =====
-- ports.go and the fields of `AuthService`: the token provider is an interface, which token/jwt_rsa.go
-- implements (Auth.Token); `cache` is an interface that may hold nil, a client, or a nil client.
use order_hub.Base.{Uuid, Time, String, Option}
use order_hub.Auth.Models.{Run}

pub record Claims : Type 0 where
  pub user_id : Uuid
  pub role : String
  pub exp : Time

pub record Access : Type 0 where
  pub token : String
  pub exp : Time

pub record NewToken : Type 0 where
  pub opaque : String
  pub hash : String
  pub exp : Time

pub record TokenProvider : Type 0 where
  pub sign_access : Uuid → String → Time → Run Access
  pub new_refresh : Uuid → Time → Run NewToken
  pub parse_and_validate_access : String → Run Claims
  pub blacklist_token : String → Run (Unit {0})

-- `main` passes a `*RedisClient` that is nil when Redis is disabled: the interface is not nil then.
pub data CacheClient : Type 0 where
  no_cache redis_client nil_client : CacheClient

pub record AuthService : Type 0 where
  pub tokens : TokenProvider
  pub cache : CacheClient
  pub access_ttl : Time
  pub refresh_ttl : Time

pub record ClientMeta : Type 0 where
  pub client_id : Option String
  pub ip : Option String
  pub user_agent : Option String

pub record TokenPair : Type 0 where
  pub access_token : String
  pub access_expires_at : Time
  pub refresh_opaque : String
  pub refresh_expires_at : Time
  pub refresh_hash : String
