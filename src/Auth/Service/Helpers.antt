-- ===== src/Auth/Service/Helpers.antt =====
-- What the operations share: the user of the context, the random source, bcrypt, the rate limits of
-- cache/redis.go and the mails. Any of these calls can fail, as a statement can.
use order_hub.Base.{
  ℕ, suc, ◌+◌, Uuid, Time, String, str_eq, Bool, false, Option, none, some, ◌∷◌, ltb, ◌==◌,
  if◌then◌else◌, ◌&&◌,
}
use order_hub.Base.Rows.{any_where, delete_where}
use order_hub.Base.Store.{
  ok, service, pool, pure, fail, clock_now, query, exec, catch, ignore, ◌>>=◌,
}
use order_hub.Auth.Models.{
  Role, User, Code, RedisKey, RedisEntry, Mail, Db, not_found, nil_pointer, unauthenticated, Run,
  Outside, minute, pwd_reset, email_ver, jwk, blacklist,
}
use order_hub.Auth.Service.Types.{CacheClient}

-- `UserIDFromContext`: `uuid.Nil` is no user
abbrev pub user_id_from_context : Option Uuid → Option Uuid
user_id_from_context none = none
user_id_from_context (some id) = if id == 0 then none else some id

abbrev need_user : Option Uuid → Run Uuid
need_user none = fail (service unauthenticated)
need_user (some id) = pure id

unfoldable pub context_user : Option Uuid → Run Uuid
context_user ctx = need_user (user_id_from_context ctx)

abbrev pub role_name : Role → String
role_name Role.role_customer = "ROLE_CUSTOMER"
role_name Role.role_vendor = "ROLE_VENDOR"
role_name Role.role_admin = "ROLE_ADMIN"

-- `uuid.New()`
unfoldable pub fresh_id : Run Uuid
fresh_id w = (
  ok w.db.next_id,
  record w {
    db = record w.db { next_id = suc w.db.next_id };
    tx = record w.tx { next_id = suc w.tx.next_id };
  },
)

abbrev pub count_draw : Db → Db
count_draw d = record d { drawn = suc d.drawn }

unfoldable pub draw : Run ℕ
draw = exec pool (λ d. ok (d.drawn, count_draw d))

abbrev pub mailed : Mail → Db → Db
mailed m d = record d { mails = m ∷ d.mails }

unfoldable pub send_email : Mail → Run (Unit {0})
send_email m = exec pool (λ d. ok (tt, mailed m d))

-- a method call or a field of a nil pointer
unfoldable pub deref : Option User → Run User
deref none = fail (service nil_pointer)
deref (some u) = pure u

abbrev pub found_user : Option User → Run User
found_user none = fail (service not_found)
found_user (some u) = pure u

abbrev pub same_key : RedisKey → RedisKey → Bool
same_key (pwd_reset a) (pwd_reset b) = str_eq a b
same_key (email_ver a) (email_ver b) = a == b
same_key (jwk a) (jwk b) = str_eq a b
same_key (blacklist a) (blacklist b) = str_eq a b
same_key _ _ = false

abbrev pub alive : RedisKey → Time → RedisEntry → Bool
alive key now e = same_key e.key key && ltb now e.expires

abbrev pub entry_set : RedisKey → String → Time → Db → Db
entry_set key value expires d = record d {
  redis =
      (record { key = key; value = value; expires = expires })
      ∷ delete_where (λ (e : RedisEntry). same_key e.key key) d.redis;
}

-- `SET key value EX ttl`
unfoldable pub redis_set : RedisKey → String → Time → Run (Unit {0})
redis_set key value ttl = do
  now ← clock_now
  exec pool (λ d. ok (tt, entry_set key value (now + ttl) d))

-- `EXISTS key`
unfoldable pub redis_exists : RedisKey → Run Bool
redis_exists key = do now ← clock_now; query pool (λ d. ok (any_where (alive key now) d.redis))

-- A failure of Redis is no limit; a method of a nil client panics.
unfoldable pub rate_limited : CacheClient → RedisKey → Run Bool
rate_limited CacheClient.no_cache key = pure false
rate_limited CacheClient.redis_client key = catch (redis_exists key) (λ _. pure false)
rate_limited CacheClient.nil_client key = fail (service nil_pointer)

unfoldable pub set_rate_limit : CacheClient → RedisKey → Run (Unit {0})
set_rate_limit CacheClient.no_cache key = pure tt
set_rate_limit CacheClient.redis_client key = ignore (redis_set key "1" minute)
set_rate_limit CacheClient.nil_client key = fail (service nil_pointer)

-- the latest code, where an error counts as none
unfoldable pub latest_or_none : Run Code → Run (Option Code)
latest_or_none find = catch (do c ← find; pure (some c)) (λ _. pure none)

-- `now.Sub(latest.CreatedAt) < time.Minute`
abbrev pub cooling : Time → Option Code → Bool
cooling now none = false
cooling now (some c) = ltb now (c.created_at + minute)

module _ (ext : Outside) where
  unfoldable pub draw_digits : ℕ → Run String
  unfolding draw
  draw_digits n = do i ← draw; pure (ext.digits n i)

  -- `Hash` of hashing/bcrypt.go
  unfoldable pub hash_password : String → Run String
  unfolding draw
  hash_password password = do i ← draw; pure (ext.hash_password i password)
