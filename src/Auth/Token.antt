-- ===== src/Auth/Token.antt =====
-- token/jwt_rsa.go: `RSAProvider`, over the libraries for JWT, RSA, PEM and X.509, which are a parameter.
pub mod Bytes
pub mod Keeps
pub mod PublicKeys
pub mod Accepts
use order_hub.Base.{
  ℕ, ◌+◌, ◌-◌, Uuid, Time, String, str_eq, Bool, true, false, Option, none, some, List, [], ◌∷◌,
  ltb, if◌then◌else◌, not, ◌&&◌,
}
use order_hub.Base.Rows.{find_where}
use order_hub.Base.Store.{
  Result, ok, err, Error, service, pool, pure, fail, guard, lift, clock_now, query, exec, catch,
  ignore, ◌>>=◌, ◌>>◌,
}
use order_hub.Auth.Models.{
  JwkKey, KeyRing, RedisEntry, RedisKey, jwk, blacklist, Db, AuthError, bad_token, bad_key,
  nil_pointer, Run, Outside, day,
}
use order_hub.Auth.Repo.Jwks
use order_hub.Auth.Repo.Jwks.{PublicJwk}
use order_hub.Auth.Service.Types.{Claims, Access, NewToken, TokenProvider}
use order_hub.Auth.Service.Helpers.{draw, fresh_id, redis_set, redis_exists, alive}

-- `customClaims`, with the registered claims that the code sets
pub record CustomClaims : Type 0 where
  pub sub : String
  pub role : String
  pub id : String
  pub issuer : String
  pub audience : String
  pub issued_at : Time
  pub expires_at : Option Time

-- a token that is read and not verified
pub record RawToken : Type 0 where
  pub is_rs256 : Bool
  pub kid : String
  pub claims : CustomClaims

-- The libraries: keys are texts here; `numeric_date` is the rounding of a time to the precision of the
-- claims, and `validate now issuer audience` is what the parser checks of them.
pub record Crypto : Type 0 where
  pub generate : ℕ → String
  pub key_id : ℕ → String
  pub modulus : String → String
  pub exponent : String → String
  pub encode_private : String → String
  pub parse_private : String → Option String
  pub jwk_to_public : String → String → Option String
  pub pem_to_public : String → Option String
  pub public_to_pem : String → Option String
  pub sign : String → String → CustomClaims → Option String
  pub parse : String → Option RawToken
  pub verify : String → String → Bool
  pub numeric_date : Time → Time
  pub validate : Time → String → String → CustomClaims → Bool

-- `issuer`, `audience`, and whether `SetCache` was called
pub record Settings : Type 0 where
  pub issuer : String
  pub audience : String
  pub has_cache : Bool

abbrev pub with_ring : KeyRing → Db → Db
with_ring ring d = record d { ring = ring }

unfoldable pub update_ring : (KeyRing → KeyRing) → Run (Unit {0})
update_ring set w =
    (ok tt, record w { db = with_ring (set w.db.ring) w.db; tx = with_ring (set w.tx.ring) w.tx })

unfoldable pub read_ring : Run KeyRing
read_ring w = (ok w.db.ring, w)

unfoldable pub need : {A : Type 0} → AuthError → Option A → Run A
need e none = fail (service e)
need e (some a) = pure a

abbrev pub remember_key : String → String → KeyRing → KeyRing
remember_key kid key ring = record ring { active = some (kid, key) }

abbrev pub remember_public : String → String → KeyRing → KeyRing
remember_public kid key ring = record ring { pub_keys = (kid, key) ∷ ring.pub_keys }

-- `p.privKey != nil && p.activeKid != ""`
abbrev pub usable : Option (String × String) → Option (String × String)
usable none = none
usable (some (kid, key)) = if str_eq kid "" then none else some (kid, key)

abbrev pub key_record : Crypto → String → String → Time → JwkKey
key_record crypto kid key now = record {
  kid = kid;
  alg = "RS256";
  kty = "RSA";
  key_use = "sig";
  n = crypto.modulus key;
  e = crypto.exponent key;
  priv_pem = crypto.encode_private key;
  active = true;
  created_at = now;
  rotates_at = none;
}

module _ (ext : Outside) (crypto : Crypto) (conf : Settings) where
  -- a stored key that cannot be read is an error; its absence, or an error of the query, makes a new key
  unfoldable pub load_or_generate : Option JwkKey → Run (String × String)
  unfolding need update_ring draw
  load_or_generate (some rec) = do
    key ← need bad_key (crypto.parse_private rec.priv_pem)
    update_ring (remember_key rec.kid key)
    pure (rec.kid, key)
  load_or_generate none = do
    i ← draw
    j ← draw
    now ← clock_now
    Jwks.create (key_record crypto (crypto.key_id j) (crypto.generate i) now)
    Jwks.set_active (crypto.key_id j)
    update_ring (remember_key (crypto.key_id j) (crypto.generate i))
    pure (crypto.key_id j, crypto.generate i)

  abbrev pub held_key : Option (String × String) → Run (String × String) → Run (String × String)
  held_key none load = load
  held_key (some k) load = pure k

  -- the stored key, where an error counts as none
  unfoldable pub stored_key : Run (Option JwkKey)
  stored_key = catch (do k ← Jwks.get_active ext; pure (some k)) (λ _. pure none)

  unfoldable pub ensure_active_key : Run (String × String)
  unfolding load_or_generate stored_key read_ring
  ensure_active_key = do
    ring ← read_ring
    held_key (usable ring.active) (do found ← stored_key; load_or_generate found)

  abbrev pub claims_of : Uuid → String → Uuid → Time → Time → CustomClaims
  claims_of sub role jti now ttl = record {
    sub = ext.from_uuid sub;
    role = role;
    id = ext.from_uuid jti;
    issuer = conf.issuer;
    audience = conf.audience;
    issued_at = crypto.numeric_date now;
    expires_at = some (crypto.numeric_date (now + ttl));
  }

  unfoldable pub sign_access : Uuid → String → Time → Run Access
  unfolding ensure_active_key need fresh_id
  sign_access sub role ttl = do
    key ← ensure_active_key
    now ← clock_now
    jti ← fresh_id
    token ← need bad_key (crypto.sign key.1 key.0 (claims_of sub role jti now ttl))
    pure (record { token = token; exp = now + ttl })

  unfoldable pub new_refresh : Uuid → Time → Run NewToken
  unfolding draw
  new_refresh sub ttl = do
    now ← clock_now
    i ← draw
    pure (record { opaque = ext.opaque i; hash = ext.digest (ext.opaque i); exp = now + ttl })

  abbrev pub same_kid : String → String × String → Bool
  same_kid kid entry = str_eq entry.0 kid

  abbrev pub second : Option (String × String) → Option String
  second none = none
  second (some p) = some p.1

  -- a cached key that cannot be read counts as none
  abbrev pub read_entry : Option RedisEntry → Option String
  read_entry none = none
  read_entry (some e) = crypto.pem_to_public e.value

  unfoldable pub cached_public : String → Run (Option String)
  cached_public kid =
      if conf.has_cache
      then catch
          (do
            now ← clock_now
            query pool (λ d. ok (read_entry (find_where (alive (jwk kid) now) d.redis))))
          (λ _. pure none)
      else pure none

  unfoldable pub cache_public : String → Option String → Run (Unit {0})
  cache_public kid none = pure tt
  cache_public kid (some pem) =
      if conf.has_cache then ignore (redis_set (jwk kid) pem day) else pure tt

  abbrev pub stored_public : String → Option String → Run String
  stored_public kid (some key) = do update_ring (remember_public kid key); pure key
  stored_public kid none = do
    rec ← catch (Jwks.get_by_kid kid) (λ _. fail (service bad_token))
    key ← need bad_token (crypto.jwk_to_public rec.n rec.e)
    update_ring (remember_public kid key)
    cache_public kid (crypto.public_to_pem key)
    pure key

  abbrev pub known_public : String → Option String → Run String
  known_public kid (some key) = pure key
  known_public kid none = do found ← cached_public kid; stored_public kid found

  -- `keyfunc`: memory, then Redis, then the table
  unfoldable pub public_key : RawToken → Run String
  unfolding read_ring need update_ring cached_public cache_public
  public_key raw = do
    guard raw.is_rs256 bad_token
    guard (not (str_eq raw.kid "")) bad_token
    ring ← read_ring
    known_public raw.kid (second (find_where (same_kid raw.kid) ring.pub_keys))

  -- A failure of Redis is no blacklist.
  unfoldable pub is_blacklisted : String → Run Bool
  is_blacklisted jti =
      if conf.has_cache && not (str_eq jti "")
      then catch (redis_exists (blacklist jti)) (λ _. pure false)
      else pure false

  unfoldable pub parse_and_validate_access : String → Run Claims
  unfolding public_key is_blacklisted need
  parse_and_validate_access token = do
    raw ← need bad_token (crypto.parse token)
    key ← public_key raw
    guard (crypto.verify key token) bad_token
    now ← clock_now
    guard (crypto.validate now conf.issuer conf.audience raw.claims) bad_token
    listed ← is_blacklisted raw.claims.id
    guard (not listed) bad_token
    uid ← need bad_token (ext.parse_uuid raw.claims.sub)
    exp ← need nil_pointer raw.claims.expires_at
    pure (record { user_id = uid; role = raw.claims.role; exp = exp })

  -- until the token expires; one that has expired needs no entry
  unfoldable pub blacklist_token : String → Run (Unit {0})
  unfolding need
  blacklist_token token =
      if conf.has_cache
      then (do
        raw ← need bad_token (crypto.parse token)
        guard (not (str_eq raw.claims.id "")) bad_token
        now ← clock_now
        exp ← need nil_pointer raw.claims.expires_at
        if ltb exp now then pure tt else redis_set (blacklist raw.claims.id) "1" (exp - now))
      else pure tt

  unfoldable pub list_public_jwk : Run (List PublicJwk)
  list_public_jwk = Jwks.list_public

  -- the interface that the service uses
  abbrev pub rsa_provider : TokenProvider
  rsa_provider = record {
    sign_access = sign_access;
    new_refresh = new_refresh;
    parse_and_validate_access = parse_and_validate_access;
    blacklist_token = blacklist_token;
  }
