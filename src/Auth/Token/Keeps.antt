-- ===== src/Auth/Token/Keeps.antt =====
-- `RSAProvider` leaves the accounts alone: it fills the interface that the service relies on.
use order_hub.Base.{
  arith, ℕ, ◌+◌, ◌-◌, Uuid, Time, String, str_eq, ◌≡◌, refl, sym, ap, Option, none, some, ◌∷◌, ltb,
  if◌then◌else◌, not, Bool-cases, inl, inr,
}
use order_hub.Base.Rows.{first_by}
use order_hub.Base.Store.{
  World, Result, ok, err, ok_injective, pool, pure, guard, clock_now, query, ◌>>=◌, ◌>>◌,
}
use order_hub.Base.Post.{Post, Post-bind, Post-query, Post-catch, Post-guard_then}
use order_hub.Auth.Models.{
  JwkKey, KeyRing, Db, AuthError, bad_token, bad_key, nil_pointer, RedisKey, blacklist, Run,
  Outside,
}
use order_hub.Auth.Repo.Jwks
use order_hub.Auth.Repo.Jwks.{found_key, is_active, kid_order}
use order_hub.Auth.Service.Types.{Access, NewToken}
use order_hub.Auth.Service.Helpers.{draw, fresh_id, redis_set, entry_set}
use order_hub.Auth.Book.{Book, book, At, exec-At}
use order_hub.Auth.Book.Statements.{draw-At}
use order_hub.Auth.Keys.{set_active-At}
use order_hub.Auth.Provider.{IsProvider}
use order_hub.Auth.Token.{
  Crypto, Settings, need, usable, held_key, remember_key, key_record, claims_of, update_ring,
  read_ring, load_or_generate, stored_key, ensure_active_key, sign_access, new_refresh,
  blacklist_token, rsa_provider, RawToken,
}

key_ok :
    (k : JwkKey) (a : Unit {0}) (d d' : Db) → Jwks.create_row k d ≡ ok (a, d') → book d' ≡ book d
unfolding Jwks.create_row
key_ok k a d d' e =
    let row : d' ≡ Jwks.with_keys (k ∷ d.ring.jwk_keys) d = ground arith in rw row refl

module _ (s : Book) (now : Time) where
  abbrev Same : {A : Type 0} → A → World Db → Type 0
  Same _ v = At s now v

  answer-At :
      {A : Type 0} (r : Result AuthError A) (v : World Db) → At s now v → Post Same Same (r, v)
  answer-At (ok a) v h = h
  answer-At (err e) v h = h

  read-At :
      {A : Type 0} (f : Db → Result AuthError A) (w : World Db)
      → At s now w
      → Post Same Same (query pool f w)
  read-At f w h =
      Post-query Same Same pool f w
        (λ gs.
          answer-At (f w.db) (record w { faults = gs })
            (record { reads = h.reads; clock = h.clock }))
        (λ gs. record { reads = h.reads; clock = h.clock })

  need-At :
      {A : Type 0} (e : AuthError) (o : Option A) (w : World Db)
      → At s now w
      → Post Same Same (need e o w)
  unfolding need
  need-At e none w h = h
  need-At e (some a) w h = h

  ring-At :
      (set : KeyRing → KeyRing) (w : World Db) → At s now w → Post Same Same (update_ring set w)
  unfolding update_ring
  ring-At set w h = record { reads = h.reads; clock = h.clock }

  id-At : (w : World Db) → At s now w → Post Same Same (fresh_id w)
  unfolding fresh_id
  id-At w h = record { reads = h.reads; clock = h.clock }

  redis-At :
      (key : RedisKey) (value : String) (ttl : Time) (w : World Db)
      → At s now w
      → Post Same Same (redis_set key value ttl w)
  unfolding redis_set
  redis-At key value ttl w h =
      exec-At s now Same (λ d. ok (tt, entry_set key value (w.clock + ttl) d)) (λ _ b. b) w
        (λ a d d' e. ap (λ p. book p.1) (sym (ok_injective e))) (λ _ _ k. k) h

  create_key-At : (k : JwkKey) (w : World Db) → At s now w → Post Same Same (Jwks.create k w)
  unfolding Jwks.create
  create_key-At k w h =
      exec-At s now Same (Jwks.create_row k) (λ _ b. b) w (key_ok k) (λ _ _ q. q) h

  module _ (ext : Outside) (crypto : Crypto) (conf : Settings) where
    load_or_generate-At :
        (o : Option JwkKey) (w : World Db)
        → At s now w
        → Post Same Same (load_or_generate ext crypto conf o w)
    unfolding load_or_generate
    load_or_generate-At (some rec) w h =
        Post-bind Same Same Same (need bad_key (crypto.parse_private rec.priv_pem))
          (λ key. update_ring (remember_key rec.kid key) >> pure (rec.kid, key)) w
          (need-At bad_key (crypto.parse_private rec.priv_pem) w h)
          (λ key w1 h1.
            Post-bind {B = String × String} Same Same Same (update_ring (remember_key rec.kid key))
              (λ _. pure (rec.kid, key)) w1 (ring-At (remember_key rec.kid key) w1 h1) (λ _ _ k. k))
    load_or_generate-At none w h =
        let key : ℕ → String = crypto.generate in
        let kid : ℕ → String = crypto.key_id in
        let finish : ℕ → ℕ → Run (String × String) =
          λ i j. update_ring (remember_key (kid j) (key i)) >> pure (kid j, key i) in
        let store : ℕ → ℕ → Time → Run (String × String) = λ i j t.
          Jwks.create (key_record crypto (kid j) (key i) t)
          >> (Jwks.set_active (kid j) >> finish i j) in
        Post-bind Same Same Same draw (λ i. draw >>= λ j. clock_now >>= store i j) w
          (draw-At s now Same w (λ _ _ k. k) h)
          (λ i w1 h1.
            Post-bind Same Same Same draw (λ j. clock_now >>= store i j) w1
              (draw-At s now Same w1 (λ _ _ k. k) h1)
              (λ j w2 h2.
                Post-bind Same Same Same (Jwks.create (key_record crypto (kid j) (key i) w2.clock))
                  (λ _. Jwks.set_active (kid j) >> finish i j) w2
                  (create_key-At (key_record crypto (kid j) (key i) w2.clock) w2 h2)
                  (λ _ w3 h3.
                    Post-bind Same Same Same (Jwks.set_active (kid j)) (λ _. finish i j) w3
                      (set_active-At s now (kid j) w3 h3)
                      (λ _ w4 h4.
                        Post-bind {B = String × String} Same Same Same
                          (update_ring (remember_key (kid j) (key i))) (λ _. pure (kid j, key i)) w4
                          (ring-At (remember_key (kid j) (key i)) w4 h4) (λ _ _ k. k)))))

    stored_key-At : (w : World Db) → At s now w → Post Same Same (stored_key ext crypto conf w)
    unfolding stored_key Jwks.get_active
    stored_key-At w h =
        let find : Run (Option JwkKey) = Jwks.get_active ext >>= λ k. pure (some k) in
        Post-catch Same Same Same Same find (λ _. pure none) w
          (Post-bind Same Same Same (Jwks.get_active ext) (λ k. pure (some k)) w
            (read-At (λ d. found_key (first_by (kid_order ext) is_active d.ring.jwk_keys)) w h)
            (λ _ _ k. k))
          (λ _ _ k. k) (λ _ _ k. k)

    ensure_active_key-At :
        (w : World Db) → At s now w → Post Same Same (ensure_active_key ext crypto conf w)
    unfolding ensure_active_key read_ring
    ensure_active_key-At w h = held (usable w.db.ring.active)
      where
        held :
            (o : Option (String × String))
            → Post Same Same (
                held_key ext crypto conf o
                  (stored_key ext crypto conf >>= load_or_generate ext crypto conf)
                  w)
        held (some k) = h
        held none =
            Post-bind Same Same Same (stored_key ext crypto conf) (load_or_generate ext crypto conf)
              w (stored_key-At w h) (λ o v k. load_or_generate-At o v k)

    sign_access-At :
        (user : Uuid) (role : String) (ttl : Time) (w : World Db)
        → At s now w
        → Post Same Same (sign_access ext crypto conf user role ttl w)
    unfolding sign_access
    sign_access-At user role ttl w h =
        let answer : Time → String → Run Access =
          λ t token. pure (record { token = token; exp = t + ttl }) in
        let sign : String × String → Time → Uuid → Run Access = λ key t jti.
          need bad_key (crypto.sign key.1 key.0 (claims_of ext crypto conf user role jti t ttl))
          >>= answer t in
        Post-bind Same Same Same (ensure_active_key ext crypto conf)
          (λ key. clock_now >>= λ t. fresh_id >>= sign key t) w (ensure_active_key-At w h)
          (λ key w1 h1.
            Post-bind Same Same Same fresh_id (sign key w1.clock) w1 (id-At w1 h1) (λ jti w2 h2.
              let o : Option String =
                crypto.sign key.1 key.0 (claims_of ext crypto conf user role jti w1.clock ttl) in
              Post-bind Same Same Same (need bad_key o) (answer w1.clock) w2
                (need-At bad_key o w2 h2) (λ _ _ k. k)))

    new_refresh-At :
        (user : Uuid) (ttl : Time) (w : World Db)
        → At s now w
        → Post Same Same (new_refresh ext crypto conf user ttl w)
    unfolding new_refresh
    new_refresh-At user ttl w h =
        let answer : ℕ → Run NewToken = λ i. pure (record {
          opaque = ext.opaque i;
          hash = ext.digest (ext.opaque i);
          exp = w.clock + ttl;
        }) in
        Post-bind Same Same Same draw answer w (draw-At s now Same w (λ _ _ k. k) h) (λ _ _ k. k)

    blacklist_token-At :
        (token : String) (w : World Db)
        → At s now w
        → Post Same Same (blacklist_token ext crypto conf token w)
    unfolding blacklist_token
    blacklist_token-At token w h = elim (Bool-cases conf.has_cache) [
      | inr none_there ↦ rw none_there h
      | inl there ↦ rw there (
          let list : RawToken → Time → Time → Run (Unit {0}) = λ raw t exp.
            if ltb exp t then pure tt else redis_set (blacklist raw.claims.id) "1" (exp - t) in
          let check : RawToken → Run (Unit {0}) = λ raw.
            guard (not (str_eq raw.claims.id "")) bad_token
            >> (clock_now >>= λ t. need nil_pointer raw.claims.expires_at >>= list raw t) in
          Post-bind Same Same Same (need bad_token (crypto.parse token)) check w
            (need-At bad_token (crypto.parse token) w h)
            (λ raw w1 h1.
              Post-guard_then Same Same (not (str_eq raw.claims.id "")) bad_token
                (clock_now >>= λ t. need nil_pointer raw.claims.expires_at >>= list raw t) w1
                (λ _.
                  Post-bind Same Same Same (need nil_pointer raw.claims.expires_at)
                    (list raw w1.clock) w1 (need-At nil_pointer raw.claims.expires_at w1 h1)
                    (λ exp w2 h2. elim (Bool-cases (ltb exp w1.clock)) [
                      | inl past ↦ rw past h2
                      | inr ahead ↦
                          rw ahead (redis-At (blacklist raw.claims.id) "1" (exp - w1.clock) w2 h2)
                    ]))
                (λ _. h1)))
    ]

-- `RSAProvider` is a token provider as the service relies on it: whatever statements fail, signing an access
-- token, making a refresh token and blacklisting an access token leave the users, the refresh tokens, the
-- sessions and the codes as they are, apart from the times of the last use, and the clock too.
pub rsa_provider-IsProvider :
    (ext : Outside) (crypto : Crypto) (conf : Settings) → IsProvider (rsa_provider ext crypto conf)
rsa_provider-IsProvider ext crypto conf = record {
  sign_access_keeps =
      λ s now user role ttl w h. sign_access-At s now ext crypto conf user role ttl w h;
  new_refresh_keeps = λ s now user ttl w h. new_refresh-At s now ext crypto conf user ttl w h;
  blacklist_token_keeps = λ s now token w h. blacklist_token-At s now ext crypto conf token w h;
}
