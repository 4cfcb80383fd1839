-- ===== src/Auth/Token/PublicKeys.antt =====
-- Where the public key that a token is checked with comes from.
use mathlib.Core.Path.{subst}
use order_hub.Base.{
  ltb, ◌&&◌, ◌≡◌, refl, sym, ap, ◌∙◌, ◌⊎◌, inl, inr, Bool, true, false, not, String, str_eq, Time,
  Option, none, some, if◌then◌else◌, ◌+◌, Option-cases, Bool-cases, some_injective,
}
use order_hub.Base.Rows.{find_where}
use order_hub.Base.Store.{
  World, Result, ok, Error, ok_injective, service, pool, exec, pure, fail, guard, query, catch,
  ◌>>=◌, ◌>>◌,
}
use order_hub.Base.Post.{
  Post, Post-bind, Post-query, Post-catch, Post-guard_then, Post-mono, Post-ignore, Post-exec_pool,
}
use order_hub.Auth.Models.{JwkKey, RedisEntry, jwk, Db, AuthError, bad_token, Run, Outside, day}
use order_hub.Auth.Repo.Jwks
use order_hub.Auth.Repo.Jwks.{has_kid, found_key}
use order_hub.Auth.Service.Helpers.{alive, same_key, redis_set, entry_set}
use order_hub.Auth.Book.{Reads, catch-Reads}
use order_hub.Auth.Token.{
  with_ring, Crypto, Settings, RawToken, need, update_ring, read_ring, remember_public, same_kid,
  second, read_entry, cached_public, cache_public, stored_public, known_public, public_key,
}

module _ (ext : Outside) (crypto : Crypto) (conf : Settings) where
  -- where the public key of a key identifier is found: in memory, in Redis, or in the table
  pub data IsKnown (d : Db) (now : Time) (kid key : String) : Type 0 where
    in_memory :
        (e : String × String)
        → find_where (λ e. str_eq e.0 kid) d.ring.pub_keys ≡ some e
        → e.1 ≡ key
        → IsKnown d now kid key
    in_redis :
        (e : RedisEntry)
        → find_where (λ e. same_key e.key (jwk kid) && ltb now e.expires) d.redis ≡ some e
        → crypto.pem_to_public e.value ≡ some key
        → IsKnown d now kid key
    in_table :
        (k : JwkKey)
        → find_where (λ k. str_eq k.kid kid) d.ring.jwk_keys ≡ some k
        → crypto.jwk_to_public k.n k.e ≡ some key
        → IsKnown d now kid key

  abbrev pub Any : Error AuthError → World Db → Type 0
  Any _ _ = Unit {0}

  -- what both branches promise
  Post-if :
      {A : Type 0} (Q : A → World Db → Type 0) (X : Error AuthError → World Db → Type 0) (b : Bool)
      (m n : Run A) (w : World Db)
      → Post Q X (m w)
      → Post Q X (n w)
      → Post Q X ((if b then m else n) w)
  Post-if Q X true m n w p q = p
  Post-if Q X false m n w p q = q

  pub need-some :
      {A : Type 0} (e : AuthError) (o : Option A) (w : World Db)
      → Post (λ a v. (o ≡ some a) × (v ≡ w)) Any (need e o w)
  unfolding need
  need-some e none w = tt
  need-some e (some a) w = (refl, refl)

  module _ (d : Db) (now : Time) where
    -- a key that is known, and the clock as before
    abbrev pub Key : String → String → World Db → Type 0
    Key kid key v = IsKnown d now kid key × (v.clock ≡ now)

    abbrev MaybeKnown : String → Option String → Type 0
    MaybeKnown kid o = (o ≡ none) ⊎ ((key : String) × (o ≡ some key) × IsKnown d now kid key)

    entry_known :
        (kid : String) (o : Option RedisEntry)
        → find_where (alive (jwk kid) now) d.redis ≡ o
        → MaybeKnown kid (read_entry ext crypto conf o)
    entry_known kid none e = inl refl
    entry_known kid (some x) e = elim (Option-cases (crypto.pem_to_public x.value)) [
      | inl unreadable ↦ inl unreadable
      | inr (key, p) ↦ inr (key, p, IsKnown.in_redis x e p)
    ]

    cached-known :
        (kid : String) (w : World Db)
        → Reads d now w
        → Post (λ o v. Reads d now v × MaybeKnown kid o) Any (cached_public ext crypto conf kid w)
    unfolding cached_public
    cached-known kid w h =
        let Q : Option String → World Db → Type 0 = λ o v. Reads d now v × MaybeKnown kid o in
        let find : Time → Db → Result AuthError (Option String) =
          λ t x. ok (read_entry ext crypto conf (find_where (alive (jwk kid) t) x.redis)) in
        let same : find_where (alive (jwk kid) now) d.redis
            ≡ find_where (alive (jwk kid) w.clock) w.db.redis =
          sym (
            ap (λ (t : Db). find_where (alive (jwk kid) w.clock) t.redis) h.0
            ∙ ap (λ t. find_where (alive (jwk kid) t) d.redis) h.1) in
        Post-if Q Any conf.has_cache (catch (λ v. query pool (find v.clock) v) (λ _. pure none))
          (pure none) w
          (Post-catch Q Q (λ _ v. Reads d now v) Any (λ v. query pool (find v.clock) v)
            (λ _. pure none) w
            (Post-query Q (λ _ v. Reads d now v) pool (find w.clock) w
              (λ gs. (h, entry_known kid _ same)) (λ gs. h))
            (λ _ _ k. k) (λ _ _ k. (k, inl refl)))
          (h, inl refl)

    cache_public-clock :
        (kid : String) (o : Option String) (w : World Db)
        → w.clock ≡ now
        → Post (λ _ v. v.clock ≡ now) Any (cache_public ext crypto conf kid o w)
    unfolding cache_public redis_set
    cache_public-clock kid none w h = h
    cache_public-clock kid (some pem) w h = elim (Bool-cases conf.has_cache) [
      | inr no_cache ↦ rw no_cache h
      | inl has_cache ↦
          let f : Db → Result AuthError (Unit {0} × Db) =
            λ x. ok (tt, entry_set (jwk kid) pem (w.clock + day) x) in
          rw has_cache (
            Post-ignore (λ v. v.clock ≡ now) Any (exec pool f) w
              (Post-exec_pool (λ _ v. v.clock ≡ now) (λ _ v. v.clock ≡ now) f w (λ _ _ _ _. h)
                (λ _ _. h)))
    ]

    row-IsKnown :
        (kid : String) (k : JwkKey) (o : Option JwkKey) (key : String)
        → find_where (has_kid kid) d.ring.jwk_keys ≡ o
        → found_key o ≡ ok k
        → crypto.jwk_to_public k.n k.e ≡ some key
        → IsKnown d now kid key
    row-IsKnown kid k none key e f p = cc
    row-IsKnown kid k (some x) key e f p = IsKnown.in_table k (e ∙ ap some (ok_injective f)) p

    stored-known :
        (kid : String) (o : Option String) (w : World Db)
        → MaybeKnown kid o
        → Reads d now w
        → Post (λ key v. Key kid key v) Any (stored_public ext crypto conf kid o w)
    unfolding update_ring Jwks.get_by_kid
    stored-known kid (some key) w (inl bad) h = cc
    stored-known kid (some key) w (inr (x, e, k)) h =
        (subst (IsKnown d now kid) (sym (some_injective _ _ e)) k, h.1)
    stored-known kid none w m h =
        let find : Db → Result AuthError JwkKey =
          λ t. found_key (find_where (has_kid kid) t.ring.jwk_keys) in
        let Q : String → World Db → Type 0 = λ key v. Key kid key v in
        let store : String → Run String = λ key.
          update_ring (remember_public kid key)
          >> (cache_public ext crypto conf kid (crypto.public_to_pem key) >> pure key) in
        Post-bind (λ k v. (find d ≡ ok k) × Reads d now v) Q Any
          (catch (query pool find) (λ _. fail (service bad_token)))
          (λ k. need bad_token (crypto.jwk_to_public k.n k.e) >>= store) w
          (catch-Reads d now Any find bad_token w (λ _ _ _. tt) h)
          (λ k v (e, r).
            Post-bind (λ key u. (crypto.jwk_to_public k.n k.e ≡ some key) × (u ≡ v)) Q Any
              (need bad_token (crypto.jwk_to_public k.n k.e)) store v
              (need-some bad_token (crypto.jwk_to_public k.n k.e) v)
              (λ key u (p, same).
                Post-bind (λ _ x. x.clock ≡ now) Q Any
                  (cache_public ext crypto conf kid (crypto.public_to_pem key)) (λ _. pure key)
                  (record u {
                    db = with_ring (remember_public kid key u.db.ring) u.db;
                    tx = with_ring (remember_public kid key u.tx.ring) u.tx;
                  })
                  (cache_public-clock kid (crypto.public_to_pem key)
                    (record u {
                      db = with_ring (remember_public kid key u.db.ring) u.db;
                      tx = with_ring (remember_public kid key u.tx.ring) u.tx;
                    })
                    (ap (λ (x : World Db). x.clock) same ∙ r.1))
                  (λ _ x c. (row-IsKnown kid k _ key refl e p, c))))

    known_public-known :
        (kid : String) (o : Option String) (w : World Db)
        → MaybeKnown kid o
        → Reads d now w
        → Post (λ key v. Key kid key v) Any (known_public ext crypto conf kid o w)
    known_public-known kid (some key) w (inl bad) h = cc
    known_public-known kid (some key) w (inr (x, e, k)) h =
        (subst (IsKnown d now kid) (sym (some_injective _ _ e)) k, h.1)
    known_public-known kid none w m h =
        Post-bind (λ o v. Reads d now v × MaybeKnown kid o) (λ key v. Key kid key v) Any
          (cached_public ext crypto conf kid) (stored_public ext crypto conf kid) w
          (cached-known kid w h) (λ o v (r, k). stored-known kid o v k r)

    memory_known :
        (kid : String) (o : Option (String × String))
        → find_where (λ e. str_eq e.0 kid) d.ring.pub_keys ≡ o
        → MaybeKnown kid (second ext crypto conf o)
    memory_known kid none e = inl refl
    memory_known kid (some x) e = inr (x.1, refl, IsKnown.in_memory x e refl)

    pub public_key-known :
        (raw : RawToken) (w : World Db)
        → Reads d now w
        → Post
            (λ key v. (raw.is_rs256 ≡ true) × Key raw.kid key v)
            Any
            (public_key ext crypto conf raw w)
    unfolding public_key read_ring
    public_key-known raw w h =
        let Q : String → World Db → Type 0 = λ key v. (raw.is_rs256 ≡ true) × Key raw.kid key v in
        let from_memory : Run String = λ v.
          known_public ext crypto conf raw.kid
            (second ext crypto conf
              (find_where (same_kid ext crypto conf raw.kid) v.db.ring.pub_keys))
            v in
        Post-guard_then Q Any raw.is_rs256 bad_token
          (guard (not (str_eq raw.kid "")) bad_token >> from_memory) w
          (λ rs.
            Post-guard_then Q Any (not (str_eq raw.kid "")) bad_token from_memory w
              (λ _.
                Post-mono (λ key v. Key raw.kid key v) Q Any _
                  (known_public-known raw.kid _ w
                    (memory_known raw.kid _ (
                      ap (λ (t : Db). find_where (λ e. str_eq e.0 raw.kid) t.ring.pub_keys)
                        (sym h.0)))
                    h)
                  (λ key v k. (rs, k)))
              (λ _. tt))
          (λ _. tt)
