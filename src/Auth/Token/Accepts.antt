-- ===== src/Auth/Token/Accepts.antt =====
-- Which tokens `ParseAndValidateAccess` accepts.
use mathlib.Core.Path.{subst}
use order_hub.Base.{◌≡◌, refl, ap, true, not, String, Time, some}
use order_hub.Base.Store.{World, Result, ok, err, Error, pure, guard, clock_now, ◌>>=◌, ◌>>◌}
use order_hub.Base.Post.{Post, Post-bind, Post-guard_then}
use order_hub.Auth.Models.{Db, AuthError, bad_token, nil_pointer, Run, Outside}
use order_hub.Auth.Service.Types.{Claims}
use order_hub.Auth.Token.{
  Crypto, Settings, RawToken, need, public_key, is_blacklisted, parse_and_validate_access,
}
use order_hub.Auth.Token.PublicKeys.{IsKnown, Key, need-some, public_key-known}

module _ (ext : Outside) (crypto : Crypto) (conf : Settings) where
  -- What the claims that are returned rest on.
  pub record Accepted (d : Db) (now : Time) (token : String) (c : Claims) : Type 0 where
    pub raw : RawToken
    pub key : String
    pub read : crypto.parse token ≡ some raw
    pub rs256 : raw.is_rs256 ≡ true
    pub known : IsKnown ext crypto conf d now raw.kid key
    pub signed : crypto.verify key token ≡ true
    pub fits : crypto.validate now conf.issuer conf.audience raw.claims ≡ true
    pub subject : ext.parse_uuid raw.claims.sub ≡ some c.user_id
    pub role : c.role ≡ raw.claims.role
    pub expiry : raw.claims.expires_at ≡ some c.exp

  abbrev Any : Error AuthError → World Db → Type 0
  Any _ _ = Unit {0}

  -- the parts of `ParseAndValidateAccess`, from its end
  abbrev to_claims : RawToken → Run Claims
  to_claims raw = need bad_token (ext.parse_uuid raw.claims.sub) >>= λ uid.
      need nil_pointer raw.claims.expires_at >>= λ exp.
      pure (record { user_id = uid; role = raw.claims.role; exp = exp })

  abbrev unlisted : RawToken → Run Claims
  unlisted raw = is_blacklisted ext crypto conf raw.claims.id >>= λ listed.
      guard (not listed) bad_token >> to_claims raw

  abbrev validated : RawToken → Run Claims
  validated raw = clock_now >>= λ t.
      guard (crypto.validate t conf.issuer conf.audience raw.claims) bad_token >> unlisted raw

  abbrev verified : String → RawToken → String → Run Claims
  verified token raw key = guard (crypto.verify key token) bad_token >> validated raw

  anything : {A : Type 0} (r : Result AuthError A × World Db) → Post (λ _ _. Unit {0}) Any r
  anything (ok a, v) = tt
  anything (err e, v) = tt

  module _ (w : World Db) (token : String) where
    abbrev Good : Claims → World Db → Type 0
    Good c _ = Accepted w.db w.clock token c

    module _ (raw : RawToken) (key : String) (read : crypto.parse token ≡ some raw)
        (rs : raw.is_rs256 ≡ true) (known : IsKnown ext crypto conf w.db w.clock raw.kid key)
        (signed : crypto.verify key token ≡ true) where
      to_claims-Good :
          (v : World Db)
          → crypto.validate w.clock conf.issuer conf.audience raw.claims ≡ true
          → Post Good Any (to_claims raw v)
      to_claims-Good v fits =
          Post-bind (λ uid u. (ext.parse_uuid raw.claims.sub ≡ some uid) × (u ≡ v)) Good Any
            (need bad_token (ext.parse_uuid raw.claims.sub))
            (λ uid. need nil_pointer raw.claims.expires_at >>= λ exp.
              pure (record { user_id = uid; role = raw.claims.role; exp = exp }))
            v (need-some ext crypto conf bad_token (ext.parse_uuid raw.claims.sub) v)
            (λ uid u (sub, _).
              Post-bind (λ exp x. (raw.claims.expires_at ≡ some exp) × (x ≡ u)) Good Any
                (need nil_pointer raw.claims.expires_at)
                (λ exp. pure (record { user_id = uid; role = raw.claims.role; exp = exp })) u
                (need-some ext crypto conf nil_pointer raw.claims.expires_at u)
                (λ exp x (end, _). record {
                  raw = raw;
                  key = key;
                  read = read;
                  rs256 = rs;
                  known = known;
                  signed = signed;
                  fits = fits;
                  subject = sub;
                  role = refl;
                  expiry = end;
                }))

      unlisted-Good :
          (v : World Db)
          → crypto.validate w.clock conf.issuer conf.audience raw.claims ≡ true
          → Post Good Any (unlisted raw v)
      unlisted-Good v fits =
          Post-bind (λ _ _. Unit {0}) Good Any (is_blacklisted ext crypto conf raw.claims.id)
            (λ listed. guard (not listed) bad_token >> to_claims raw) v
            (anything (is_blacklisted ext crypto conf raw.claims.id v))
            (λ listed u _.
              Post-guard_then Good Any (not listed) bad_token (to_claims raw) u
                (λ _. to_claims-Good u fits) (λ _. tt))

      validated-Good : (v : World Db) → v.clock ≡ w.clock → Post Good Any (validated raw v)
      validated-Good v at =
          Post-guard_then Good Any (crypto.validate v.clock conf.issuer conf.audience raw.claims)
            bad_token (unlisted raw) v
            (λ fits.
              unlisted-Good v (
                subst (λ t. crypto.validate t conf.issuer conf.audience raw.claims ≡ true) at fits))
            (λ _. tt)

    -- Whatever statements fail. Where `ParseAndValidateAccess` returns claims, the token can be read and its
    -- algorithm is RS256; its signature fits a public key that is held for its key identifier, in memory, in
    -- Redis or in the table; the checks of issuer, audience and times accept it; and the user, the role and
    -- the expiry of the claims are those that the token names.
    pub parse_and_validate_access-Accepted :
        Post
          (λ c _. Accepted w.db w.clock token c)
          (λ _ _. Unit {0})
          (parse_and_validate_access ext crypto conf token w)
    unfolding parse_and_validate_access
    parse_and_validate_access-Accepted =
        Post-bind (λ raw v. (crypto.parse token ≡ some raw) × (v ≡ w)) Good Any
          (need bad_token (crypto.parse token))
          (λ raw. public_key ext crypto conf raw >>= verified token raw) w
          (need-some ext crypto conf bad_token (crypto.parse token) w)
          (λ raw v (read, same).
            Post-bind
              (λ key u. (raw.is_rs256 ≡ true) × Key ext crypto conf w.db w.clock raw.kid key u) Good
              Any (public_key ext crypto conf raw) (verified token raw) v
              (public_key-known ext crypto conf w.db w.clock raw v
                (ap (λ (x : World Db). x.db) same, ap (λ (x : World Db). x.clock) same))
              (λ key u (rs, (known, at)).
                Post-guard_then Good Any (crypto.verify key token) bad_token (validated raw) u
                  (λ signed. validated-Good raw key read rs known signed u at) (λ _. tt)))
