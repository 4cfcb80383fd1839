-- ===== src/Auth/Repo/Jwks.antt =====
-- jwk_repo.go: the statements on the table `jwk_keys`.
use order_hub.Base.{
  ℕ, String, str_eq, Bool, true, false, Option, none, some, List, ◌∷◌, map, ltb, if◌then◌else◌,
}
use order_hub.Base.Rows.{update_where, count_where, find_where, any_where, first_by}
use order_hub.Base.Store.{
  Result, ok, err, service, database, constraint, pool, tx_conn, pure, guard, query, exec,
  transaction, ◌>>=◌, ◌>>◌,
}
use order_hub.Auth.Models.{JwkKey, KeyRing, Db, AuthError, repo_not_found, Run, Outside}

-- The columns that `ListPublic` selects: never `priv_pem`.
pub record PublicJwk : Type 0 where
  pub kid : String
  pub alg : String
  pub kty : String
  pub key_use : String
  pub n : String
  pub e : String

abbrev pub public_part : JwkKey → PublicJwk
public_part k = record {
  kid = k.kid;
  alg = k.alg;
  kty = k.kty;
  key_use = k.key_use;
  n = k.n;
  e = k.e;
}

abbrev pub with_keys : List JwkKey → Db → Db
with_keys rows d =
    let ring : KeyRing = record d.ring { jwk_keys = rows } in record d { ring = ring }

abbrev pub has_kid : String → JwkKey → Bool
has_kid kid k = str_eq k.kid kid

abbrev pub is_active : JwkKey → Bool
is_active k = k.active

abbrev pub set_active_row : Bool → JwkKey → JwkKey
set_active_row b k = record k { active = b }

abbrev pub found_key : Option JwkKey → Result AuthError JwkKey
found_key none = err (service repo_not_found)
found_key (some k) = ok k

-- the primary key
unfoldable pub create_row : JwkKey → Db → Result AuthError (Unit {0} × Db)
create_row k d =
    if any_where (has_kid k.kid) d.ring.jwk_keys
    then err (database constraint)
    else ok (tt, with_keys (k ∷ d.ring.jwk_keys) d)

unfoldable pub create : JwkKey → Run (Unit {0})
create k = exec pool (create_row k)

unfoldable pub get_by_kid : String → Run JwkKey
get_by_kid kid = query pool (λ d. found_key (find_where (has_kid kid) d.ring.jwk_keys))

unfoldable pub update_keys : (JwkKey → Bool) → (JwkKey → JwkKey) → Db → Result AuthError (ℕ × Db)
update_keys fits set d =
    ok (count_where fits d.ring.jwk_keys, with_keys (update_where fits set d.ring.jwk_keys) d)

-- the body of the transaction
unfoldable pub switch_key : String → Run (Unit {0})
switch_key kid = do
  exec tx_conn (update_keys is_active (set_active_row false))
  n ← exec tx_conn (update_keys (has_kid kid) (set_active_row true))
  guard (ltb 0 n) repo_not_found
  pure tt

unfoldable pub set_active : String → Run (Unit {0})
unfolding switch_key
set_active kid = transaction (switch_key kid)

unfoldable pub list_public : Run (List PublicJwk)
list_public = query pool (λ d. ok (map public_part d.ring.jwk_keys))

module _ (ext : Outside) where
  -- `First` orders by the primary key, a text.
  abbrev pub kid_order : JwkKey → JwkKey → Bool
  kid_order a b = ext.text_before a.kid b.kid

  unfoldable pub get_active : Run JwkKey
  get_active = query pool (λ d. found_key (first_by kid_order is_active d.ring.jwk_keys))
