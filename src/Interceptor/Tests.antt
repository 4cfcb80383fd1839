-- ===== src/Interceptor/Tests.antt =====
-- A provider that knows one user, and the results at its token.
use mathlib.Core.Option.{map as map_option}
use order_hub.Base.{
  ℕ, ◌==◌, zero, suc, ◌≡◌, ◌≢◌, refl, ap, false, Option, none, some, [], ◌∷◌, String, str_eq,
  if◌then◌else◌,
}
use order_hub.Base.Text.{text_append, trim_space}
use order_hub.Base.Store.{World, pure, fail, service}
use order_hub.Base.Post.{Post}
use order_hub.Auth.Models.{Db, bad_token}
use order_hub.Auth.Service.Types.{TokenProvider, AuthService, CacheClient}
use order_hub.Interceptor.Bearer.{Metadata, Refusal, Bearer, read_header, strip_fold}
use order_hub.Interceptor.Auth.{member}
use order_hub.Interceptor.Clients.{Roles, intercept_client, introspect_call, order_public}
use order_hub.Interceptor.Admits.{
  Known, IsRoleEnum, read_header-text_append, intercept_client-Known,
}

-- identifiers written in strokes
tally : ℕ → String
tally zero = "#"
tally (suc n) = text_append "|" (tally n)

read_tally : String → Option ℕ
read_tally String.[] = none
read_tally (String.◌∷◌ c s) =
    let rest = map_option suc (read_tally s) in
    if str_eq (String.◌∷◌ c String.[]) "#" then some 0 else rest

read_tally-tally : (n : ℕ) → read_tally (tally n) ≡ some n
unfolding tally read_tally text_append
read_tally-tally zero = refl
read_tally-tally (suc n) = ap (map_option suc) (read_tally-tally n)

tally_full : (n : ℕ) → tally n ≢ ""
unfolding tally text_append
tally_full zero e = cc
tally_full (suc n) e = cc

abbrev roles : Roles
roles = record {
  role_value = λ s.
      if str_eq s "ROLE_CUSTOMER"
      then some 1
      else if str_eq s "ROLE_VENDOR"
      then some 2
      else if str_eq s "ROLE_ADMIN"
      then some 3
      else none;
  role_string =
      λ n. if n == 1 then "ROLE_CUSTOMER" else if n == 2 then "ROLE_VENDOR" else "ROLE_ADMIN";
  customer = 1;
}

abbrev provider : TokenProvider
provider = record {
  sign_access = λ _ _ _. pure (record { token = "jwt"; exp = 15 });
  new_refresh = λ _ _. pure (record { opaque = "new"; hash = "#new"; exp = 60 });
  parse_and_validate_access = λ t.
      if str_eq t "jwt"
      then pure (record { user_id = 3; role = "ROLE_CUSTOMER"; exp = 20 })
      else fail (service bad_token);
  blacklist_token = λ _. pure tt;
}

abbrev svc : AuthService
svc = record { tokens = provider; cache = CacheClient.no_cache; access_ttl = 5; refresh_ttl = 50 }

abbrev nothing : Db
nothing = record {
  users = [];
  refresh_tokens = [];
  sessions = [];
  email_verifications = [];
  password_resets = [];
  ring = record { jwk_keys = []; active = none; pub_keys = [] };
  redis = [];
  mails = [];
  next_id = 1;
  drawn = 0;
}

abbrev world : World Db
world = record { db = nothing; tx = nothing; faults = []; clock = 10 }

abbrev header : Option Metadata
header = some (("authorization", "Bearer jwt" ∷ []) ∷ [])

bearer_prefix : strip_fold "bearer " "Bearer " ≡ some ""
unfolding strip_fold
bearer_prefix = refl

enum : IsRoleEnum roles
enum = record {
  has_customer = (1, refl, refl, refl);
  has_vendor = (2, refl, refl, refl);
  has_admin = (3, refl, refl, refl);
}

read_header-text_append_example :
    (trim_space " jwt " ≢ ""
      → read_header (text_append "Bearer " " jwt ") ≡ Bearer.token (trim_space " jwt "))
    × (trim_space " jwt " ≡ ""
        → read_header (text_append "Bearer " " jwt ") ≡ Bearer.refusal Refusal.empty_token)
read_header-text_append_example = read_header-text_append "Bearer " " jwt " bearer_prefix

order_closed : member "/order.v1.OrderService/CreateOrder" order_public ≡ false
unfolding member
order_closed = refl

intercept_client-Known_example :
    Post
      (λ a v. Known roles enum tally read_tally read_tally-tally tally_full svc header world a v)
      (λ _ _. ⊥)
      (intercept_client roles read_tally
        (introspect_call roles tally svc)
        order_public
        "/order.v1.OrderService/CreateOrder"
        header
        world)
intercept_client-Known_example =
    intercept_client-Known roles enum tally read_tally read_tally-tally tally_full svc header world
      order_public "/order.v1.OrderService/CreateOrder" order_closed
