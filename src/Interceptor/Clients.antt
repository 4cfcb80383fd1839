-- ===== src/Interceptor/Clients.antt =====
-- The interceptors of the inventory and the order service, over the answer of the auth service to
-- `Introspect`, and that answer itself (`Introspect` and `toProtoRole` of the auth service's handler.go).
-- `Roles` is the generated enum: the number of a name, the name of a number; 0 is ROLE_UNSPECIFIED.
use Prim.Native.Char.{Char, code}
use order_hub.Base.{
  ℕ, ◌/◌, Uuid, Time, Bool, true, false, Option, none, some, List, [], ◌∷◌, String, str_eq, ◌==◌,
  if◌then◌else◌,
}
use order_hub.Base.Int.{ℤ, pos, negsuc}
use order_hub.Base.Text.{text_append, trim_space}
use order_hub.Base.Store.{pure, catch, ◌>>=◌}
use order_hub.Auth.Models.{Run}
use order_hub.Auth.Service.Types.{AuthService}
use order_hub.Auth.Service.Tokens.{Introspection, introspect}
use order_hub.Interceptor.Bearer.{Metadata, Refusal, Bearer, bearer_token}
use order_hub.Interceptor.Auth.{member, strip_prefix}

pub record Roles : Type 0 where
  pub role_value : String → Option ℕ
  pub role_string : ℕ → String
  pub customer : ℕ

-- `strings.ToUpper`, as far as the names of roles can tell: the last two characters are those outside
-- ASCII whose capitals are in ASCII.
abbrev small_letters : String
small_letters = "abcdefghijklmnopqrstuvwxyzıſ"

abbrev capital_letters : String
capital_letters = "ABCDEFGHIJKLMNOPQRSTUVWXYZIS"

unfoldable pub upper_in : String → String → Char → Char
upper_in String.[] _ c = c
upper_in (String.◌∷◌ l ls) String.[] c = c
upper_in (String.◌∷◌ l ls) (String.◌∷◌ u us) c =
    let rest = upper_in ls us c in if code l == code c then u else rest

unfoldable pub to_upper : String → String
unfolding upper_in
to_upper String.[] = String.[]
to_upper (String.◌∷◌ c s) = String.◌∷◌ (upper_in small_letters capital_letters c) (to_upper s)

-- `Time.Unix` of an instant, which is counted in nanoseconds
abbrev pub unix : Time → ℕ
unix t = t / 1000000000

-- `IntrospectResponse`: the role is a number, the user a text
pub record IntrospectResponse : Type 0 where
  pub active : Bool
  pub user_id : Option String
  pub role : ℕ
  pub exp_unix : ℤ

-- What the context of the handler holds.
pub record Identity : Type 0 where
  pub user_id : Uuid
  pub role : Option String

pub data ClientAdmission : Type 0 where
  public : ClientAdmission
  admitted : Identity → ClientAdmission
  refused : Refusal → ClientAdmission

abbrev pub order_public : List String
order_public =
    "/grpc.health.v1.Health/Check" ∷ "/grpc.health.v1.Health/Watch" ∷ "/grpc.health.v1.Health/List"
    ∷ "/grpc.reflection.v1alpha.ServerReflection/ServerReflectionInfo" ∷ []

abbrev pub inventory_public : List String
inventory_public =
    "/inventory.v1.InventoryService/GetProduct" ∷ "/inventory.v1.InventoryService/ListProducts"
    ∷ "/inventory.v1.InventoryService/BatchGetProducts" ∷ order_public

abbrev first_role : Option ℕ → ℕ → ℕ
first_role none other = other
first_role (some v) _ = v

-- the number of the name with the prefix, where the name has none
abbrev prefixed : Roles → String → Option String → Option ℕ
prefixed roles u none = roles.role_value (text_append "ROLE_" u)
prefixed roles u (some _) = none

module _ (roles : Roles) where
  unfoldable pub to_proto_role : String → ℕ
  unfolding to_upper strip_prefix text_append
  to_proto_role role =
      let r = trim_space role in
      let u = to_upper r in
      if str_eq r ""
      then roles.customer
      else first_role (prefixed roles u (strip_prefix "ROLE_" u))
          (first_role (roles.role_value u) (first_role (roles.role_value r) roles.customer))

  -- the answer of the auth service's handler; `Unix` of the zero time, for an inactive token, is negative
  abbrev pub to_response : (Uuid → String) → Introspection → IntrospectResponse
  to_response print Introspection.inactive_token = record {
    active = false;
    user_id = some (print 0);
    role = to_proto_role "";
    exp_unix = negsuc 62135596799;
  }
  to_response print (Introspection.active_token c) = record {
    active = true;
    user_id = some (print c.user_id);
    role = to_proto_role c.role;
    exp_unix = pos (unix c.exp);
  }

  unfoldable pub introspect_call : (Uuid → String) → AuthService → String → Run IntrospectResponse
  introspect_call print svc access = do
    answer ← introspect svc access
    pure (to_response print answer)

  -- `ROLE_UNSPECIFIED` is no role.
  abbrev pub role_of : ℕ → Option String
  role_of n = if n == 0 then none else some (roles.role_string n)

  abbrev with_uid : ℕ → Option Uuid → ClientAdmission
  with_uid role none = ClientAdmission.refused Refusal.invalid_user_id
  with_uid role (some uid) =
      ClientAdmission.admitted (record { user_id = uid; role = role_of role })

  abbrev with_user : (String → Option Uuid) → ℕ → Option String → ClientAdmission
  with_user parse role none = ClientAdmission.refused Refusal.inactive_token
  with_user parse role (some id) =
      if str_eq id ""
      then ClientAdmission.refused Refusal.inactive_token
      else with_uid role (parse id)

  abbrev pub admit_response : (String → Option Uuid) → IntrospectResponse → ClientAdmission
  admit_response parse r =
      if r.active
      then with_user parse r.role r.user_id
      else ClientAdmission.refused Refusal.inactive_token

  module _ (parse : String → Option Uuid) (ask : String → Run IntrospectResponse) where
    abbrev pub ask_token : Bearer → Run ClientAdmission
    ask_token (Bearer.refusal r) = pure (ClientAdmission.refused r)
    ask_token (Bearer.token access) =
        catch (do r ← ask access; pure (admit_response parse r))
          (λ _. pure (ClientAdmission.refused Refusal.introspection_failed))

    -- `public` is the list of the service: `order_public` or `inventory_public`
    unfoldable pub intercept_client : List String → String → Option Metadata → Run ClientAdmission
    intercept_client open_methods method md =
        if member method open_methods
        then pure ClientAdmission.public
        else ask_token (bearer_token md)
