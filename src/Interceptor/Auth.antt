-- ===== src/Interceptor/Auth.antt =====
-- The interceptor of the auth service, over `ParseAndValidateAccess` of the token provider.
use order_hub.Base.{
  Uuid, Bool, false, Option, none, some, List, [], ◌∷◌, String, str_eq, ◌==◌, if◌then◌else◌, ◌||◌,
}
use order_hub.Base.Text.{text_append}
use order_hub.Base.Store.{pure, catch, ◌>>=◌}
use order_hub.Auth.Models.{Run}
use order_hub.Auth.Service.Types.{TokenProvider, Claims}
use order_hub.Interceptor.Bearer.{Metadata, Refusal, Bearer, bearer_token}

-- The handler runs, with the user that the context holds, or the call is refused.
pub data Admission : Type 0 where
  admitted : Option Uuid → Admission
  refused : Refusal → Admission

unfoldable pub member : String → List String → Bool
member s [] = false
member s (t ∷ ts) = str_eq t s || member s ts

abbrev pub public_methods : List String
public_methods =
    "/auth.v1.AuthService/Register" ∷ "/auth.v1.AuthService/Login" ∷ "/auth.v1.AuthService/Refresh"
    ∷ "/auth.v1.AuthService/GetJwks" ∷ "/auth.v1.AuthService/ConfirmEmailVerification"
    ∷ "/auth.v1.AuthService/RequestPasswordReset" ∷ "/auth.v1.AuthService/ConfirmPasswordReset"
    ∷ "/auth.v1.AuthService/Introspect" ∷ "/grpc.health.v1.Health/Check"
    ∷ "/grpc.health.v1.Health/List" ∷ []

-- `strings.HasPrefix`, with what follows
unfoldable pub strip_prefix : String → String → Option String
strip_prefix String.[] s = some s
strip_prefix (String.◌∷◌ p ps) String.[] = none
strip_prefix (String.◌∷◌ p ps) (String.◌∷◌ c s) =
    let rest = strip_prefix ps s in
    if str_eq (String.◌∷◌ p String.[]) (String.◌∷◌ c String.[]) then rest else none

abbrev public_alias : Option String → Bool
public_alias none = false
public_alias (some rest) = member (text_append "/auth.v1." rest) public_methods

-- A method of `orderhub.auth.v1` is looked up by its name in `auth.v1`.
unfoldable pub is_public : String → Bool
unfolding member strip_prefix text_append
is_public method =
    member method public_methods || public_alias (strip_prefix "/orderhub.auth.v1." method)

abbrev pub admit_claims : Claims → Admission
admit_claims c =
    if c.user_id == 0
    then Admission.refused Refusal.invalid_subject
    else Admission.admitted (some c.user_id)

module _ (tokens : TokenProvider) where
  unfoldable pub check_token : String → Run Admission
  check_token access =
      catch (do c ← tokens.parse_and_validate_access access; pure (admit_claims c))
        (λ _. pure (Admission.refused Refusal.invalid_token))

  abbrev pub check_bearer : Bearer → Run Admission
  check_bearer (Bearer.refusal r) = pure (Admission.refused r)
  check_bearer (Bearer.token access) = check_token access

  unfoldable pub intercept : String → Option Metadata → Run Admission
  unfolding is_public check_token
  intercept method md =
      if is_public method then pure (Admission.admitted none) else check_bearer (bearer_token md)
