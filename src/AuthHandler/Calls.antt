-- ===== src/AuthHandler/Calls.antt =====
-- The handlers. `valid` is what the generated `Validate` answers for the request; `print` is `UUID.String`. The
-- headers and the cookie that Login and Refresh set are left out: they repeat the client's identifier.
use order_hub.Base.{ℕ, Uuid, Time, Bool, true, false, Option, List, String, str_eq, if◌then◌else◌}
use order_hub.Base.Text.{trim_space}
use order_hub.Base.Store.{World, ok, err, Error, service, clock_now, pure, ◌>>=◌}
use order_hub.Auth.Models.{Db, AuthError, Run, Outside}
use order_hub.Auth.Repo.Jwks.{PublicJwk}
use order_hub.Auth.Service.Types.{AuthService, TokenPair}
use order_hub.Auth.Service.Accounts.{register, login}
use order_hub.Auth.Service.Tokens.{refresh, log_out_with_access_token, log_out_all, get_jwks}
use order_hub.Auth.Service.Resets.{request_password_reset, confirm_password_reset}
use order_hub.Auth.Service.Verifying.{
  request_email_verification, confirm_email_verification_request,
}
use order_hub.Interceptor.Bearer.{Metadata}
use order_hub.Interceptor.Clients.{Roles, to_proto_role, IntrospectResponse, introspect_call, unix}
use order_hub.AuthHandler.Caller.{client_meta, access_token}

pub data Code : Type 0 where
  invalid_argument unauthenticated not_found already_exists : Code
  failed_precondition resource_exhausted internal : Code

-- An answer, a status, or a panic of the service.
pub data Reply (A : Type 0) : Type 0 where
  reply : A → Reply A
  status : Code → Reply A
  panic : Reply A

abbrev pub Handler : Type 0 → Type 0
Handler A = World Db → Reply A × World Db

abbrev pub to_status : {A : Type 0} → (AuthError → Code) → Error AuthError → Reply A
to_status code_of (service AuthError.nil_pointer) = Reply.panic
to_status code_of (service e) = Reply.status (code_of e)
to_status code_of _ = Reply.status Code.internal

abbrev pub answer : {A B : Type 0} → (AuthError → Code) → (A → B) → Run A → Handler B
answer code_of make m w =
    let (r, v) = m w in
    elim r [ ok a ↦ (Reply.reply (make a), v) | err e ↦ (to_status code_of e, v) ]

abbrev pub validated : {A : Type 0} → Bool → Handler A → Handler A
validated true h w = h w
validated false h w = (Reply.status Code.invalid_argument, w)

unfoldable pub register_code : AuthError → Code
register_code AuthError.email_exists = Code.already_exists
register_code _ = Code.internal

unfoldable pub login_code : AuthError → Code
login_code AuthError.not_found = Code.not_found
login_code AuthError.invalid_credentials = Code.unauthenticated
login_code _ = Code.internal

unfoldable pub refresh_code : AuthError → Code
refresh_code AuthError.not_found = Code.not_found
refresh_code AuthError.token_expired = Code.unauthenticated
refresh_code _ = Code.internal

unfoldable pub log_out_code : AuthError → Code
log_out_code AuthError.token_not_found_or_revoked = Code.not_found
log_out_code _ = Code.internal

unfoldable pub request_reset_code : AuthError → Code
request_reset_code AuthError.not_found = Code.not_found
request_reset_code AuthError.too_many_requests = Code.resource_exhausted
request_reset_code _ = Code.internal

unfoldable pub confirm_code : AuthError → Code
confirm_code AuthError.invalid_or_expired_code = Code.invalid_argument
confirm_code AuthError.not_found = Code.not_found
confirm_code _ = Code.internal

unfoldable pub request_verification_code : AuthError → Code
request_verification_code AuthError.not_found = Code.not_found
request_verification_code AuthError.email_already_verified = Code.failed_precondition
request_verification_code AuthError.email_verification_in_progress = Code.resource_exhausted
request_verification_code AuthError.too_many_requests = Code.resource_exhausted
request_verification_code _ = Code.internal

abbrev pub always_internal : AuthError → Code
always_internal _ = Code.internal

pub record RegisterResponse : Type 0 where
  pub user_id : String
  pub email : String
  pub role : ℕ
  pub created_at : Time

pub record TokensMessage : Type 0 where
  pub access_token : String
  pub refresh_token : String
  pub access_expires_in : ℕ
  pub refresh_expires_in : ℕ

pub record LoginResponse : Type 0 where
  pub user_id : String
  pub role : ℕ
  pub tokens : TokensMessage

abbrev pub tokens_message : TokenPair → TokensMessage
tokens_message p = record {
  access_token = p.access_token;
  refresh_token = p.refresh_opaque;
  access_expires_in = unix p.access_expires_at;
  refresh_expires_in = unix p.refresh_expires_at;
}

unfoldable pub handle_get_jwks : Handler (List PublicJwk)
handle_get_jwks = answer always_internal (λ keys. keys) get_jwks

module _ (ext : Outside) (svc : AuthService) (roles : Roles) (print : Uuid → String) where
  unfoldable pub handle_register : Bool → String → String → Handler RegisterResponse
  handle_register valid email password = validated valid (
      answer register_code (λ r. r)
        (do
          u ← register ext email password
          now ← clock_now
          pure (record {
            user_id = print u.id;
            email = email;
            role = to_proto_role roles "CUSTOMER";
            created_at = now;
          })))

  abbrev pub login_response : Uuid × String × TokenPair → LoginResponse
  login_response a = record {
    user_id = print a.0;
    role = to_proto_role roles a.1;
    tokens = tokens_message a.2;
  }

  unfoldable pub handle_login :
      Bool → Option Metadata → String → String → String → Handler LoginResponse
  handle_login valid md peer email password = validated valid (
      answer login_code login_response
        (do meta ← client_meta print md peer; login ext svc email password meta))

  unfoldable pub handle_refresh : Bool → Option Metadata → String → String → Handler TokensMessage
  handle_refresh valid md peer token = validated valid (
      answer refresh_code tokens_message
        (do meta ← client_meta print md peer; refresh ext svc token meta))

  -- `refresh_token` is the text of the request, empty where it asks to log out all sessions
  unfoldable pub handle_log_out :
      Bool → Option Metadata → Option Uuid → String → Bool → Handler (Unit {0})
  handle_log_out valid md ctx refresh_token all = validated valid (
      if str_eq (trim_space refresh_token) ""
      then if all
        then answer always_internal (λ _. tt) (log_out_all ctx)
        else (λ w. (Reply.status Code.invalid_argument, w))
      else answer log_out_code (λ _. tt)
          (log_out_with_access_token ext svc (trim_space refresh_token) (access_token md)))

  unfoldable pub handle_introspect : String → Handler IntrospectResponse
  handle_introspect access =
      answer always_internal (λ r. r) (introspect_call roles print svc access)

  unfoldable pub handle_request_password_reset : String → Handler (Unit {0})
  handle_request_password_reset email =
      answer request_reset_code (λ _. tt) (request_password_reset ext svc.cache email)

  unfoldable pub handle_confirm_password_reset : Bool → String → String → Handler (Unit {0})
  handle_confirm_password_reset valid code new_password =
      validated valid (answer confirm_code (λ _. tt) (confirm_password_reset ext code new_password))

  -- A request that names an email is answered, and nothing is done.
  unfoldable pub handle_request_email_verification : Option Uuid → String → Handler (Unit {0})
  handle_request_email_verification ctx email =
      if str_eq email ""
      then answer request_verification_code (λ _. tt) (request_email_verification ext svc.cache ctx)
      else (λ w. (Reply.reply tt, w))

  unfoldable pub handle_confirm_email_verification : Bool → String → Handler (Unit {0})
  handle_confirm_email_verification valid code =
      validated valid (answer confirm_code (λ _. tt) (confirm_email_verification_request ext code))
