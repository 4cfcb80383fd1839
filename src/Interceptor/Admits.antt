-- ===== src/Interceptor/Admits.antt =====
-- Whom the interceptors admit.
use mathlib.Core.Path.{subst}
use order_hub.Base.{
  Uuid, ◌≡◌, ◌≢◌, refl, ap, false, Option, some, List, String, str_eq, eq_iff, ◌==◌, arith,
  Bool-cases, ◌||◌, ◌⊎◌, sym, Bool, ℕ, inl, inr, some_injective,
}
use order_hub.Base.Text.{text_append, trim_space}
use order_hub.Base.Store.{World, Result, ok, err, pure, catch, ◌>>=◌}
use order_hub.Base.Post.{Post}
use order_hub.Auth.Models.{Db, AuthError}
use order_hub.Auth.Service.Types.{TokenProvider, AuthService, Claims}
use order_hub.Auth.Service.Tokens.{Introspection, introspect}
use order_hub.Interceptor.Bearer.{
  Metadata, Refusal, Bearer, bearer_token, nonempty, read_header, strip_fold,
}
use order_hub.Interceptor.Auth.{member, Admission}
use order_hub.Interceptor.Clients.{
  Roles, ClientAdmission, to_proto_role, to_response, introspect_call, role_of, admit_response,
  ask_token, intercept_client,
}

strip_fold-text_append :
    (q p t rest : String)
    → strip_fold q p ≡ some rest
    → strip_fold q (text_append p t) ≡ some (text_append rest t)
unfolding strip_fold text_append
strip_fold-text_append String.[] p t rest e =
    ap (λ r. some (text_append r t)) (some_injective _ _ e)
strip_fold-text_append (String.◌∷◌ q qs) String.[] t rest e = cc
strip_fold-text_append (String.◌∷◌ q qs) (String.◌∷◌ c p) t rest e =
    ground (arith, strip_fold-text_append qs p t rest)

no_prefix : strip_fold "bearer " "" ≡ some "" → ⊥
unfolding strip_fold
no_prefix e = cc

nonempty_lem :
    (s : String)
    → (s ≢ "" → nonempty s ≡ Bearer.token s)
      × (s ≡ "" → nonempty s ≡ Bearer.refusal Refusal.empty_token)
nonempty_lem String.[] = (λ h. absurd (h refl), λ _. refl)
nonempty_lem (String.◌∷◌ c s) = (λ _. refl, λ h. cc)

-- A header that begins with `bearer` and a space, in whatever case, gives the rest, without the spaces around it,
-- where something is left; and with nothing left it is refused as an empty token.
pub read_header-text_append :
    (p t : String)
    → strip_fold "bearer " p ≡ some ""
    → (trim_space t ≢ "" → read_header (text_append p t) ≡ Bearer.token (trim_space t))
      × (trim_space t ≡ "" → read_header (text_append p t) ≡ Bearer.refusal Refusal.empty_token)
unfolding read_header text_append
read_header-text_append String.[] t e = absurd (no_prefix e)
read_header-text_append (String.◌∷◌ c p) t e =
    let rest : strip_fold "bearer " (String.◌∷◌ c (text_append p t)) ≡ some t =
      strip_fold-text_append "bearer " (String.◌∷◌ c p) t "" e in
    let whole : String = String.◌∷◌ c (text_append p t) in
    let full : str_eq whole "" ≡ false = elim (Bool-cases (str_eq whole "")) [
      | inl same ↦ let bad : whole ≡ "" = (eq_iff whole "").0 same in cc
      | inr differ ↦ differ
    ] in
    rw (full, rest) (nonempty_lem (trim_space t))

abbrev Shows : Option Metadata → (String → Claims → Type 0) → Type 0
Shows md P =
    (access : String) × (bearer_token md ≡ Bearer.token access) × ((c : Claims) × P access c)

-- The user of the context is the subject of a bearer token that the provider has validated.
abbrev pub Vouched : TokenProvider → Option Metadata → World Db → Admission → World Db → Type 0
Vouched tokens md w (Admission.refused r) v = Unit {0}
Vouched tokens md w (Admission.admitted o) v = Shows md (λ access c.
    (tokens.parse_and_validate_access access w ≡ (ok c, v))
    × (c.user_id ≢ 0)
    × (o ≡ some c.user_id))

-- the names of the roles that the repository knows
abbrev pub is_role_name : String → Bool
is_role_name s = str_eq s "ROLE_CUSTOMER" || (str_eq s "ROLE_VENDOR" || str_eq s "ROLE_ADMIN")

-- The generated enum has a number for the name, not 0, which is ROLE_UNSPECIFIED, and the name for the number.
abbrev pub HasName : Roles → String → Type 0
HasName roles s =
    (n : ℕ) × (roles.role_value s ≡ some n) × ((n == 0) ≡ false) × (roles.role_string n ≡ s)

pub record IsRoleEnum (roles : Roles) : Type 0 where
  pub has_customer : HasName roles "ROLE_CUSTOMER"
  pub has_vendor : HasName roles "ROLE_VENDOR"
  pub has_admin : HasName roles "ROLE_ADMIN"

module _ (roles : Roles) (enum : IsRoleEnum roles) where
  customer_kept : role_of roles (to_proto_role roles "ROLE_CUSTOMER") ≡ some "ROLE_CUSTOMER"
  unfolding to_proto_role trim_space
  customer_kept = let (n, v, nonzero, name) = enum.has_customer in rw (v, nonzero, name) refl

  vendor_kept : role_of roles (to_proto_role roles "ROLE_VENDOR") ≡ some "ROLE_VENDOR"
  unfolding to_proto_role trim_space
  vendor_kept = let (n, v, nonzero, name) = enum.has_vendor in rw (v, nonzero, name) refl

  admin_kept : role_of roles (to_proto_role roles "ROLE_ADMIN") ≡ some "ROLE_ADMIN"
  unfolding to_proto_role trim_space
  admin_kept = let (n, v, nonzero, name) = enum.has_admin in rw (v, nonzero, name) refl

  -- A role that has a name passes the enum as it is.
  role_kept :
      (s : String) → (role_of roles (to_proto_role roles s) ≡ some s) ⊎ (is_role_name s ≡ false)
  role_kept s = elim (Bool-cases (str_eq s "ROLE_CUSTOMER")) [
    | inl e ↦ inl (
        subst (λ t. role_of roles (to_proto_role roles t) ≡ some t)
          (sym ((eq_iff s "ROLE_CUSTOMER").0 e)) customer_kept)
    | inr no_customer ↦ elim (Bool-cases (str_eq s "ROLE_VENDOR")) [
      | inl e ↦ inl (
          subst (λ t. role_of roles (to_proto_role roles t) ≡ some t)
            (sym ((eq_iff s "ROLE_VENDOR").0 e)) vendor_kept)
      | inr no_vendor ↦ elim (Bool-cases (str_eq s "ROLE_ADMIN")) [
        | inl e ↦ inl (
            subst (λ t. role_of roles (to_proto_role roles t) ≡ some t)
              (sym ((eq_iff s "ROLE_ADMIN").0 e)) admin_kept)
        | inr no_admin ↦ inr (rw (no_customer, no_vendor, no_admin) refl)
      ]
    ]
  ]

module _ (roles : Roles) (enum : IsRoleEnum roles) (print : Uuid → String)
    (parse : String → Option Uuid) (round_trip : (u : Uuid) → parse (print u) ≡ some u)
    (printed : (u : Uuid) → print u ≢ "") (svc : AuthService) (md : Option Metadata)
    (w : World Db) where
  -- The identity is that of a bearer token that the auth service has validated.
  abbrev pub Known : ClientAdmission → World Db → Type 0
  Known ClientAdmission.public v = ⊥
  Known (ClientAdmission.refused r) v = Unit {0}
  Known (ClientAdmission.admitted i) v = Shows md (λ access c.
      (svc.tokens.parse_and_validate_access access w ≡ (ok c, v))
      × (i.user_id ≡ c.user_id)
      × ((i.role ≡ some c.role) ⊎ (is_role_name c.role ≡ false)))

  answered :
      (access : String) (r : Result AuthError Claims) (v : World Db)
      → bearer_token md ≡ Bearer.token access
      → svc.tokens.parse_and_validate_access access w ≡ (r, v)
      → Post
          (λ a u. Known a u)
          (λ _ _. ⊥)
          (catch
            ((catch
                  ((λ (_ : World Db). (r, v)) >>= λ c. pure (Introspection.active_token c))
                  (λ _. pure Introspection.inactive_token)
                >>= λ a. pure (to_response roles print a))
              >>= λ x. pure (admit_response roles parse x))
            (λ _. pure (ClientAdmission.refused Refusal.introspection_failed))
            w)
  answered access (err e) v b p = tt
  answered access (ok c) v b p =
      let shown : str_eq (print c.user_id) "" ≡ false =
        elim (Bool-cases (str_eq (print c.user_id) "")) [
          | inl same ↦ absurd (printed c.user_id ((eq_iff (print c.user_id) "").0 same))
          | inr differ ↦ differ
        ] in
      rw (shown, round_trip c.user_id) (access, b, (c, (p, refl, role_kept roles enum c.role)))

  ask_token-Known :
      (b : Bearer)
      → bearer_token md ≡ b
      → Post
          (λ a u. Known a u)
          (λ _ _. ⊥)
          (ask_token roles parse (introspect_call roles print svc) b w)
  unfolding introspect_call introspect
  ask_token-Known (Bearer.refusal r) e = tt
  ask_token-Known (Bearer.token access) e =
      let (r, v) = svc.tokens.parse_and_validate_access access w in answered access r v e refl

  -- `uuid.Parse` is to read what `UUID.String` writes, which is never empty, and the generated enum to hold the
  -- names of the three roles. The interceptors of the inventory and the order service, with the auth service's answer to `Introspect`, always answer, and for a
  -- method that is not public: where the handler runs, the header held a bearer token which the auth
  -- service's token provider validated, and the context holds the user of its claims and, where that is
  -- one of ROLE_CUSTOMER, ROLE_VENDOR and ROLE_ADMIN, the role of its claims; else the call is refused.
  pub intercept_client-Known :
      (open_methods : List String) (method : String)
      → member method open_methods ≡ false
      → Post
          (λ a v. Known a v)
          (λ _ _. ⊥)
          (intercept_client roles parse (introspect_call roles print svc) open_methods method md w)
  unfolding intercept_client
  intercept_client-Known open_methods method closed =
      rw closed (ask_token-Known (bearer_token md) refl)
