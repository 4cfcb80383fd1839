-- ===== src/Interceptor/Bearer.antt =====
-- What the interceptors share: the metadata of a call, the bearer token of its header `authorization`, and
-- the answer. gRPC keeps the keys of metadata in lower case, and `md.Get` lowers the key that it is given;
-- so the second try with `Authorization` looks at the same key.
use Prim.Native.Char.{code}
use order_hub.Base.{
  ℕ, ◌+◌, ◌≡◌, refl, Option, none, some, List, [], ◌∷◌, String, str_eq, leb, ◌==◌, if◌then◌else◌,
  ◌&&◌,
}
use order_hub.Base.Text.{trim_space}

abbrev pub Metadata : Type 0
Metadata = List (String × List String)

unfoldable pub get_values : String → Metadata → List String
get_values key [] = []
get_values key ((k, vals) ∷ md) = if str_eq k key then vals else get_values key md

abbrev or_else : List String → List String → List String
or_else [] vals = vals
or_else (v ∷ vs) _ = v ∷ vs

abbrev head_or_empty : List String → String
head_or_empty [] = ""
head_or_empty (v ∷ _) = v

-- `getFirst(md, "authorization")`
unfoldable pub authorization : Metadata → String
unfolding get_values
authorization md =
    head_or_empty (or_else (get_values "authorization" md) (get_values "authorization" md))

-- Case folding of ASCII: no other character folds to a letter of `bearer`.
abbrev pub fold_code : ℕ → ℕ
fold_code c = if leb 65 c && leb c 90 then c + 32 else c

-- what follows the prefix, which is in lower case, where the text begins with it in any case
unfoldable pub strip_fold : String → String → Option String
strip_fold String.[] s = some s
strip_fold (String.◌∷◌ p ps) String.[] = none
strip_fold (String.◌∷◌ p ps) (String.◌∷◌ c s) =
    let rest = strip_fold ps s in if fold_code (code c) == code p then rest else none

-- All of them are answered as UNAUTHENTICATED.
pub data Refusal : Type 0 where
  missing_metadata no_header invalid_scheme empty_token invalid_token invalid_subject : Refusal
  introspection_failed inactive_token invalid_user_id : Refusal

pub data Bearer : Type 0 where
  token : String → Bearer
  refusal : Refusal → Bearer

abbrev pub nonempty : String → Bearer
nonempty String.[] = Bearer.refusal Refusal.empty_token
nonempty s = Bearer.token s

abbrev pub after_prefix : Option String → Bearer
after_prefix none = Bearer.refusal Refusal.invalid_scheme
after_prefix (some rest) = nonempty (trim_space rest)

unfoldable pub read_header : String → Bearer
read_header authz =
    if str_eq authz ""
    then Bearer.refusal Refusal.no_header
    else after_prefix (strip_fold "bearer " authz)

unfoldable pub bearer_token : Option Metadata → Bearer
unfolding authorization
bearer_token none = Bearer.refusal Refusal.missing_metadata
bearer_token (some md) = read_header (authorization md)

header_example : read_header "BeArEr  abc " ≡ Bearer.token "abc"
unfolding read_header strip_fold trim_space
header_example = refl
