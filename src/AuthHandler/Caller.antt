-- ===== src/AuthHandler/Caller.antt =====
-- What the handlers read of the caller from the metadata: the address, the user agent, the identifier of the
-- client and the access token.
use Prim.Native.Char.{code}
use order_hub.Base.{
  ℕ, ◌+◌, ◌≡◌, refl, Uuid, Bool, true, false, Option, none, some, List, [], ◌∷◌, String, str_eq,
  leb, ◌==◌, if◌then◌else◌, ◌&&◌,
}
use order_hub.Base.Text.{trim_space}
use order_hub.Base.Store.{pure, ◌>>=◌}
use order_hub.Auth.Models.{Run}
use order_hub.Auth.Service.Types.{ClientMeta}
use order_hub.Auth.Service.Helpers.{fresh_id}
use order_hub.Interceptor.Bearer.{Metadata, get_values, authorization, strip_fold}
use order_hub.Interceptor.Auth.{strip_prefix}

-- `strings.Split` at a character: the first part, and the others
unfoldable pub split_at : ℕ → String → String × List String
split_at sep String.[] = ("", [])
split_at sep (String.◌∷◌ c s) =
    let (first, others) = split_at sep s in
    if code c == sep then ("", first ∷ others) else (String.◌∷◌ c first, others)

abbrev pub first_part : List String → String
first_part [] = ""
first_part (v ∷ _) = trim_space (split_at 44 v).0

abbrev pub or_text : String → String → String
or_text s t = if str_eq s "" then t else s

abbrev pub first_value : List String → String
first_value [] = ""
first_value (v ∷ _) = v

-- `peer` is the host of the connection.
unfoldable pub client_ip : Option Metadata → String → String
unfolding get_values split_at trim_space
client_ip none peer = peer
client_ip (some md) peer = or_text (first_part (get_values "x-forwarded-for" md)) peer

unfoldable pub user_agent : Option Metadata → String
unfolding get_values
user_agent none = ""
user_agent (some md) =
    or_text (first_value (get_values "grpcgateway-user-agent" md))
      (first_value (get_values "user-agent" md))

-- `strings.ToLower`, as far as the letters of `cid=` can tell: U+0130 becomes an `i`.
abbrev lower_code : ℕ → ℕ
lower_code c = if leb 65 c && leb c 90 then c + 32 else if c == 304 then 105 else c

unfoldable pub has_prefix_lower : String → String → Bool
has_prefix_lower String.[] s = true
has_prefix_lower (String.◌∷◌ p ps) String.[] = false
has_prefix_lower (String.◌∷◌ p ps) (String.◌∷◌ c s) =
    lower_code (code c) == code p && has_prefix_lower ps s

abbrev or_whole : Option String → String → String
or_whole none s = s
or_whole (some rest) _ = rest

-- `strings.TrimPrefix`, which minds the case
unfoldable pub trim_prefix : String → String → String
unfolding strip_prefix
trim_prefix p s = or_whole (strip_prefix p s) s

unfoldable pub find_cid : List String → String
unfolding has_prefix_lower trim_prefix trim_space
find_cid [] = ""
find_cid (part ∷ parts) =
    let rest = find_cid parts in
    if has_prefix_lower "cid=" (trim_space part) then trim_prefix "cid=" (trim_space part) else rest

unfoldable pub parse_client_id_from_cookie : String → String
unfolding split_at find_cid
parse_client_id_from_cookie header =
    let (first, others) = split_at 59 header in find_cid (first ∷ others)

cookie_example : parse_client_id_from_cookie "a=1; cid=xyz" ≡ "xyz"
unfolding parse_client_id_from_cookie
cookie_example = refl

-- The name of the cookie is found whatever its case, and taken off in lower case only.
cookie_capitals : parse_client_id_from_cookie "CID=xyz" ≡ "CID=xyz"
unfolding parse_client_id_from_cookie
cookie_capitals = refl

abbrev cookie_id : List String → String
cookie_id [] = ""
cookie_id (v ∷ _) = parse_client_id_from_cookie v

unfoldable pub known_client_id : Option Metadata → String
unfolding get_values parse_client_id_from_cookie trim_space
known_client_id none = ""
known_client_id (some md) =
    or_text (trim_space (first_value (get_values "x-client-id" md)))
      (cookie_id (get_values "cookie" md))

-- `uuid.NewString()` where the caller names none
unfoldable pub client_id : (Uuid → String) → Option Metadata → Run String
unfolding known_client_id
client_id print md =
    if str_eq (known_client_id md) ""
    then (do id ← fresh_id; pure (print id))
    else pure (known_client_id md)

abbrev pub ptr_non_empty : String → Option String
ptr_non_empty s = if str_eq (trim_space s) "" then none else some s

unfoldable pub client_meta : (Uuid → String) → Option Metadata → String → Run ClientMeta
unfolding client_ip user_agent client_id trim_space
client_meta print md peer = do
  id ← client_id print md
  pure (record {
    client_id = ptr_non_empty id;
    ip = ptr_non_empty (client_ip md peer);
    user_agent = ptr_non_empty (user_agent md);
  })

abbrev trimmed_rest : Option String → String
trimmed_rest none = ""
trimmed_rest (some rest) = trim_space rest

-- the access token of the header, or nothing
unfoldable pub access_token : Option Metadata → String
unfolding authorization strip_fold trim_space
access_token none = ""
access_token (some md) = trimmed_rest (strip_fold "bearer " (authorization md))
