-- ===== src/Gateway/Bearer.antt =====
-- `ExtractBearerToken` of middleware/auth.go.
use Prim.Native.Char.{Char, code}
use order_hub.Base.{
  ℕ, ◌≡◌, refl, Bool, false, Option, none, some, String, str_eq, ◌==◌, if◌then◌else◌, ◌&&◌, ◌||◌,
}
use order_hub.Base.Text.{trim_space}
use order_hub.Interceptor.Bearer.{strip_fold}

-- The characters that `strings.Trim(t, " \"'")` takes off: space and both quotes.
abbrev pub is_quote : ℕ → Bool
is_quote c = c == 32 || c == 34 || c == 39

unfoldable pub trim_left_quotes : String → String
trim_left_quotes String.[] = String.[]
trim_left_quotes (String.◌∷◌ c s) =
    let rest = trim_left_quotes s in if is_quote (code c) then rest else String.◌∷◌ c s

abbrev pub keep_inner : Char → String → String
keep_inner c rest = if is_quote (code c) && str_eq rest "" then String.[] else String.◌∷◌ c rest

unfoldable pub trim_right_quotes : String → String
trim_right_quotes String.[] = String.[]
trim_right_quotes (String.◌∷◌ c s) = keep_inner c (trim_right_quotes s)

unfoldable pub trim_quotes : String → String
unfolding trim_left_quotes trim_right_quotes
trim_quotes s = trim_right_quotes (trim_left_quotes s)

-- `strings.IndexByte(s, sep) >= 0`
unfoldable pub has_code : ℕ → String → Bool
has_code sep String.[] = false
has_code sep (String.◌∷◌ c s) = code c == sep || has_code sep s

-- `s[:i]` at the first `sep`
unfoldable pub before : ℕ → String → String
before sep String.[] = String.[]
before sep (String.◌∷◌ c s) =
    let rest = before sep s in if code c == sep then String.[] else String.◌∷◌ c rest

unfoldable pub cut_at : ℕ → String → String
unfolding has_code before trim_space
cut_at sep s = if has_code sep s then trim_space (before sep s) else s

-- 44 is the comma, 32 the space.
unfoldable pub clean_token : String → String
unfolding trim_quotes cut_at trim_space
clean_token rest = trim_quotes (cut_at 32 (trim_quotes (cut_at 44 (trim_quotes (trim_space rest)))))

abbrev pub cleaned_rest : Option String → Option String
cleaned_rest none = none
cleaned_rest (some rest) = some (clean_token rest)

-- The part before the first space is `Bearer` in any case where the header begins with `bearer` and a space in
-- any case.
unfoldable pub extract_bearer_token : String → Option String
unfolding strip_fold clean_token
extract_bearer_token authz = cleaned_rest (strip_fold "bearer " authz)

quoted : extract_bearer_token "Bearer \"abc.def\", extra" ≡ some "abc.def"
unfolding extract_bearer_token
quoted = refl
