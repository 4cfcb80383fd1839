-- ===== src/Base/Text.antt =====
-- `strings.TrimSpace` of Go.
use Prim.Native.Char.{Char, code}
use order_hub.Base.{ℕ, Bool, ◌&&◌, ◌||◌, String, leb, ◌==◌, if◌then◌else◌, ◌≡◌, refl}

-- `unicode.IsSpace`
unfoldable pub is_space : ℕ → Bool
is_space c =
    (leb 9 c && leb c 13)
    || c == 32
    || c == 133
    || c == 160
    || c == 5760
    || (leb 8192 c && leb c 8202)
    || c == 8232
    || c == 8233
    || c == 8239
    || c == 8287
    || c == 12288

unfoldable pub trim_left : String → String
unfolding is_space
trim_left String.[] = String.[]
trim_left (String.◌∷◌ c s) =
    let rest = trim_left s in if is_space (code c) then rest else String.◌∷◌ c s

-- Drops the spaces at the end: a space stays only if something stays after it.
unfoldable pub trim_right : String → String
unfolding is_space
trim_right String.[] = String.[]
trim_right (String.◌∷◌ c s) = keep_char c (trim_right s)
  where
    keep_char : Char → String → String
    keep_char c String.[] = if is_space (code c) then String.[] else String.◌∷◌ c String.[]
    keep_char c rest = String.◌∷◌ c rest

unfoldable pub trim_space : String → String
unfolding trim_left trim_right
trim_space s = trim_right (trim_left s)

trim_example : trim_space "  a b \t" ≡ "a b"
unfolding trim_space
trim_example = refl

-- `a + b` of Go
unfoldable pub text_append : String → String → String
text_append String.[] t = t
text_append (String.◌∷◌ c s) t = String.◌∷◌ c (text_append s t)
