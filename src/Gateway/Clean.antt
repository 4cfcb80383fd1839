-- ===== src/Gateway/Clean.antt =====
-- What a token that the gateway reads cannot hold.
use Prim.Native.Char.{Char, code}
use mathlib.Core.Path.{subst}
use order_hub.Base.{
  ℕ, ◌≡◌, refl, true, false, Option, none, some, String, str_eq, arith, Bool-cases, inl, inr,
  some_injective, if◌then◌else◌, ◌==◌, ◌&&◌,
}
use order_hub.Base.Text.{trim_space, trim_left, trim_right, is_space}
use order_hub.Interceptor.Bearer.{strip_fold}
use order_hub.Gateway.Bearer.{
  trim_left_quotes, trim_right_quotes, trim_quotes, keep_inner, is_quote, cleaned_rest, has_code,
  before, cut_at, clean_token, extract_bearer_token,
}

abbrev pub Lacks : ℕ → String → Type 0
Lacks n s = has_code n s ≡ false

-- what holds of the first character and of the rest
head_tail :
    (n : ℕ) (c : Char) (s : String) → Lacks n (String.◌∷◌ c s) → ((code c == n) ≡ false) × Lacks n s
unfolding has_code
head_tail n c s h = elim (Bool-cases (code c == n)) [
  | inl e ↦ let bad : true ≡ false = rw e at h in cc
  | inr e ↦ (e, rw e at h)
]

both_lack :
    (n : ℕ) (c : Char) (s : String) → (code c == n) ≡ false → Lacks n s → Lacks n (String.◌∷◌ c s)
unfolding has_code
both_lack n c s d h = rw d h

-- the last step of `trim_right`
abbrev keep_char : Char → String → String
keep_char c String.[] = if is_space (code c) then String.[] else String.◌∷◌ c String.[]
keep_char c rest = String.◌∷◌ c rest

before-Lacks : (n : ℕ) (s : String) → Lacks n (before n s)
unfolding has_code before
before-Lacks n String.[] = refl
before-Lacks n (String.◌∷◌ c s) = elim (Bool-cases (code c == n)) [
  | inl e ↦ rw e refl
  | inr e ↦ rw e (both_lack n c (before n s) e (before-Lacks n s))
]

trim_left_quotes-Lacks : (n : ℕ) (s : String) → Lacks n s → Lacks n (trim_left_quotes s)
unfolding has_code trim_left_quotes
trim_left_quotes-Lacks n String.[] h = refl
trim_left_quotes-Lacks n (String.◌∷◌ c s) h = ground (arith, trim_left_quotes-Lacks n s)

keep_inner-Lacks :
    (n : ℕ) (c : Char) (r : String) → (code c == n) ≡ false → Lacks n r → Lacks n (keep_inner c r)
unfolding has_code
keep_inner-Lacks n c r d h = elim (Bool-cases (is_quote (code c) && str_eq r "")) [
  | inl e ↦ rw e refl
  | inr e ↦ rw e (both_lack n c r d h)
]

trim_right_quotes-Lacks : (n : ℕ) (s : String) → Lacks n s → Lacks n (trim_right_quotes s)
unfolding has_code trim_right_quotes
trim_right_quotes-Lacks n String.[] h = refl
trim_right_quotes-Lacks n (String.◌∷◌ c s) h =
    let (d, t) = head_tail n c s h in
    keep_inner-Lacks n c (trim_right_quotes s) d (trim_right_quotes-Lacks n s t)

trim_left-Lacks : (n : ℕ) (s : String) → Lacks n s → Lacks n (trim_left s)
unfolding has_code trim_left
trim_left-Lacks n String.[] h = refl
trim_left-Lacks n (String.◌∷◌ c s) h = ground (arith, trim_left-Lacks n s)

keep_char-Lacks :
    (n : ℕ) (c : Char) (r : String) → (code c == n) ≡ false → Lacks n r → Lacks n (keep_char c r)
unfolding has_code
keep_char-Lacks n c String.[] d h = elim (Bool-cases (is_space (code c))) [
  | inl e ↦ rw e refl
  | inr e ↦ rw e (both_lack n c String.[] d refl)
]
keep_char-Lacks n c (String.◌∷◌ x r) d h = both_lack n c (String.◌∷◌ x r) d h

trim_right-Lacks : (n : ℕ) (s : String) → Lacks n s → Lacks n (trim_right s)
unfolding has_code trim_right
trim_right-Lacks n String.[] h = refl
trim_right-Lacks n (String.◌∷◌ c s) h =
    let (d, t) = head_tail n c s h in keep_char-Lacks n c (trim_right s) d (trim_right-Lacks n s t)

trim_space-Lacks : (n : ℕ) (s : String) → Lacks n s → Lacks n (trim_space s)
unfolding trim_space
trim_space-Lacks n s h = trim_right-Lacks n (trim_left s) (trim_left-Lacks n s h)

trim_quotes-Lacks : (n : ℕ) (s : String) → Lacks n s → Lacks n (trim_quotes s)
unfolding trim_quotes
trim_quotes-Lacks n s h =
    trim_right_quotes-Lacks n (trim_left_quotes s) (trim_left_quotes-Lacks n s h)

cut_at-Lacks : (n : ℕ) (s : String) → Lacks n (cut_at n s)
unfolding cut_at
cut_at-Lacks n s = elim (Bool-cases (has_code n s)) [
  | inl e ↦ rw e (trim_space-Lacks n (before n s) (before-Lacks n s))
  | inr e ↦ rw e e
]

before-kept : (n m : ℕ) (s : String) → Lacks n s → Lacks n (before m s)
unfolding has_code before
before-kept n m String.[] h = refl
before-kept n m (String.◌∷◌ c s) h =
    let (d, t) = head_tail n c s h in
    elim (Bool-cases (code c == m)) [
      | inl e ↦ rw e refl
      | inr e ↦ rw e (both_lack n c (before m s) d (before-kept n m s t))
    ]

cut_at-kept : (n m : ℕ) (s : String) → Lacks n s → Lacks n (cut_at m s)
unfolding cut_at
cut_at-kept n m s h = elim (Bool-cases (has_code m s)) [
  | inl e ↦ rw e (trim_space-Lacks n (before m s) (before-kept n m s h))
  | inr e ↦ rw e h
]

clean_token-Lacks : (rest : String) → Lacks 44 (clean_token rest) × Lacks 32 (clean_token rest)
unfolding clean_token
clean_token-Lacks rest =
    let cut : String = trim_quotes (cut_at 44 (trim_quotes (trim_space rest))) in
    let no_comma : Lacks 44 cut =
      trim_quotes-Lacks 44 (cut_at 44 (trim_quotes (trim_space rest)))
        (cut_at-Lacks 44 (trim_quotes (trim_space rest))) in
    (
      trim_quotes-Lacks 44 (cut_at 32 cut) (cut_at-kept 44 32 cut no_comma),
      trim_quotes-Lacks 32 (cut_at 32 cut) (cut_at-Lacks 32 cut),
    )

-- A token that `ExtractBearerToken` reads holds no comma and no space (U+0020), whatever the header.
pub extract_bearer_token-Lacks :
    (authz token : String)
    → extract_bearer_token authz ≡ some token
    → Lacks 44 token × Lacks 32 token
unfolding extract_bearer_token
extract_bearer_token-Lacks authz token e = read (strip_fold "bearer " authz) e
  where
    read : (o : Option String) → cleaned_rest o ≡ some token → Lacks 44 token × Lacks 32 token
    read none x = cc
    read (some rest) x =
        subst (λ t. Lacks 44 t × Lacks 32 t) (some_injective _ _ x) (clean_token-Lacks rest)
