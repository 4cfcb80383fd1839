-- ===== src/Auth/Token/Bytes.antt =====
-- `bigIntToBytes` and the loop of `jwkToPublic` that reads the bytes back, on the signed 64 bits of an `int`.
use order_hub.Base.{
  ℕ, zero, suc, ◌+◌, ◌*◌, ◌/◌, ◌%◌, ◌<◌, ◌≡◌, refl, sym, ap, ◌∙◌, Bool, false, List, [], ◌∷◌, arith,
  ◌==◌, if◌then◌else◌, Bool-cases, inl, inr,
}
use order_hub.Base.Int.{ℤ, pos, negsuc, ◌+ℤ◌, ◌*ℤ◌, wrap64}

-- `for i := e; i > 0; i >>= 8 { b = append([]byte{byte(i & 0xff)}, b...) }`. The loop ends at 0 and at once
-- for a number below 0; where the fuel runs out it ends with the bytes so far.
unfoldable pub bytes_loop : ℕ → ℤ → List ℕ → List ℕ
bytes_loop zero i b = b
bytes_loop (suc fuel) (negsuc i) b = b
bytes_loop (suc fuel) (pos i) b =
    let rest = bytes_loop fuel (pos (i / 256)) ((i % 256) ∷ b) in if i == 0 then b else rest

abbrev pub is_zero : ℤ → Bool
is_zero (pos n) = n == 0
is_zero (negsuc n) = false

-- An `int` has eight bytes.
unfoldable pub big_int_to_bytes : ℤ → List ℕ
big_int_to_bytes e = if is_zero e then 0 ∷ [] else bytes_loop 8 e []

-- `e = (e << 8) | int(b)`: the shift wraps around and leaves the low byte 0, so that `|` adds the byte
unfoldable pub read_bytes : ℤ → List ℕ → ℤ
read_bytes e [] = e
read_bytes e (b ∷ bytes) = read_bytes (wrap64 (e *ℤ pos 256) +ℤ pos b) bytes

-- the numbers that so many bytes hold
abbrev capacity : ℕ → ℕ
capacity zero = 1
capacity (suc n) = 256 * capacity n

pos-* : (n : ℕ) → pos n *ℤ pos 256 ≡ pos (n * 256)
unfolding ◌*ℤ◌
pos-* n = ground arith

pos-+ : (m n : ℕ) → pos m +ℤ pos n ≡ pos (m + n)
unfolding ◌+ℤ◌
pos-+ m n = ground arith

wrap64-pos : (n : ℕ) → n < 9223372036854775808 → wrap64 (pos n) ≡ pos n
unfolding wrap64
wrap64-pos n h = ground arith

-- A number comes back from its last byte and the rest.
shift-lem :
    (i : ℕ) → i < 9223372036854775808 → wrap64 (pos (i / 256) *ℤ pos 256) +ℤ pos (i % 256) ≡ pos i
shift-lem i h =
    ap (λ x. wrap64 x +ℤ pos (i % 256)) (pos-* (i / 256))
    ∙ ap (λ x. x +ℤ pos (i % 256)) (wrap64-pos (i / 256 * 256) (omega arith))
    ∙ pos-+ (i / 256 * 256) (i % 256)
    ∙ ap pos (omega arith)

read_none : (e : ℕ) → read_bytes (pos e) [] ≡ pos e
unfolding read_bytes
read_none e = refl

read_zero : read_bytes (pos 0) (0 ∷ []) ≡ pos 0
unfolding read_bytes wrap64 ◌*ℤ◌ ◌+ℤ◌
read_zero = refl

read-loop :
    (fuel i : ℕ) (b : List ℕ)
    → i < capacity fuel
    → i < 9223372036854775808
    → read_bytes (pos 0) (bytes_loop fuel (pos i) b) ≡ read_bytes (pos i) b
unfolding bytes_loop read_bytes
read-loop zero i b h m = let nought : i ≡ 0 = omega arith in rw nought refl
read-loop (suc fuel) i b h m = elim (Bool-cases (i == 0)) [
  | inl done ↦ let nought : i ≡ 0 = ground arith in rw done (rw nought refl)
  | inr more ↦ rw more (
      read-loop fuel (i / 256) ((i % 256) ∷ b) (omega arith) (omega arith)
      ∙ ap (λ n. read_bytes n b) (shift-lem i m))
]

round_trip :
    (e : ℕ) → e < 9223372036854775808 → read_bytes (pos 0) (big_int_to_bytes (pos e)) ≡ pos e
unfolding big_int_to_bytes
round_trip e h =
    let whole : read_bytes (pos 0) (bytes_loop 8 (pos e) []) ≡ pos e =
      read-loop 8 e [] (omega arith) h ∙ read_none e in
    elim (Bool-cases (e == 0)) [
      | inl nought ↦
          let zero_e : e ≡ 0 = ground arith in rw nought (read_zero ∙ ap pos (sym zero_e))
      | inr more ↦ rw more whole
    ]

-- The public exponent survives the encoding: what `jwkToPublic` reads from the bytes that `bigIntToBytes` makes
-- of an `int` that is not below 0 is that `int`; of one below 0 no bytes are made, and 0 is read.
pub read_bytes-big_int_to_bytes :
    (e : ℕ)
    → e < 9223372036854775808
    → (read_bytes (pos 0) (big_int_to_bytes (pos e)) ≡ pos e)
      × (big_int_to_bytes (negsuc e) ≡ [])
      × (read_bytes (pos 0) (big_int_to_bytes (negsuc e)) ≡ pos 0)
unfolding big_int_to_bytes read_bytes bytes_loop
read_bytes-big_int_to_bytes e h = (round_trip e h, refl, refl)
