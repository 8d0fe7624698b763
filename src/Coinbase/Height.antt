-- ===== src/Coinbase/Height.antt =====
-- The height push of src/coinbase.c as BIP 34 asks for it.
use simplepool.Prelude.{
  ℕ, zero, suc, ◌+◌, ◌-◌, ◌*◌, ◌/◌, ◌%◌, ◌^◌, ◌≤◌, ◌<◌, ◌≡◌, inl, inr, refl, ap, ◌∙◌, false, List,
  [], ◌∷◌, ◌++◌, arith, length, leb, ◌==◌, Bool-cases, get_or, All, length-append,
  get_or-append_right,
}
use native.Mathlib.Nat.{pow-suc}
use simplepool.Bytes.{IsByte}
use simplepool.ScriptSig.{height_bytes, sign_byte, bip34_height_push}

-- The number that little-endian bytes spell.
unfoldable pub le_value : List ℕ → ℕ
le_value [] = 0
le_value (b ∷ bs) = b + 256 * le_value bs

le_value-append_zero : (bs : List ℕ) → le_value (bs ++ (0 ∷ [])) ≡ le_value bs
unfolding le_value
le_value-append_zero [] = refl
le_value-append_zero (b ∷ bs) = ap (λ v. b + 256 * v) (le_value-append_zero bs)

height_bytes-value :
    (fuel v : ℕ)
    → v < 256 ^ fuel
    → (le_value (height_bytes fuel v) ≡ v) × (length (height_bytes fuel v) ≤ fuel)
unfolding height_bytes le_value
height_bytes-value zero v h = (omega arith, omega arith)
height_bytes-value (suc fuel) v h =
    let (value, size) = height_bytes-value fuel (v / 2 ^ 8) (omega (arith, pow-suc 256 fuel)) in
    (ground (arith, value), ground (arith, size))

height_bytes-IsByte : (fuel v : ℕ) → All IsByte (height_bytes fuel v)
unfolding height_bytes
height_bytes-IsByte zero v = tt
height_bytes-IsByte (suc fuel) v = elim (Bool-cases (v == 0)) [
  | inl z ↦ rw z tt
  | inr p ↦ rw p (omega arith, height_bytes-IsByte fuel (v / 2 ^ 8))
]

get_or-IsByte : (bs : List ℕ) (i : ℕ) → All IsByte bs → get_or bs i 0 < 256
get_or-IsByte [] i h = omega arith
get_or-IsByte (b ∷ bs) zero h = h.0
get_or-IsByte (b ∷ bs) (suc i) h = get_or-IsByte bs i h.1

-- The sign bit of the last byte ends up clear, and the number is the same.
sign_byte-clear :
    (bs : List ℕ)
    → All IsByte bs
    → (get_or (sign_byte bs) (length (sign_byte bs) - 1) 0 < 0x80)
      × (le_value (sign_byte bs) ≡ le_value bs)
      × (length (sign_byte bs) ≤ length bs + 1)
unfolding sign_byte
sign_byte-clear bs h =
    let last : ℕ = get_or bs (length bs - 1) 0 in
    let low = get_or-IsByte bs (length bs - 1) h in
    elim (Bool-cases (last / 0x80 % 2 == 1)) [
      | inl signed ↦
          let zero_last : get_or (bs ++ (0x00 ∷ [])) (length (bs ++ (0x00 ∷ [])) - 1) 0 ≡ 0 =
            ap (λ k. get_or (bs ++ (0x00 ∷ [])) k 0) (omega (arith, length-append bs (0x00 ∷ [])))
            ∙ get_or-append_right bs (0x00 ∷ []) 0 0 in
          rw signed (
            omega (arith, zero_last),
            le_value-append_zero bs,
            omega (arith, length-append bs (0x00 ∷ [])),
          )
      | inr clear ↦ rw clear (ground arith, refl, omega arith)
    ]

-- A height above 16 and below 2 ^ 32 is pushed as a script number: a count of at most five, and
-- that many bytes which spell the height from the low end and leave the sign bit clear.
pub bip34_height_push-number :
    (height : ℕ)
    → 16 < height
    → height < 2 ^ 32
    → (bytes : List ℕ) × (bip34_height_push height ≡ length bytes ∷ bytes)
      × (length bytes ≤ 5)
      × (le_value bytes ≡ height)
      × (get_or bytes (length bytes - 1) 0 < 0x80)
unfolding bip34_height_push
bip34_height_push-number height big small =
    let raw = height_bytes 4 height in
    let (value, size) = height_bytes-value 4 height small in
    let (clear, same, grown) = sign_byte-clear raw (height_bytes-IsByte 4 height) in
    let some_height : (height == 0) ≡ false = ground arith in
    let long : leb height 16 ≡ false = ground arith in
    (sign_byte raw, rw (some_height, long) refl, omega (arith, grown, size), same ∙ value, clear)
