-- ===== src/Hex/RoundTrip.antt =====
-- Decoding what `bytes_to_hex` printed.
use Prim.Native.Nat.{bit_or}
use simplepool.Prelude.{
  ℕ, ◌*◌, ◌/◌, ◌%◌, ◌^◌, ◌≤◌, ◌<◌, ◌≡◌, refl, inl, inr, Option-cases, some, List, [], ◌∷◌, arith,
  length, All,
}
use simplepool.Prelude.Bits.{shifted_bit_or}
use simplepool.Bytes.{IsByte}
use simplepool.Hex.{
  hex_nibble, join_nibbles, decode_pairs, hex_decode, hex_to_bytes, hex_digit, bytes_to_hex,
}

join-split : (b : ℕ) → b < 256 → bit_or (b / 16 % 16 * 16) (b % 16) % 256 ≡ b
join-split b h = omega (arith, shifted_bit_or 4 (b / 16 % 16) (b % 16) (omega arith))

hex_nibble-hex_digit : (v : ℕ) → v < 16 → hex_nibble (hex_digit v) ≡ some v
unfolding hex_nibble hex_digit
hex_nibble-hex_digit v h = ground arith

decode_pairs-bytes_to_hex : (bs : List ℕ) → All IsByte bs → decode_pairs (bytes_to_hex bs) ≡ some bs
unfolding decode_pairs bytes_to_hex join_nibbles
decode_pairs-bytes_to_hex [] h = refl
decode_pairs-bytes_to_hex (b ∷ bs) h = ground (
  arith,
  hex_nibble-hex_digit (b / 2 ^ 4 % 16),
  hex_nibble-hex_digit (b % 16),
  join-split b,
  decode_pairs-bytes_to_hex bs h.1,
)

length-bytes_to_hex : (bs : List ℕ) → length (bytes_to_hex bs) ≡ length bs * 2
unfolding bytes_to_hex
length-bytes_to_hex [] = omega arith
length-bytes_to_hex (b ∷ bs) = omega (arith, length-bytes_to_hex bs)

-- Both decoders read back what `bytes_to_hex` printed: `hex_decode` whenever the bytes fit its
-- buffer, `hex_to_bytes` when asked for exactly that many.
pub decoders-bytes_to_hex :
    (bs : List ℕ) (cap : ℕ)
    → All IsByte bs
    → length bs ≤ cap
    → (hex_decode (bytes_to_hex bs) cap ≡ some bs)
      × (hex_to_bytes (bytes_to_hex bs) (length bs) ≡ some bs)
unfolding hex_decode hex_to_bytes
decoders-bytes_to_hex bs cap h fits =
    let dec = decode_pairs-bytes_to_hex bs h in
    let len = length-bytes_to_hex bs in (ground arith, ground arith)

-- What the decoders accept: an even number of hex digits, two for each byte that comes out.
pub decode_pairs-length :
    (hex bs : List ℕ) → decode_pairs hex ≡ some bs → (length hex ≡ length bs * 2) × All IsByte bs
unfolding decode_pairs join_nibbles
decode_pairs-length [] bs e = ground arith
decode_pairs-length (c ∷ []) bs e = cc
decode_pairs-length (c ∷ d ∷ rest) bs e = elim (Option-cases (decode_pairs rest)) [
  | inl f ↦ ground arith
  | inr (t, f) ↦ let ih = decode_pairs-length rest t f in ground arith
]
