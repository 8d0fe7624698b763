-- ===== src/Hex.antt =====
-- The hex readers and writers of src/coinbase.c and src/stratum.c. A C string is the list of its
-- character codes without the closing NUL, so `strlen` is `length`.
mod Tests
pub mod RoundTrip
use Prim.Native.Nat.{bit_or}
use simplepool.Prelude.{
  ℕ, ◌+◌, ◌-◌, ◌*◌, ◌/◌, ◌%◌, ◌^◌, Bool, ◌&&◌, Option, none, some, List, [], ◌∷◌, ltb, leb, ◌==◌,
  not, if◌then◌else◌, length,
}

-- `none` is the -1 of a character that is no hex digit.
unfoldable pub hex_nibble : ℕ → Option ℕ
hex_nibble c =
    if leb b'0' c && leb c b'9'
    then some (c - b'0')
    else if leb b'a' c && leb c b'f'
    then some (10 + (c - b'a'))
    else if leb b'A' c && leb c b'F'
    then some (10 + (c - b'A'))
    else none

-- `(uint8_t)((hi << 4) | lo)`, unless a nibble failed.
unfoldable pub join_nibbles : Option ℕ → Option ℕ → Option ℕ
join_nibbles (some hi) (some lo) = some (bit_or (hi * 2 ^ 4) lo % 256)
join_nibbles (some hi) none = none
join_nibbles none lo = none

-- The loop over `hex[2 * i]` and `hex[2 * i + 1]`.
unfoldable pub decode_pairs : List ℕ → Option (List ℕ)
decode_pairs [] = some []
decode_pairs (c ∷ []) = none
decode_pairs (c ∷ d ∷ rest) = elim (join_nibbles (hex_nibble c) (hex_nibble d)) [
  | none ↦ none
  | some byte ↦ elim (decode_pairs rest) [ none ↦ none | some bytes ↦ some (byte ∷ bytes) ]
]

-- `hex_decode` of coinbase.c: the bytes, of which there are `*out_len`.
unfoldable pub hex_decode : List ℕ → ℕ → Option (List ℕ)
hex_decode hex cap =
    if not (length hex % 2 == 0)
    then none
    else if ltb cap (length hex / 2)
    then none
    else decode_pairs hex

-- `hex_to_bytes` of stratum.c: exactly `outlen` bytes.
unfoldable pub hex_to_bytes : List ℕ → ℕ → Option (List ℕ)
hex_to_bytes hex outlen = if not (length hex == outlen * 2) then none else decode_pairs hex

-- `H[v]` for `H = "0123456789abcdef"`.
unfoldable pub hex_digit : ℕ → ℕ
hex_digit v = if ltb v 10 then b'0' + v else b'a' + (v - 10)

unfoldable pub bytes_to_hex : List ℕ → List ℕ
bytes_to_hex [] = []
bytes_to_hex (b ∷ bs) = hex_digit (b / 2 ^ 4 % 16) ∷ hex_digit (b % 16) ∷ bytes_to_hex bs

-- `((uint32_t)b[0] << 24) | ((uint32_t)b[1] << 16) | ((uint32_t)b[2] << 8) | (uint32_t)b[3]`.
unfoldable pub be_u32 : List ℕ → Option ℕ
be_u32 (a ∷ b ∷ c ∷ d ∷ []) =
    some (bit_or (bit_or (bit_or (a * 2 ^ 24) (b * 2 ^ 16)) (c * 2 ^ 8)) d)
be_u32 _ = none

unfoldable pub parse_u32_hex : List ℕ → Option ℕ
unfolding be_u32 hex_to_bytes
parse_u32_hex hex = elim (hex_to_bytes hex 4) [ none ↦ none | some b ↦ be_u32 b ]
