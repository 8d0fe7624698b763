-- ===== src/Address/Bech32.antt =====
-- `bech32_decode` and `convertbits` of src/coinbase.c (BIP 173 and BIP 350).
use Prim.Native.Nat.{bit_or, bit_xor}
use simplepool.Prelude.{
  ℕ, zero, suc, ◌+◌, ◌-◌, ◌*◌, ◌/◌, ◌%◌, ◌^◌, Bool, false, ◌&&◌, ◌||◌, not, Option, none, some,
  List, [], ◌∷◌, ◌++◌, map, ltb, leb, ◌==◌, if◌then◌else◌, length, take, drop,
}
use simplepool.Prelude.Text.{codes}
use simplepool.Address.Base58.{index_of}

abbrev pub bech32_alpha : List ℕ
bech32_alpha = codes "qpzry9x8gf2tvdw0s3jn54khce6mua7l"

unfoldable pub bech32_charpos : ℕ → Option ℕ
unfolding index_of
bech32_charpos c = index_of bech32_alpha c 0

-- `if ((b >> j) & 1) chk ^= G[j];` for the rest of `G`.
unfoldable pub mix : List ℕ → ℕ → ℕ → ℕ
mix [] b chk = chk
mix (g ∷ gs) b chk = mix gs (b / 2) (if b % 2 == 1 then bit_xor chk g else chk)

abbrev pub generator : List ℕ
generator = 0x3b6a57b2 ∷ 0x26508e6d ∷ 0x1ea119fa ∷ 0x3d4233dd ∷ 0x2a1462b3 ∷ []

unfoldable pub polymod_from : ℕ → List ℕ → ℕ
unfolding mix
polymod_from chk [] = chk
polymod_from chk (v ∷ vs) =
    polymod_from (mix generator (chk / 2 ^ 25) (bit_xor (chk % 2 ^ 25 * 2 ^ 5) v)) vs

unfoldable pub bech32_polymod : List ℕ → ℕ
unfolding polymod_from
bech32_polymod values = polymod_from 1 values

unfoldable pub bech32_hrp_expand : List ℕ → List ℕ
bech32_hrp_expand hrp = map (λ c. c / 2 ^ 5) hrp ++ (0 ∷ map (λ c. c % 32) hrp)

abbrev pub is_upper : ℕ → Bool
is_upper c = leb b'A' c && leb c b'Z'

abbrev pub is_lower : ℕ → Bool
is_lower c = leb b'a' c && leb c b'z'

abbrev pub to_lower : ℕ → ℕ
to_lower c = if is_upper c then c - b'A' + b'a' else c

-- The index of the last '1', counted from `i`.
unfoldable pub last_one : List ℕ → ℕ → Option ℕ
last_one [] i = none
last_one (c ∷ cs) i = elim (last_one cs (i + 1)) [
  | some j ↦ some j
  | none ↦ if c == b'1' then some i else none
]

unfoldable pub any_char : (ℕ → Bool) → List ℕ → Bool
any_char p [] = false
any_char p (c ∷ cs) = p c || any_char p cs

-- The data characters as 5-bit values.
unfoldable pub charvalues : List ℕ → Option (List ℕ)
charvalues [] = some []
charvalues (c ∷ cs) = elim (bech32_charpos (to_lower c)) [
  | none ↦ none
  | some v ↦ elim (charvalues cs) [ none ↦ none | some vs ↦ some (v ∷ vs) ]
]

-- bech32 or bech32m, by the checksum constant; `none` for neither.
unfoldable pub encoding_of : ℕ → Option ℕ
encoding_of chk = if chk == 1 then some 1 else if chk == 0x2bc830a3 then some 2 else none

-- What follows the separator search: HRP, data part, checksum.
unfoldable pub decode_parts : List ℕ → List ℕ → Option (List ℕ × ℕ)
unfolding any_char
decode_parts hrp_text data_text =
    if any_char (λ c. ltb c 33 || ltb 126 c) hrp_text
    then none
    else if ltb 90 (length data_text)
    then none
    else elim (charvalues data_text) [
      | none ↦ none
      | some values ↦
          if any_char is_lower (hrp_text ++ data_text) && any_char is_upper (hrp_text ++ data_text)
          then none
          else elim (encoding_of
              (bech32_polymod (bech32_hrp_expand (map to_lower hrp_text) ++ values))) [
                | none ↦ none
                | some enc ↦ some (take (length values - 6) values, enc)
              ]
    ]

-- The 5-bit groups without the checksum, and the encoding. `hrp_cap` is the size of the HRP buffer;
-- the buffers of 200 and 90 groups are never too short for 90 characters.
unfoldable pub bech32_decode : List ℕ → ℕ → Option (List ℕ × ℕ)
bech32_decode addr hrp_cap =
    if ltb (length addr) 8 || ltb 90 (length addr) then none else elim (last_one addr 0) [
      | none ↦ none
      | some sep ↦
          if ltb sep 1 || ltb (length addr) (sep + 7)
          then none
          else if ltb hrp_cap (sep + 1)
          then none
          else decode_parts (take sep addr) (drop (sep + 1) addr)
    ]

-- `while (bits >= to) { bits -= to; if (off >= *out_len) return -1; out[off++] = ...; }`: the groups
-- emitted and the bits left. `bits` rounds are enough for any `to` above 0.
unfoldable pub emit : ℕ → ℕ → ℕ → ℕ → ℕ → Option (List ℕ × ℕ)
emit zero acc bits to room = some ([], bits)
emit (suc fuel) acc bits to room =
    let bits' = bits - to in
    let more = emit fuel acc bits' to (room - 1) in
    if ltb bits to
    then some ([], bits)
    else if room == 0
    then none
    else elim more [ none ↦ none | some (out, left) ↦ some (acc / 2 ^ bits' % 2 ^ to ∷ out, left) ]

-- What stands after the loop over the input.
unfoldable pub finish_bits : ℕ → ℕ → ℕ → ℕ → Bool → ℕ → Option (List ℕ)
finish_bits acc bits from to pad room =
    let tail = acc * 2 ^ (to - bits) % 2 ^ 32 % 2 ^ to in
    if pad
    then if ltb 0 bits then (if room == 0 then none else some (tail ∷ [])) else some []
    else if leb from bits || not (tail == 0)
    then none
    else some []

-- `room` is `*out_len - off`.
unfoldable pub convert_from : List ℕ → ℕ → ℕ → ℕ → ℕ → Bool → ℕ → Option (List ℕ)
convert_from [] acc bits from to pad room = finish_bits acc bits from to pad room
convert_from (v ∷ vs) acc bits from to pad room =
    if not (v / 2 ^ from == 0)
    then none
    else let acc' = bit_or (acc * 2 ^ from % 2 ^ 32) v in
      elim (emit (bits + from) acc' (bits + from) to room) [
        | none ↦ none
        | some (out, left) ↦ elim (convert_from vs acc' left from to pad (room - length out)) [
          | none ↦ none
          | some rest ↦ some (out ++ rest)
        ]
      ]

unfoldable pub convertbits : List ℕ → ℕ → ℕ → Bool → ℕ → Option (List ℕ)
unfolding convert_from
convertbits input from to pad out_len = convert_from input 0 0 from to pad out_len
