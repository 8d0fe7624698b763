-- ===== src/Address/Base58.antt =====
-- `b58_decode` of src/coinbase.c and of src/thunder.c.
use simplepool.Prelude.{
  ℕ, suc, ◌+◌, ◌*◌, ◌/◌, ◌%◌, Option, none, some, List, [], ◌∷◌, ◌++◌, ltb, ◌==◌, if◌then◌else◌,
  length, replicate,
}
use simplepool.Prelude.Text.{codes}

abbrev pub b58_alpha : List ℕ
b58_alpha = codes "123456789ABCDEFGHJKLMNPQRSTUVWXYZabcdefghijkmnopqrstuvwxyz"

-- `strchr(alpha, c) - alpha`, counted from `i`; `none` where strchr finds nothing.
unfoldable pub index_of : List ℕ → ℕ → ℕ → Option ℕ
index_of [] c i = none
index_of (a ∷ alpha) c i = let later = index_of alpha c (i + 1) in if a == c then some i else later

-- `for (j = bsize - 1; j >= 0; j--) { carry += 58 * b[j]; b[j] = carry & 0xff; carry >>= 8; }`:
-- the buffer and the carry that is left.
unfoldable pub mul_add_58 : List ℕ → ℕ → List ℕ × ℕ
mul_add_58 [] carry = ([], carry)
mul_add_58 (b ∷ bs) carry =
    let (bs', c) = mul_add_58 bs carry in let t = c + 58 * b in (t % 256 ∷ bs', t / 256)

-- The loop over the characters; `none` for a foreign character or a carry out of the buffer.
unfoldable pub b58_chars : List ℕ → List ℕ → Option (List ℕ)
b58_chars [] b = some b
b58_chars (c ∷ cs) b = elim (index_of b58_alpha c 0) [
  | none ↦ none
  | some digit ↦
      let next = b58_chars cs (mul_add_58 b digit).0 in
      if (mul_add_58 b digit).1 == 0 then next else none
]

unfoldable pub leading : ℕ → List ℕ → ℕ
leading c [] = 0
leading c (d ∷ ds) = let more = suc (leading c ds) in if d == c then more else 0

unfoldable pub skip_zeros : List ℕ → List ℕ
skip_zeros [] = []
skip_zeros (b ∷ bs) = let rest = skip_zeros bs in if b == 0 then rest else b ∷ bs

-- The bytes, of which there are `*out_len`.
unfoldable pub b58_decode : List ℕ → ℕ → Option (List ℕ)
b58_decode s cap = elim (b58_chars s (replicate (length s * 733 / 1000 + 1) 0)) [
  | none ↦ none
  | some b ↦
      let out = replicate (leading b'1' s) 0 ++ skip_zeros b in
      if ltb cap (length out) then none else some out
]
