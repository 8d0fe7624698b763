-- ===== src/ScriptSig.antt =====
-- The pushes that open the scriptSig of a coinbase of src/coinbase.c: the BIP34 height, the tag and
-- the salt.
use simplepool.Prelude.{
  ℕ, zero, suc, ◌+◌, ◌-◌, ◌/◌, ◌%◌, ◌^◌, min, Option, none, some, List, [], ◌∷◌, ◌++◌, ltb, leb,
  ◌==◌, if◌then◌else◌, length, get_or, take,
}
use simplepool.Bytes.{u32_le}

-- `while (v > 0) { bytes[n++] = v & 0xff; v >>= 8; }`; a `uint32_t` is zero after four rounds.
unfoldable pub height_bytes : ℕ → ℕ → List ℕ
height_bytes zero v = []
height_bytes (suc fuel) v =
    let rest = height_bytes fuel (v / 2 ^ 8) in if v == 0 then [] else (v % 256) ∷ rest

-- A zero byte, where the last one has the sign bit.
unfoldable pub sign_byte : List ℕ → List ℕ
sign_byte bytes =
    if get_or bytes (length bytes - 1) 0 / 0x80 % 2 == 1 then bytes ++ (0x00 ∷ []) else bytes

unfoldable pub bip34_height_push : ℕ → List ℕ
bip34_height_push height =
    let bytes = sign_byte (height_bytes 4 height) in
    if height == 0
    then 0x00 ∷ []
    else if leb height 16
    then (0x50 + height) % 256 ∷ []
    else length bytes ∷ bytes

-- The tag as one push, cut to 75 bytes.
unfoldable pub tag_bytes : Option (List ℕ) → List ℕ
tag_bytes none = []
tag_bytes (some []) = []
tag_bytes (some (c ∷ cs)) = let tlen = min (length (c ∷ cs)) 75 in tlen ∷ take tlen (c ∷ cs)

unfoldable pub salt_bytes : ℕ → List ℕ
salt_bytes job_salt = if job_salt == 0 then [] else 4 ∷ u32_le job_salt

unfoldable pub cb_tag_push : Option (List ℕ) → ℕ → List ℕ
cb_tag_push coinbase_tag job_salt = tag_bytes coinbase_tag ++ salt_bytes job_salt

-- COINBASE_JOB_SALT_PUSH_BYTES
abbrev pub job_salt_push_bytes : ℕ
job_salt_push_bytes = 5

unfoldable pub tag_len : Option (List ℕ) → ℕ
tag_len none = 0
tag_len (some []) = 0
tag_len (some (c ∷ cs)) = let t = length (c ∷ cs) in (if ltb 75 t then 75 else t) + 1

unfoldable pub cb_tag_push_len : Option (List ℕ) → ℕ → ℕ
cb_tag_push_len coinbase_tag job_salt =
    tag_len coinbase_tag + (if job_salt == 0 then 0 else job_salt_push_bytes)
