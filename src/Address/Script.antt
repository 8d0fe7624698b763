-- ===== src/Address/Script.antt =====
-- `coinbase_address_to_script`, `coinbase_address_network` and `coinbase_network_is_mainnet`.
-- `sha256` stands for src/sha256.c: the definitions and theorems hold for every function.
use simplepool.Prelude.{
  ℕ, ◌+◌, ◌-◌, Bool, false, ◌&&◌, ◌||◌, not, Option, none, some, List, [], ◌∷◌, ◌++◌, ltb, ◌==◌,
  if◌then◌else◌, length, take, drop, get_or,
}
use simplepool.Prelude.Text.{codes, starts_with, same_text}
use simplepool.Address.Base58.{b58_decode}
use simplepool.Address.Bech32.{bech32_decode, convertbits}

-- An HRP that the builder knows.
unfoldable pub is_segwit_prefix : List ℕ → Bool
is_segwit_prefix addr =
    starts_with (codes "bc1") addr
    || starts_with (codes "tb1") addr
    || starts_with (codes "bcrt1") addr
    || starts_with (codes "BC1") addr
    || starts_with (codes "TB1") addr
    || starts_with (codes "BCRT1") addr

-- The script of a witness program, once the 5-bit groups are converted.
unfoldable pub witness_script : ℕ → List ℕ → ℕ → Option (List ℕ)
witness_script witver prog cap =
    if witver == 0
    then if not (length prog == 20) && not (length prog == 32)
      then none
      else if ltb cap (length prog + 2)
      then none
      else some (0x00 ∷ length prog ∷ prog)
    else if not (witver == 1)
    then none
    else if not (length prog == 32)
    then none
    else if ltb cap 34
    then none
    else some (0x51 ∷ 0x20 ∷ prog)

-- The groups that `bech32_decode` gave: version, encoding and program.
unfoldable pub segwit_script : List ℕ → ℕ → ℕ → Option (List ℕ)
segwit_script [] enc cap = none
segwit_script (witver ∷ groups) enc cap =
    if ltb 16 witver
    then none
    else if (witver == 0 && not (enc == 1)) || (not (witver == 0) && not (enc == 2))
    then none
    else elim (convertbits groups 5 8 false 64) [
      | none ↦ none
      | some prog ↦ witness_script witver prog cap
    ]

-- The script of a decoded base58 payload whose checksum holds.
unfoldable pub base58_script : List ℕ → ℕ → Option (List ℕ)
base58_script dec cap =
    let ver = get_or dec 0 0 in
    let payload = take 20 (drop 1 dec) in
    if not (length dec == 25)
    then none
    else if ver == 0x00 || ver == 0x6f
    then if ltb cap 25 then none else some (0x76 ∷ 0xa9 ∷ 0x14 ∷ (payload ++ (0x88 ∷ 0xac ∷ [])))
    else if ver == 0x05 || ver == 0xc4
    then if ltb cap 23 then none else some (0xa9 ∷ 0x14 ∷ (payload ++ (0x87 ∷ [])))
    else none

module _ (sha256 : List ℕ → List ℕ) where
  -- Whether the last four bytes are the checksum of the others.
  unfoldable pub checksum_holds : List ℕ → Bool
  checksum_holds dec =
      let body = take (length dec - 4) dec in
      same_text (take 4 (sha256 (sha256 body))) (drop (length dec - 4) dec)

  -- `cap` is the size of the script buffer, 64 at every call.
  unfoldable pub coinbase_address_to_script : List ℕ → ℕ → Option (List ℕ)
  coinbase_address_to_script addr cap =
      if is_segwit_prefix addr
      then elim (bech32_decode addr 16) [
        | none ↦ none
        | some (groups, enc) ↦ segwit_script groups enc cap
      ]
      else elim (b58_decode addr 64) [
        | none ↦ none
        | some dec ↦
            if ltb (length dec) 5
            then none
            else if not (checksum_holds dec)
            then none
            else base58_script dec cap
      ]

  unfoldable pub base58_network : List ℕ → Option (List ℕ)
  base58_network dec =
      let ver = get_or dec 0 0 in
      if not (length dec == 25)
      then none
      else if not (checksum_holds dec)
      then none
      else if ver == 0x00 || ver == 0x05
      then some (codes "main")
      else if ver == 0x6f || ver == 0xc4
      then some (codes "test/signet/regtest")
      else none

  -- `none` is the NULL of an address that parses as neither.
  unfoldable pub coinbase_address_network : List ℕ → Option (List ℕ)
  coinbase_address_network [] = none
  coinbase_address_network (c ∷ cs) =
      let addr = c ∷ cs in
      if starts_with (codes "bcrt1") addr || starts_with (codes "BCRT1") addr
      then some (codes "regtest")
      else if starts_with (codes "bc1") addr || starts_with (codes "BC1") addr
      then some (codes "main")
      else if starts_with (codes "tb1") addr || starts_with (codes "TB1") addr
      then some (codes "test/signet")
      else elim (b58_decode addr 64) [ none ↦ none | some dec ↦ base58_network dec ]

unfoldable pub coinbase_network_is_mainnet : Option (List ℕ) → Bool
coinbase_network_is_mainnet none = false
coinbase_network_is_mainnet (some network) = same_text network (codes "main")
