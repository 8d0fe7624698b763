-- ===== src/Address/Shapes.antt =====
-- Which scripts `coinbase_address_to_script` can produce, and which addresses have a network.
use simplepool.Prelude.{
  ℕ, ◌≤◌, ◌≡◌, refl, inl, inr, true, false, ◌||◌, none, some, List, [], ◌∷◌, ◌++◌, arith, ◌==◌,
  length, take, drop, get_or, length-append, length-take, length-drop, Bool-cases, Option-cases,
}
use simplepool.Prelude.Text.{codes, starts_with}
use simplepool.Address.Base58.{b58_decode, b58_chars, leading, skip_zeros}
use simplepool.Address.Bech32.{bech32_decode, convertbits}
use simplepool.Address.Script.{
  is_segwit_prefix, witness_script, segwit_script, base58_script, checksum_holds,
  coinbase_address_to_script, base58_network, coinbase_address_network,
}

-- The five output scripts whose coins only a key or script holder can spend.
pub data IsStandard (spk : List ℕ) : Type 0 where
  p2wpkh : (h : List ℕ) → length h ≡ 20 → spk ≡ 0x00 ∷ 20 ∷ h → IsStandard spk
  p2wsh : (h : List ℕ) → length h ≡ 32 → spk ≡ 0x00 ∷ 32 ∷ h → IsStandard spk
  p2tr : (h : List ℕ) → length h ≡ 32 → spk ≡ 0x51 ∷ 32 ∷ h → IsStandard spk
  p2pkh :
      (h : List ℕ)
      → length h ≡ 20
      → spk ≡ 0x76 ∷ 0xa9 ∷ 20 ∷ (h ++ (0x88 ∷ 0xac ∷ []))
      → IsStandard spk
  p2sh : (h : List ℕ) → length h ≡ 20 → spk ≡ 0xa9 ∷ 20 ∷ (h ++ (0x87 ∷ [])) → IsStandard spk

witness_script-IsStandard :
    (witver : ℕ) (prog : List ℕ) (cap : ℕ) (spk : List ℕ)
    → witness_script witver prog cap ≡ some spk
    → IsStandard spk × (length spk ≤ cap)
unfolding witness_script
witness_script-IsStandard witver prog cap spk e = elim (Bool-cases (witver == 0)) [
  | inl v0 ↦ elim (Bool-cases (length prog == 20)) [
    | inl short ↦ (p2wpkh prog (ground arith) (ground arith), ground arith)
    | inr long ↦ (p2wsh prog (ground arith) (ground arith), ground arith)
  ]
  | inr v1 ↦ (p2tr prog (ground arith) (ground arith), ground arith)
]

segwit_script-IsStandard :
    (groups : List ℕ) (enc cap : ℕ) (spk : List ℕ)
    → segwit_script groups enc cap ≡ some spk
    → IsStandard spk × (length spk ≤ cap)
unfolding segwit_script
segwit_script-IsStandard [] enc cap spk e = cc
segwit_script-IsStandard (witver ∷ groups) enc cap spk e =
    elim (Option-cases (convertbits groups 5 8 false 64)) [
      | inl f ↦ absurd (ground arith)
      | inr (prog, f) ↦ witness_script-IsStandard witver prog cap spk (ground arith)
    ]

base58_script-IsStandard :
    (dec : List ℕ) (cap : ℕ) (spk : List ℕ)
    → base58_script dec cap ≡ some spk
    → IsStandard spk × (length spk ≤ cap)
unfolding base58_script
base58_script-IsStandard dec cap spk e =
    let payload : List ℕ = take 20 (drop 1 dec) in
    let whole : length dec ≡ 25 = ground arith in
    let twenty : length payload ≡ 20 =
      omega (arith, length-take 20 (drop 1 dec), length-drop 1 dec) in
    let l1 = length-append payload (0x88 ∷ 0xac ∷ []) in
    let l2 = length-append payload (0x87 ∷ []) in
    elim (Bool-cases (get_or dec 0 0 == 0x00 || get_or dec 0 0 == 0x6f)) [
      | inl pk ↦ (p2pkh payload twenty (ground arith), ground arith)
      | inr sh ↦ (p2sh payload twenty (ground arith), ground arith)
    ]

-- The network that an address names.
pub data Names (addr : List ℕ) : List ℕ → Type 0 where
  regtest_prefix :
      (starts_with (codes "bcrt1") addr || starts_with (codes "BCRT1") addr) ≡ true
      → Names addr (codes "regtest")
  main_prefix :
      (starts_with (codes "bc1") addr || starts_with (codes "BC1") addr) ≡ true
      → Names addr (codes "main")
  test_prefix :
      (starts_with (codes "tb1") addr || starts_with (codes "TB1") addr) ≡ true
      → Names addr (codes "test/signet")
  main_version :
      (dec : List ℕ)
      → b58_decode addr 64 ≡ some dec
      → (get_or dec 0 0 == 0x00 || get_or dec 0 0 == 0x05) ≡ true
      → Names addr (codes "main")
  test_version :
      (dec : List ℕ)
      → b58_decode addr 64 ≡ some dec
      → (get_or dec 0 0 == 0x6f || get_or dec 0 0 == 0xc4) ≡ true
      → Names addr (codes "test/signet/regtest")

module _ (sha256 : List ℕ → List ℕ) where
  -- Whatever address is given, a script that comes out is one of the five standard scripts, with a
  -- program of the right length, and fits the buffer: never one of the witness versions 2 to 16.
  pub address_to_script-IsStandard :
      (addr : List ℕ) (room : ℕ) (spk : List ℕ)
      → coinbase_address_to_script sha256 addr room ≡ some spk
      → IsStandard spk × (length spk ≤ room)
  unfolding coinbase_address_to_script
  address_to_script-IsStandard addr room spk e = elim (Bool-cases (is_segwit_prefix addr)) [
    | inl segwit ↦ elim (Option-cases (bech32_decode addr 16)) [
      | inl f ↦ absurd (ground arith)
      | inr ((groups, enc), f) ↦ segwit_script-IsStandard groups enc room spk (ground arith)
    ]
    | inr base58 ↦ elim (Option-cases (b58_decode addr 64)) [
      | inl f ↦ absurd (ground arith)
      | inr (dec, f) ↦ base58_script-IsStandard dec room spk (ground arith)
    ]
  ]

  empty_unpayable : (room : ℕ) → coinbase_address_to_script sha256 [] room ≡ none
  unfolding coinbase_address_to_script is_segwit_prefix starts_with b58_decode b58_chars leading
      skip_zeros
  empty_unpayable room = refl

  -- The network that the version byte of a decoded payload names.
  base58_network_of_script :
      (addr dec : List ℕ) (room : ℕ) (spk : List ℕ)
      → b58_decode addr 64 ≡ some dec
      → checksum_holds sha256 dec ≡ true
      → base58_script dec room ≡ some spk
      → (net : List ℕ) × (base58_network sha256 dec ≡ some net) × Names addr net
  unfolding base58_script base58_network
  base58_network_of_script addr dec room spk f good e =
      let whole : (length dec == 25) ≡ true = ground arith in
      let ver : ℕ = get_or dec 0 0 in
      elim (Bool-cases (ver == 0x00 || ver == 0x05)) [
        | inl main ↦ (codes "main", rw (whole, good, main) refl, main_version dec f main)
        | inr other ↦
            let test : (ver == 0x6f || ver == 0xc4) ≡ true = ground arith in
            (
              codes "test/signet/regtest",
              rw (whole, good, other, test) refl,
              test_version dec f test,
            )
      ]

  -- An address that the builder can pay has a network, and it is the one that the prefix of the
  -- address names, or the version byte of its base58 payload where it has no such prefix.
  pub network_of_script :
      (addr : List ℕ) (room : ℕ) (spk : List ℕ)
      → coinbase_address_to_script sha256 addr room ≡ some spk
      → (net : List ℕ) × (coinbase_address_network sha256 addr ≡ some net) × Names addr net
  unfolding coinbase_address_to_script coinbase_address_network is_segwit_prefix
  network_of_script [] room spk e = absurd (ground (arith, empty_unpayable room))
  network_of_script (c ∷ cs) room spk e =
      let addr : List ℕ = c ∷ cs in
      elim (Bool-cases (starts_with (codes "bcrt1") addr || starts_with (codes "BCRT1") addr)) [
        | inl r ↦ (codes "regtest", rw r refl, regtest_prefix r)
        | inr no_r ↦
            elim (Bool-cases (starts_with (codes "bc1") addr || starts_with (codes "BC1") addr)) [
              | inl m ↦ (codes "main", rw (no_r, m) refl, main_prefix m)
              | inr no_m ↦
                  elim (Bool-cases
                    (starts_with (codes "tb1") addr || starts_with (codes "TB1") addr)) [
                      | inl t ↦ (codes "test/signet", rw (no_r, no_m, t) refl, test_prefix t)
                      | inr no_t ↦ elim (Option-cases (b58_decode addr 64)) [
                        | inl f ↦ absurd (ground arith)
                        | inr (dec, f) ↦
                            let good : checksum_holds sha256 dec ≡ true = ground arith in
                            let made : base58_script dec room ≡ some spk = ground arith in
                            let (net, named, names) =
                              base58_network_of_script addr dec room spk f good made in
                            (net, rw (no_r, no_m, no_t, f) named, names)
                      ]
                    ]
            ]
      ]
