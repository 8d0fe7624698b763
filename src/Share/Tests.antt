-- ===== src/Share/Tests.antt =====
-- Runs of the share arithmetic, and its theorems at concrete inputs.
use simplepool.Prelude.{
  ℕ, ◌+◌, ◌-◌, ◌*◌, ◌^◌, ◌≡◌, refl, true, none, some, List, [], ◌∷◌, ◌++◌, arith, length, leb,
  if◌then◌else◌, replicate,
}
use simplepool.Share.{
  nbits_to_target, store_mantissa, store_three, store_at, be32_cmp, merkle_root_from_branches,
  compute_merkle_branches_for_idx0,
}
use simplepool.Bytes.{rd_u32}
use simplepool.Share.{build_header}
use simplepool.Share.Header.{build_header-fields}
use simplepool.Share.Merkle.{merkle_root, compute_merkle_branches-root}
use simplepool.Share.Compare.{be_value, compare_numbers, be32_cmp_lem}
use simplepool.Share.Target.{exponent, mantissa, nbits_to_target-value, nbits_to_target-outside}

-- The easiest target of mainnet.
diff_one : nbits_to_target 0x1d00ffff ≡ some (replicate 4 0 ++ (0xff ∷ 0xff ∷ replicate 26 0))
unfolding nbits_to_target store_mantissa store_three store_at
diff_one = refl

abbrev same_hash : List ℕ → List ℕ
same_hash bytes = bytes

abbrev three_txids : List (List ℕ)
three_txids = (1 ∷ []) ∷ (2 ∷ []) ∷ (3 ∷ []) ∷ []

compute_merkle_branches-root_example :
    (bs : List (List ℕ)) × (compute_merkle_branches_for_idx0 same_hash true three_txids ≡ some bs)
    × (merkle_root same_hash (length three_txids + 1) ((9 ∷ []) ∷ three_txids)
        ≡ some (merkle_root_from_branches same_hash (9 ∷ []) bs))
compute_merkle_branches-root_example = compute_merkle_branches-root same_hash three_txids (9 ∷ [])

nbits_to_target-value_example :
    (t : List ℕ) × (nbits_to_target 0x1d00ffff ≡ some t)
    × (be_value t ≡ mantissa 0x1d00ffff * 256 ^ (exponent 0x1d00ffff - 3))
nbits_to_target-value_example =
    nbits_to_target-value 0x1d00ffff (omega arith) (omega arith) (omega arith) (omega arith)

nbits_to_target-outside_example :
    nbits_to_target 0x2100ffff
    ≡ (if leb (exponent 0x2100ffff) 35 then none else some (replicate 32 0))
nbits_to_target-outside_example =
    nbits_to_target-outside 0x2100ffff (omega arith) (omega arith) (omega arith)

be32_cmp_lem_example :
    be32_cmp (1 ∷ 2 ∷ []) (1 ∷ 3 ∷ [])
    ≡ compare_numbers (be_value (1 ∷ 2 ∷ [])) (be_value (1 ∷ 3 ∷ []))
be32_cmp_lem_example =
    be32_cmp_lem (1 ∷ 2 ∷ []) (1 ∷ 3 ∷ []) (omega arith) (omega arith, (omega arith, tt))
      (omega arith, (omega arith, tt))

abbrev zeros : List ℕ
zeros = replicate 32 0

build_header-fields_example :
    (length (build_header 0x20000000 zeros zeros 1700000000 0x1d00ffff 7) ≡ 80)
    × (rd_u32 (build_header 0x20000000 zeros zeros 1700000000 0x1d00ffff 7) 0
        ≡ some (0x20000000, 4))
    × (rd_u32 (build_header 0x20000000 zeros zeros 1700000000 0x1d00ffff 7) 68
        ≡ some (1700000000, 72))
    × (rd_u32 (build_header 0x20000000 zeros zeros 1700000000 0x1d00ffff 7) 72
        ≡ some (0x1d00ffff, 76))
    × (rd_u32 (build_header 0x20000000 zeros zeros 1700000000 0x1d00ffff 7) 76 ≡ some (7, 80))
build_header-fields_example =
    build_header-fields 0x20000000 zeros zeros 1700000000 0x1d00ffff 7 refl refl (omega arith)
      (omega arith) (omega arith) (omega arith)
