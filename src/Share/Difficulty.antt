-- ===== src/Share/Difficulty.antt =====
-- `target_to_diff` and `worker_diff_to_target` of src/share.c, which turn a target into a
-- difficulty and back, over the interface of `double`.
use simplepool.Prelude.{
  ℕ, zero, suc, ◌+◌, ◌*◌, ◌/◌, ◌%◌, ◌^◌, not, ◌||◌, List, [], ◌∷◌, ◌++◌, ◌==◌, if◌then◌else◌, take,
  replicate,
}
use simplepool.Prelude.Int.{pos, pos_part}
use simplepool.Double.{DoubleOps}

-- `be16_to_u128`, for as many bytes as there are.
unfoldable pub be_value_from : ℕ → List ℕ → ℕ
be_value_from v [] = v
be_value_from v (b ∷ bs) = be_value_from (v * 256 + b) bs

unfoldable pub be16_to_u128 : List ℕ → ℕ
unfolding be_value_from
be16_to_u128 bytes = be_value_from 0 (take 16 bytes)

-- The loop of `u128_to_be16` over `n` bytes, the last one first.
unfoldable pub be_bytes_onto : ℕ → ℕ → List ℕ → List ℕ
be_bytes_onto zero v bytes = bytes
be_bytes_onto (suc n) v bytes = be_bytes_onto n (v / 2 ^ 8) ((v % 256) ∷ bytes)

unfoldable pub u128_to_be16 : ℕ → List ℕ
unfolding be_bytes_onto
u128_to_be16 v = be_bytes_onto 16 v []

-- DIFF1_TARGET
abbrev pub diff1_target : List ℕ
diff1_target = 0 ∷ 0 ∷ 0 ∷ 0 ∷ 0xff ∷ 0xff ∷ replicate 26 0

module _ (fl : DoubleOps) where
  open fl use {Double, of_ℤ, to_ℤ, div, lt, le, infinity, is_finite}

  unfoldable pub target_to_diff : List ℕ → Double
  target_to_diff target =
      let hi = be16_to_u128 target in
      if hi == 0 then infinity else div (of_ℤ (pos (be16_to_u128 diff1_target))) (of_ℤ (pos hi))

  -- The upper half of the target, once it has been scaled.
  unfoldable pub scaled_target : Double → List ℕ
  scaled_target scaled =
      let positive = if lt scaled (of_ℤ (pos 0)) then of_ℤ (pos 0) else scaled in
      if not (lt positive (of_ℤ (pos (2 ^ 128))))
      then replicate 32 0xff
      else u128_to_be16 (pos_part (to_ℤ positive)) ++ replicate 16 0

  unfoldable pub worker_diff_to_target : Double → List ℕ
  worker_diff_to_target diff =
      if not (is_finite diff) || le diff (of_ℤ (pos 0))
      then replicate 32 0xff
      else scaled_target (div (of_ℤ (pos (be16_to_u128 diff1_target))) diff)
