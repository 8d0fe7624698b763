-- ===== src/Pplns/Fee.antt =====
-- The operator's fee in `pplns_split_window` of src/pplns.c, against a description of its own.
use simplepool.Prelude.{◌≡◌, refl, ◌⊎◌, inl, inr, Bool, true, false, Bool-cases}
use simplepool.Prelude.Int.{ℤ, pos, ◌≤ℤ◌, ltb_ℤ, ltb_ℤ→ge}
use simplepool.Window.{fee_share, dust_sats}
use simplepool.Pplns.{split_fee}

-- The operator's part of the reward, which is waived where there is no operator or no rate, or where
-- it would be below the dust limit.
pub data SplitFee (reward fee_bps : ℤ) (have_operator : Bool) : ℤ → Type 0 where
  charged :
      have_operator ≡ true
      → ltb_ℤ (pos 0) fee_bps ≡ true
      → pos dust_sats ≤ℤ fee_share reward fee_bps
      → SplitFee reward fee_bps have_operator (fee_share reward fee_bps)
  waived :
      (have_operator ≡ false)
        ⊎ ((fee_bps ≤ℤ pos 0) ⊎ (ltb_ℤ (fee_share reward fee_bps) (pos dust_sats) ≡ true))
      → SplitFee reward fee_bps have_operator (pos 0)

pub split_fee-SplitFee :
    (reward fee_bps : ℤ) (have_operator : Bool)
    → SplitFee reward fee_bps have_operator (split_fee reward fee_bps have_operator)
unfolding split_fee
split_fee-SplitFee reward fee_bps false = SplitFee.waived (inl refl)
split_fee-SplitFee reward fee_bps true = elim (Bool-cases (ltb_ℤ (pos 0) fee_bps)) [
  | inr free ↦ rw free (SplitFee.waived (inr (inl (ltb_ℤ→ge (pos 0) fee_bps free))))
  | inl rate ↦ elim (Bool-cases (ltb_ℤ (fee_share reward fee_bps) (pos dust_sats))) [
    | inl dust ↦ rw (rate, dust) (SplitFee.waived (inr (inr dust)))
    | inr worth ↦
        rw (rate, worth)
          (SplitFee.charged refl rate (ltb_ℤ→ge (fee_share reward fee_bps) (pos dust_sats) worth))
  ]
]
