-- ===== src/Coinbase/Solo.antt =====
-- The one-miner coinbase of src/coinbase.c, whole.
use simplepool.Prelude.{
  ℕ, ◌+◌, ◌≤◌, ◌≡◌, subst, ◌⊎◌, inl, inr, Bool, true, false, ◌||◌, not, Option, some, List, [], ◌∷◌,
  ◌++◌, arith, length, Option-cases, Bool-cases,
}
use simplepool.Prelude.Int.{ℤ, pos, ◌+ℤ◌, ◌-ℤ◌, ◌≤ℤ◌, ltb_ℤ, int_laws, ltb_ℤ→ge}
use simplepool.Window.{ReplOut, sum_sats, is_blank, fee_share, dust_sats, script_of}
use simplepool.Coinbase.{
  Job, Parts, solo_fee, solo_outs, commitment, with_script_sig, coinbase_build_split,
}
use simplepool.ScriptSig.{bip34_height_push, cb_tag_push}
use simplepool.Coinbase.Serialize.{coinbase_tx, with_script_sig-tx}

-- An operator's output is the fee, where there is an operator, a rate, a value and a fee above the
-- dust limit, and absent where one of them is missing.
pub data IsFee (sha256 : List ℕ → List ℕ) (value : ℤ) (operator : Option (List ℕ)) (fee_bps : ℤ)
    : List ReplOut → Type 0 where
  no_fee :
      (is_blank operator ≡ true)
        ⊎ ((fee_bps ≤ℤ pos 0)
            ⊎ ((value ≤ℤ pos 0) ⊎ (ltb_ℤ (fee_share value fee_bps) (pos dust_sats) ≡ true)))
      → IsFee sha256 value operator fee_bps []
  some_fee :
      (spk : List ℕ)
      → script_of sha256 operator ≡ some spk
      → pos dust_sats ≤ℤ fee_share value fee_bps
      → IsFee sha256 value operator fee_bps
          (record { spk = spk; sats = fee_share value fee_bps } ∷ [])

module _ (sha256 : List ℕ → List ℕ) where
  -- Why there is no output, from the test of the code.
  skip_reason :
      (value fee_bps : ℤ) (operator : Option (List ℕ))
      → (is_blank operator
          || not (ltb_ℤ (pos 0) fee_bps)
          || not (ltb_ℤ (pos 0) value)
          || ltb_ℤ (fee_share value fee_bps) (pos dust_sats))
        ≡ true
      → (is_blank operator ≡ true)
        ⊎ ((fee_bps ≤ℤ pos 0)
            ⊎ ((value ≤ℤ pos 0) ⊎ (ltb_ℤ (fee_share value fee_bps) (pos dust_sats) ≡ true)))
  skip_reason value fee_bps operator s = elim (Bool-cases (is_blank operator)) [
    | inl blank ↦ inl blank
    | inr named ↦ elim (Bool-cases (ltb_ℤ (pos 0) fee_bps)) [
      | inr free ↦ inr (inl (ltb_ℤ→ge (pos 0) fee_bps free))
      | inl rate ↦ elim (Bool-cases (ltb_ℤ (pos 0) value)) [
        | inr none_left ↦ inr (inr (inl (ltb_ℤ→ge (pos 0) value none_left)))
        | inl worth ↦ inr (inr (inr (ground arith)))
      ]
    ]
  ]

  solo_fee-IsFee :
      (value : ℤ) (operator : Option (List ℕ)) (fee_bps : ℤ) (op : List ReplOut)
      → solo_fee sha256 value operator fee_bps ≡ some op
      → IsFee sha256 value operator fee_bps op
  unfolding solo_fee
  solo_fee-IsFee value operator fee_bps op e =
      let fee = fee_share value fee_bps in
      let skipped : Bool =
        is_blank operator
        || not (ltb_ℤ (pos 0) fee_bps)
        || not (ltb_ℤ (pos 0) value)
        || ltb_ℤ fee (pos dust_sats) in
      elim (Bool-cases skipped) [
        | inl s ↦
            subst (IsFee sha256 value operator fee_bps) (ground arith)
              (no_fee (skip_reason value fee_bps operator s))
        | inr s ↦ elim (Option-cases (script_of sha256 operator)) [
          | inl f ↦ absurd (ground arith)
          | inr (spk, f) ↦
              let worth : ltb_ℤ fee (pos dust_sats) ≡ false = ground arith in
              subst (IsFee sha256 value operator fee_bps) (ground arith)
                (some_fee spk f (ltb_ℤ→ge fee (pos dust_sats) worth))
        ]
      ]

-- What a builder's parts are, around any extranonces of the announced size.
pub record IsSolo (sha256 : List ℕ → List ℕ) (j : Job) (value : ℤ)
    (miner operator : Option (List ℕ)) (fee_bps : ℤ) (parts : Parts) (en : List ℕ) : Type 0 where
  pub spk : List ℕ
  pub op : List ReplOut
  pub wc : List ReplOut
  pub miner_amount : ℤ
  pub pays_miner : script_of sha256 miner ≡ some spk
  pub pays_operator : IsFee sha256 value operator fee_bps op
  pub commits : commitment j.witness_commitment_hex ≡ some wc
  pub spends : miner_amount +ℤ sum_sats op ≡ value
  pub whole :
      parts.cb1 ++ (en ++ parts.cb2)
      ≡ coinbase_tx 1
          (bip34_height_push j.height ++ (cb_tag_push j.coinbase_tag j.job_salt ++ en))
          ((record { spk = spk; sats = miner_amount } ∷ op) ++ wc)
  pub script_sig :
      length (bip34_height_push j.height ++ (cb_tag_push j.coinbase_tag j.job_salt ++ en)) ≤ 100

-- The one-miner coinbase, with any extranonces of the announced size between its parts, is one
-- whole transaction: a scriptSig of at most 100 bytes that begins with the height and the tag, the
-- miner's output, the operator's, which is left out only where there is no operator, no rate, no
-- value or a fee below the dust limit, and the commitment as it was decoded. The miner and the
-- operator together get exactly the value of the block.
pub coinbase_build_split-IsSolo :
    (realloc : ℕ → Bool) (sha256 : List ℕ → List ℕ) (j : Job) (value : ℤ)
    (miner operator : Option (List ℕ)) (fee_bps : ℤ) (parts : Parts) (en : List ℕ)
    → coinbase_build_split realloc sha256 j value miner operator fee_bps ≡ some parts
    → length en ≡ j.extranonce1_size + j.extranonce2_size
    → IsSolo sha256 j value miner operator fee_bps parts en
unfolding coinbase_build_split solo_outs
coinbase_build_split-IsSolo realloc sha256 j value miner operator fee_bps parts en e len =
    elim (Option-cases (script_of sha256 miner)) [
      | inl f ↦ absurd (ground arith)
      | inr (spk, f) ↦ elim (Option-cases (solo_fee sha256 value operator fee_bps)) [
        | inl g ↦ absurd (ground arith)
        | inr (op, g) ↦ elim (Option-cases (commitment j.witness_commitment_hex)) [
          | inl h ↦ absurd (ground arith)
          | inr (wc, h) ↦
              let mine : ReplOut = record { spk = spk; sats = value -ℤ sum_sats op } in
              let built : with_script_sig realloc 1 j.height j.coinbase_tag j.job_salt
                    (j.extranonce1_size + j.extranonce2_size) ((mine ∷ op) ++ wc)
                  ≡ some parts =
                ground arith in
              let (whole, low, high) = with_script_sig-tx realloc _ _ _ _ _ _ parts en built len in
              record {
                spk = spk;
                op = op;
                wc = wc;
                miner_amount = value -ℤ sum_sats op;
                pays_miner = f;
                pays_operator = solo_fee-IsFee sha256 value operator fee_bps op g;
                commits = h;
                spends = back value (sum_sats op);
                whole = whole;
                script_sig = high;
              }
        ]
      ]
    ]
  where
    back : (a b : ℤ) → (a -ℤ b) +ℤ b ≡ a
    back a b = omega int_laws
