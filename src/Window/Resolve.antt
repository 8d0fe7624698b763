-- ===== src/Window/Resolve.antt =====
-- The whole of `resolve_window_outputs`, in the order of the source.
use simplepool.Prelude.{
  ℕ, ◌-◌, ◌||◌, not, Option, none, some, List, [], ◌∷◌, ◌++◌, ltb, leb, ◌==◌, if◌then◌else◌, length,
}
use simplepool.Prelude.Int.{ℤ, pos, ◌-ℤ◌, ltb_ℤ}
use simplepool.Double.{DoubleOps}
use simplepool.Window.{
  Payee, ReplOut, WindowResult, Filling, no_result, dust_sats, default_max_bytes, is_blank,
  fee_share, clamp_floor, claimed, script_of, fill, redistribute,
}

-- The arguments, in the order of the C parameters.
pub record Request : Type 0 where
  pub value_sats : ℤ
  pub payees : List Payee
  pub operator_address : Option (List ℕ)
  pub fee_bps : ℤ
  pub max_coinbase_bytes : ℕ
  pub fixed_bytes : ℕ
  pub payout_floor_sats : ℤ

-- What the payouts may take: all of the coinbase that nothing else takes.
unfoldable pub payout_budget : Request → ℕ
payout_budget q =
    let limit = (if q.max_coinbase_bytes == 0 then default_max_bytes else q.max_coinbase_bytes) in
    if ltb q.fixed_bytes limit then limit - q.fixed_bytes else 0

module _ (sha256 : List ℕ → List ℕ) where
  -- The operator's script and fee: no output where there is no operator, no fee, or only dust, and
  -- `none` where the address does not resolve.
  unfoldable pub operator_fee : Request → Option (Option ReplOut)
  unfolding script_of
  operator_fee q =
      let fee = fee_share q.value_sats q.fee_bps in
      if is_blank q.operator_address || not (ltb_ℤ (pos 0) q.fee_bps) || ltb_ℤ fee (pos dust_sats)
      then some none
      else elim (script_of sha256 q.operator_address) [
        | none ↦ none
        | some spk ↦ some (some (record { spk = spk; sats = fee }))
      ]

abbrev pub fee_of : Option ReplOut → ℤ
fee_of none = pos 0
fee_of (some op) = op.sats

-- The operator's output goes last; `none` where `out` has no room for it. The source's branch for a
-- fee without an operator cannot be taken: there is a fee only where the operator's script is.
unfoldable pub append_operator : ℕ → Option ReplOut → List ReplOut → Option (List ReplOut)
append_operator slots none outs = some outs
append_operator slots (some op) outs =
    if not (ltb_ℤ (pos 0) op.sats)
    then some outs
    else if leb slots (length outs)
    then none
    else some (outs ++ (op ∷ []))

abbrev pub empty_filling : Filling
empty_filling = record { outs = []; payout_bytes = 0; dropped = pos 0; res = no_result }

module _ (fl : DoubleOps) where
  -- The outputs after the redistribution, with its part of the result.
  unfoldable pub settle : ℤ → Filling → Option (List ReplOut × WindowResult)
  settle payable st =
      if ltb_ℤ (pos 0) st.dropped
      then elim (redistribute fl payable st.res.paid_sats st.outs) [
        | none ↦ none
        | some outs ↦
            some (outs, record st.res { redistributed_sats = st.dropped; paid_sats = payable })
      ]
      else some (st.outs, st.res)

module _ (fl : DoubleOps) (sha256 : List ℕ → List ℕ) where
  -- The split once the operator's output is known. `slots` is `cap`.
  unfoldable pub resolve_with : Request → ℕ → Option ReplOut → Option (List ReplOut × WindowResult)
  resolve_with q slots op =
      let payable = q.value_sats -ℤ fee_of op in
      elim (claimed q.payees (pos 0)) [
        | none ↦ none
        | some total ↦
            if ltb_ℤ total payable || ltb_ℤ payable total
            then none
            else elim (fill sha256 (clamp_floor q.payout_floor_sats) (payout_budget q) slots 0
                q.payees empty_filling) [
                  | none ↦ none
                  | some st ↦ if st.res.paid_count == 0 then none else elim (settle fl payable st) [
                    | none ↦ none
                    | some (outs, res) ↦ elim (append_operator slots op outs) [
                      | none ↦ none
                      | some all ↦ some (all, record res { fee_sats = fee_of op })
                    ]
                  ]
                ]
      ]

  -- `none` is the -1 of every refusal.
  unfoldable pub resolve_window_outputs : Request → ℕ → Option (List ReplOut × WindowResult)
  resolve_window_outputs q slots =
      if ltb slots 2 || length q.payees == 0
      then none
      else if not (ltb_ℤ (pos 0) q.value_sats)
      then none
      else elim (operator_fee sha256 q) [ none ↦ none | some op ↦ resolve_with q slots op ]
