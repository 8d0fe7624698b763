-- ===== src/Window/Trace.antt =====
-- A successful run of `resolve_window_outputs`, taken apart into its stages.
use simplepool.Prelude.{
  ℕ, ◌≤◌, ◌≡◌, ◌≢◌, ◌∙◌, inl, inr, false, Option, some, List, arith, Option-cases, All,
}
use simplepool.Prelude.Int.{ℤ, pos, ◌+ℤ◌, ◌-ℤ◌, ◌≤ℤ◌, ltb_ℤ, int_laws}
use simplepool.Double.{DoubleOps}
use simplepool.Window.{ReplOut, WindowResult, Filling, claimed, fill, clamp_floor}
use simplepool.Window.Resolve.{
  Request, payout_budget, operator_fee, fee_of, append_operator, empty_filling, settle,
  resolve_with, resolve_window_outputs,
}
use simplepool.Window.Fill.{sum_claims}
use simplepool.Window.Spend.{claimed-sum, claimed-All}

pub record Trace (fl : DoubleOps) (sha256 : List ℕ → List ℕ) (q : Request) (slots : ℕ)
    (outs : List ReplOut) (res : WindowResult) : Type 0 where
  pub op : Option ReplOut
  pub st : Filling
  pub mid : List ReplOut
  pub res' : WindowResult
  pub two : 2 ≤ slots
  pub known : operator_fee sha256 q ≡ some op
  pub exact : pos 0 +ℤ sum_claims q.payees ≡ q.value_sats -ℤ fee_of op
  pub nonneg : All (λ pe. pos 0 ≤ℤ pe.sats) q.payees
  pub filled :
      fill sha256 (clamp_floor q.payout_floor_sats) (payout_budget q) slots 0 q.payees empty_filling
      ≡ some st
  pub some_paid : st.res.paid_count ≢ 0
  pub settled : settle fl (q.value_sats -ℤ fee_of op) st ≡ some (mid, res')
  pub appended : append_operator slots op mid ≡ some outs
  pub result : record res' { fee_sats = fee_of op } ≡ res

between : (a b : ℤ) → ltb_ℤ a b ≡ false → ltb_ℤ b a ≡ false → a ≡ b
between a b h k = omega int_laws

module _ (fl : DoubleOps) (sha256 : List ℕ → List ℕ) (q : Request) (slots : ℕ) (outs : List ReplOut)
    (res : WindowResult) where
  resolve_with-Trace :
      (op : Option ReplOut)
      → operator_fee sha256 q ≡ some op
      → 2 ≤ slots
      → resolve_with fl sha256 q slots op ≡ some (outs, res)
      → Trace fl sha256 q slots outs res
  unfolding resolve_with
  resolve_with-Trace op known two e =
      let payable : ℤ = q.value_sats -ℤ fee_of op in
      let floor : ℤ = clamp_floor q.payout_floor_sats in
      elim (Option-cases (claimed q.payees (pos 0))) [
        | inl bad ↦ absurd (ground arith)
        | inr (total, c) ↦
            let short : ltb_ℤ total payable ≡ false = ground arith in
            let over : ltb_ℤ payable total ≡ false = ground arith in
            elim (Option-cases
              (fill sha256 floor (payout_budget q) slots 0 q.payees empty_filling)) [
                | inl bad ↦ absurd (ground arith)
                | inr (st, f) ↦ elim (Option-cases (settle fl payable st)) [
                  | inl bad ↦ absurd (ground arith)
                  | inr ((mid, res'), g) ↦ elim (Option-cases (append_operator slots op mid)) [
                    | inl bad ↦ absurd (ground arith)
                    | inr (whole, h) ↦ record {
                      op = op;
                      st = st;
                      mid = mid;
                      res' = res';
                      two = two;
                      known = known;
                      exact =
                          claimed-sum q.payees (pos 0) total c ∙ between total payable short over;
                      nonneg = claimed-All q.payees (pos 0) total c;
                      filled = f;
                      some_paid = ground arith;
                      settled = g;
                      appended = ground arith;
                      result = ground arith;
                    }
                  ]
                ]
              ]
      ]

  pub resolve-Trace :
      resolve_window_outputs fl sha256 q slots ≡ some (outs, res) → Trace fl sha256 q slots outs res
  unfolding resolve_window_outputs
  resolve-Trace e = elim (Option-cases (operator_fee sha256 q)) [
    | inl bad ↦ absurd (ground arith)
    | inr (op, known) ↦ resolve_with-Trace op known (ground arith) (ground arith)
  ]
