-- ===== src/Window/Settle.antt =====
-- The redistribution step of `resolve_window_outputs`, and the operator's output.
use simplepool.Prelude.{
  ℕ, ◌≤◌, ◌<◌, ◌≡◌, ◌≢◌, refl, sym, ap, subst₂, ◌∙◌, inl, inr, true, false, Option, none, some,
  List, [], ◌∷◌, ◌++◌, map, arith, length, length-append, append-nil, Bool-cases, Option-cases,
}
use simplepool.Prelude.Int.{
  ℤ, pos, pos_part, neg_part, ◌+ℤ◌, ◌-ℤ◌, ◌≤ℤ◌, ltb_ℤ, ltb_ℤ→ge, ltb_ℤ→lt, eq_of_parts, +ℤ_parts,
  int_laws,
}
use simplepool.Double.{DoubleOps}
use simplepool.Window.{
  ReplOut, WindowResult, Filling, sum_sats, redistribute, dust_sats, fee_share, clamp_floor,
}
use simplepool.Window.Resolve.{
  Request, operator_fee, settle, fee_of, append_operator, payout_budget, empty_filling,
}
use simplepool.Window.Fill.{
  Balanced, sum_sats-append, sum_sats_one, sum_bytes, After-some, fill-Balanced,
}
use simplepool.Window.Trace.{Trace}
use simplepool.Window.Spend.{redistribute-exact}

abbrev pub spks : List ReplOut → List (List ℕ)
spks outs = map (λ (o : ReplOut). o.spk) outs

abbrev pub operator_list : Option ReplOut → List ReplOut
operator_list none = []
operator_list (some op) = op ∷ []

-- The operator's output, where there is one, is the fee of the request, above the dust limit.
pub operator_fee-pays :
    (sha256 : List ℕ → List ℕ) (q : Request) (op : ReplOut)
    → operator_fee sha256 q ≡ some (some op)
    → (op.sats ≡ fee_share q.value_sats q.fee_bps) × (ltb_ℤ (pos 0) op.sats ≡ true)
unfolding operator_fee
operator_fee-pays sha256 q op e =
    let same : op.sats ≡ fee_share q.value_sats q.fee_bps = ground arith in
    let big : ltb_ℤ (fee_share q.value_sats q.fee_bps) (pos dust_sats) ≡ false = ground arith in
    (same, rw same (above_dust (fee_share q.value_sats q.fee_bps) big))
  where
    above_dust : (z : ℤ) → ltb_ℤ z (pos dust_sats) ≡ false → ltb_ℤ (pos 0) z ≡ true
    above_dust z h = elim (Bool-cases (ltb_ℤ (pos 0) z)) [
      | inl t ↦ t
      | inr f ↦ absurd (omega (arith, ltb_ℤ→ge z (pos dust_sats) h, ltb_ℤ→ge (pos 0) z f))
    ]

-- What the settlement makes of the payment loop's state.
pub record Settled (payable : ℤ) (st : Filling) (outs : List ReplOut) (res : WindowResult)
    : Type 0 where
  pub spent : sum_sats outs ≡ payable
  pub scripts : spks outs ≡ spks st.outs
  pub all_paid : res.paid_sats ≡ payable
  pub count : res.paid_count ≡ st.res.paid_count
  pub below : res.dropped_below_floor ≡ st.res.dropped_below_floor
  pub over : res.dropped_capped ≡ st.res.dropped_capped
  pub untouched : res.redistributed_sats ≡ pos 0 → outs ≡ st.outs
  pub marks : res.paid_payee ≡ st.res.paid_payee

module _ (fl : DoubleOps) (floor payable : ℤ) (budget slots n : ℕ) (st : Filling)
    (outs : List ReplOut) (res : WindowResult) (v : Balanced floor budget slots payable n st) where
  redistributed-Settled :
      (os os' : List ReplOut)
      → st.outs ≡ os
      → os ≢ []
      → ltb_ℤ (pos 0) st.dropped ≡ true
      → redistribute fl payable st.res.paid_sats os ≡ some os'
      → Settled payable st os'
          (record st.res { redistributed_sats = st.dropped; paid_sats = payable })
  redistributed-Settled [] os' same ne pos_drop e = absurd (ne refl)
  redistributed-Settled (o ∷ os) os' same ne pos_drop e =
      let (total, scripts) = redistribute-exact fl payable st.res.paid_sats o os os' e in
      record {
        spent = total;
        scripts = scripts ∙ sym (ap spks same);
        all_paid = refl;
        count = refl;
        below = refl;
        over = refl;
        untouched = λ h.
            absurd
              (omega (arith, ltb_ℤ→lt (pos 0) st.dropped pos_drop, ap pos_part h, ap neg_part h));
        marks = refl;
      }

  pub settle-Settled :
      settle fl payable st ≡ some (outs, res) → st.res.paid_count ≢ 0 → Settled payable st outs res
  unfolding settle
  settle-Settled e some_paid = elim (Bool-cases (ltb_ℤ (pos 0) st.dropped)) [
    | inl dropped ↦ elim (Option-cases (redistribute fl payable st.res.paid_sats st.outs)) [
      | inl bad ↦ absurd (ground arith)
      | inr (os', good) ↦
          let nonempty : st.outs ≢ [] = λ h. some_paid (v.counted ∙ ap length h) in
          let s1 : os' ≡ outs = ground arith in
          let s2 : record st.res { redistributed_sats = st.dropped; paid_sats = payable } ≡ res =
            ground arith in
          subst₂ (Settled payable st) s1 s2
            (redistributed-Settled st.outs os' refl nonempty dropped good)
    ]
    | inr nothing ↦
        let s1 : st.outs ≡ outs = ground arith in
        let s2 : st.res ≡ res = ground arith in
        let zero_dropped = ltb_ℤ→ge (pos 0) st.dropped nothing in
        let whole = v.conserved in
        subst₂ (Settled payable st) s1 s2 (record {
          spent = all_of (sum_sats st.outs) st.dropped whole zero_dropped v.owed;
          scripts = refl;
          all_paid = v.paid ∙ all_of (sum_sats st.outs) st.dropped whole zero_dropped v.owed;
          count = refl;
          below = refl;
          over = refl;
          untouched = λ h. refl;
          marks = refl;
        })
  ]
    where
      all_of : (a d : ℤ) → a +ℤ d ≡ payable → d ≤ℤ pos 0 → pos 0 ≤ℤ d → a ≡ payable
      all_of a d h k l =
          eq_of_parts a payable (omega (arith, +ℤ_parts a d, ap pos_part h, ap neg_part h))

plus_zero : (a : ℤ) → a ≡ a +ℤ pos 0
plus_zero a = omega int_laws

pub appended :
    (slots : ℕ) (op : Option ReplOut) (outs whole : List ReplOut)
    → ((o : ReplOut) → op ≡ some o → ltb_ℤ (pos 0) o.sats ≡ true)
    → append_operator slots op outs ≡ some whole
    → length outs < slots
    → (whole ≡ outs ++ operator_list op)
      × (sum_sats whole ≡ sum_sats outs +ℤ fee_of op)
      × (length whole ≤ slots)
unfolding append_operator
appended slots none outs whole pays e room =
    let same : outs ≡ whole = ground arith in
    (
      sym same ∙ sym (append-nil outs),
      ap sum_sats (sym same) ∙ plus_zero (sum_sats outs),
      omega (arith, ap length same),
    )
appended slots (some op) outs whole pays e room =
    let positive = pays op refl in
    let same : outs ++ (op ∷ []) ≡ whole = ground arith in
    (
      sym same,
      ap sum_sats (sym same)
          ∙ sum_sats-append outs (op ∷ [])
          ∙ ap (◌+ℤ◌ (sum_sats outs)) (sum_sats_one op),
      omega (arith, ap length same, length-append outs (op ∷ [])),
    )

-- The books at the start of the loop.
start :
    (floor : ℤ) (budget : ℕ) {slots : ℕ}
    → 2 ≤ slots
    → Balanced floor budget slots (pos 0) 0 empty_filling
unfolding sum_sats sum_bytes
start floor budget two = record {
  conserved = omega int_laws;
  paid = refl;
  counted = refl;
  every_one = omega arith;
  measured = refl;
  fits = omega arith;
  room = omega arith;
  worth = tt;
  owed = omega arith;
}

-- The books after the loop of a successful run.
pub trace-Balanced :
    {fl : DoubleOps} {sha256 : List ℕ → List ℕ} {q : Request} {slots : ℕ} {outs : List ReplOut}
    {res : WindowResult} (t : Trace fl sha256 q slots outs res)
    → Balanced
        (clamp_floor q.payout_floor_sats)
        (payout_budget q)
        slots
        (q.value_sats -ℤ fee_of t.op)
        (length q.payees)
        t.st
trace-Balanced {sha256} {q} {slots} t =
    let floor : ℤ = clamp_floor q.payout_floor_sats in
    After-some
      (Balanced floor (payout_budget q) slots (q.value_sats -ℤ fee_of t.op) (length q.payees))
      (fill-Balanced sha256 floor (payout_budget q) slots q.payees 0 (pos 0) _ 0 _ empty_filling
        t.exact (omega arith) t.nonneg (start floor (payout_budget q) t.two))
      t.filled
