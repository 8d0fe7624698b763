-- ===== src/Window/Whole.antt =====
-- What a successful `resolve_window_outputs` guarantees.
use simplepool.Prelude.{
  ℕ, ◌+◌, ◌≤◌, ◌<◌, ◌≡◌, ◌≢◌, refl, sym, ap, ap₂, subst, ◌∙◌, Option, none, some, List, [], ◌∷◌,
  ◌++◌, arith, All, length, length-map,
}
use simplepool.Prelude.Int.{ℤ, ◌+ℤ◌, ◌-ℤ◌, int_laws}
use simplepool.Double.{DoubleOps}
use simplepool.Window.{
  ReplOut, WindowResult, Filling, out_ser_size, sum_sats, fee_share, clamp_floor,
}
use simplepool.Window.Resolve.{
  Request, payout_budget, operator_fee, fee_of, append_operator, settle, resolve_window_outputs,
}
use simplepool.Window.Fill.{sum_bytes, Balanced}
use simplepool.Window.Trace.{resolve-Trace}
use simplepool.Window.Settle.{
  appended, trace-Balanced, spks, operator_list, operator_fee-pays, settle-Settled,
}

-- A whole split: the payouts in payment order, then the operator's fee.
pub record IsSplit (sha256 : List ℕ → List ℕ) (q : Request) (slots : ℕ) (outs : List ReplOut)
    (res : WindowResult) : Type 0 where
  pub payouts : List ReplOut
  pub operator : Option ReplOut
  pub operator_found : operator_fee sha256 q ≡ some operator
  pub parts : outs ≡ payouts ++ operator_list operator
  pub spent : sum_sats outs ≡ q.value_sats
  pub books : res.paid_sats +ℤ res.fee_sats ≡ q.value_sats
  pub fee : res.fee_sats ≡ fee_of operator
  pub fee_only : All (λ op. op.sats ≡ fee_share q.value_sats q.fee_bps) (operator_list operator)
  pub somebody : 0 < res.paid_count
  pub counted : length payouts ≡ res.paid_count
  pub every_one : res.paid_count + res.dropped_below_floor + res.dropped_capped ≡ length q.payees
  pub fits : sum_bytes payouts ≤ payout_budget q
  pub room : length outs ≤ slots

sum_bytes_of_spks : (xs ys : List ReplOut) → spks xs ≡ spks ys → sum_bytes xs ≡ sum_bytes ys
unfolding sum_bytes
sum_bytes_of_spks [] [] e = refl
sum_bytes_of_spks [] (y ∷ ys) e = cc
sum_bytes_of_spks (x ∷ xs) [] e = cc
sum_bytes_of_spks (x ∷ xs) (y ∷ ys) e =
    let head : x.spk ≡ y.spk = ground arith in
    ap₂ ◌+◌ (ap (λ (s : List ℕ). out_ser_size (length s)) head)
      (sum_bytes_of_spks xs ys (ground arith))

length_of_spks : (xs ys : List ReplOut) → spks xs ≡ spks ys → length xs ≡ length ys
length_of_spks xs ys e =
    sym (length-map (λ (o : ReplOut). o.spk) xs)
    ∙ ap length e
    ∙ length-map (λ (o : ReplOut). o.spk) ys

module _ (sha256 : List ℕ → List ℕ) (q : Request) (slots : ℕ) (op : Option ReplOut)
    (known : operator_fee sha256 q ≡ some op) where
  fee_only :
      (o : Option ReplOut)
      → operator_fee sha256 q ≡ some o
      → All (λ p. p.sats ≡ fee_share q.value_sats q.fee_bps) (operator_list o)
  fee_only none e = tt
  fee_only (some p) e = ((operator_fee-pays sha256 q p e).0, tt)

  assemble :
      (fl : DoubleOps) (floor : ℤ) (st : Filling) (outs all : List ReplOut) (res : WindowResult)
      → Balanced floor (payout_budget q) slots (q.value_sats -ℤ fee_of op) (length q.payees) st
      → st.res.paid_count ≢ 0
      → settle fl (q.value_sats -ℤ fee_of op) st ≡ some (outs, res)
      → append_operator slots op outs ≡ some all
      → IsSplit sha256 q slots all (record res { fee_sats = fee_of op })
  assemble fl floor st outs all res v some_paid settled app =
      let s = settle-Settled fl floor _ _ slots _ st outs res v settled some_paid in
      let len = length_of_spks outs st.outs s.scripts in
      let (parts, total, room) =
        appended slots op outs all (λ o e. (operator_fee-pays sha256 q o (known ∙ ap some e)).1) app
          (omega (arith, v.room)) in
      record {
        payouts = outs;
        operator = op;
        operator_found = known;
        parts = parts;
        spent = total ∙ ap (λ t. t +ℤ fee_of op) s.spent ∙ back q.value_sats (fee_of op);
        books = ap (λ t. t +ℤ fee_of op) s.all_paid ∙ back q.value_sats (fee_of op);
        fee = refl;
        fee_only = fee_only op known;
        somebody = omega (arith, s.count, v.counted, some_paid);
        counted = len ∙ sym v.counted ∙ sym s.count;
        every_one = omega (arith, s.count, s.below, s.over, v.every_one);
        fits = omega (arith, sum_bytes_of_spks outs st.outs s.scripts, v.measured, v.fits);
        room = room;
      }
    where
      back : (a b : ℤ) → (a -ℤ b) +ℤ b ≡ a
      back a b = omega int_laws

-- A split that is not refused spends the block to the last satoshi, whatever the rounding: the
-- outputs sum to the value, what the result reports as paid and as fee sums to it, every payee is
-- counted once as paid, too small or without room, somebody is paid, the payouts stay within the
-- byte budget and the outputs within the slots, and the operator's output, the one that its own
-- resolution gives, is its fee and nothing else.
pub resolve-IsSplit :
    (fl : DoubleOps) (sha256 : List ℕ → List ℕ) (q : Request) (slots : ℕ) (outs : List ReplOut)
    (res : WindowResult)
    → resolve_window_outputs fl sha256 q slots ≡ some (outs, res)
    → IsSplit sha256 q slots outs res
resolve-IsSplit fl sha256 q slots outs res e =
    let t = resolve-Trace fl sha256 q slots outs res e in
    let floor : ℤ = clamp_floor q.payout_floor_sats in
    let v = trace-Balanced t in
    subst (IsSplit sha256 q slots outs) t.result (
      assemble sha256 q slots t.op t.known fl floor t.st t.mid outs t.res' v t.some_paid t.settled
        t.appended)
