-- ===== src/Window/Marks.antt =====
-- `paid_payee`: which payees got an output. The loop skips a payee that it cannot pay and goes on,
-- so the paid ones are a subsequence of the payees.
use simplepool.Window.Marked.{
  selected, selected-prefix, scripts, paid_scripts, claims, amounts, Marked, one_more, skip-Marked,
  pay-Marked,
}
use simplepool.Prelude.{
  ℕ, zero, suc, ◌+◌, ◌-◌, ◌≤◌, ◌≡◌, refl, sym, ap, subst₂, ◌∙◌, inl, inr, false, Option, some, List,
  [], ◌∷◌, ◌++◌, map, arith, ltb, leb, length, length-map, replicate, Bool-cases, Option-cases,
  append_assoc, append-nil, lt→ltb,
}
use simplepool.Prelude.Int.{ℤ, pos, ltb_ℤ}
use simplepool.Window.{
  Payee, ReplOut, WindowResult, Filling, clamp_floor, max_payout_outputs, out_ser_size, script_of,
  fill_step, fill,
}
use simplepool.Double.{DoubleOps}
use simplepool.Window.Resolve.{Request, payout_budget, empty_filling, resolve_window_outputs}
use simplepool.Window.Fill.{After, After-some}
use simplepool.Window.Trace.{resolve-Trace}
use simplepool.Window.Settle.{
  spks, operator_list, operator_fee-pays, settle-Settled, appended, trace-Balanced,
}

-- The payees whose bit is set.
module _ (sha256 : List ℕ → List ℕ) (floor : ℤ) (budget slots : ℕ) where
  fill_step-Marked :
      (before : List Payee) (pe : Payee) (m : ℕ) (st : Filling)
      → length before + suc m ≡ max_payout_outputs
      → Marked sha256 before (suc m) st
      → After
          (Marked sha256 (before ++ (pe ∷ [])) m)
          (fill_step sha256 floor budget slots (length before) pe st)
  unfolding fill_step
  fill_step-Marked before pe m st within v = elim (Bool-cases (ltb_ℤ pe.sats floor)) [
    | inl small ↦ rw small (skip-Marked sha256 before pe m st _ refl refl v)
    | inr big ↦ elim (Bool-cases (leb slots (length st.outs + 1))) [
      | inl full ↦ rw (big, full) (skip-Marked sha256 before pe m st _ refl refl v)
      | inr slot ↦ elim (Option-cases (script_of sha256 pe.address)) [
        | inl bad ↦ rw (big, slot, bad) tt
        | inr (spk, good) ↦
            elim (Bool-cases (ltb budget (st.payout_bytes + out_ser_size (length spk)))) [
              | inl over ↦
                  rw (big, slot, good, over) (skip-Marked sha256 before pe m st _ refl refl v)
              | inr byte ↦
                  rw (big, slot, good, byte)
                    (pay-Marked sha256 before pe m st spk _ good refl
                      (rw (lt→ltb (length before) max_payout_outputs (omega arith))) v)
            ]
      ]
    ]
  ]

  fill-Marked :
      (pes before : List Payee) (left rest : ℕ) (st : Filling)
      → length before + left ≡ max_payout_outputs
      → rest + length pes ≡ left
      → Marked sha256 before left st
      → After
          (Marked sha256 (before ++ pes) rest)
          (fill sha256 floor budget slots (length before) pes st)
  unfolding fill
  fill-Marked [] before left rest st within short v =
      subst₂ (λ b l. Marked sha256 b l st) (sym (append-nil before)) (omega arith) v
  fill-Marked (pe ∷ pes) before zero rest st within short v = absurd (omega arith)
  fill-Marked (pe ∷ pes) before (suc m) rest st within short v =
      elim (Option-cases (fill_step sha256 floor budget slots (length before) pe st)) [
        | inl bad ↦ rw (bad, fill) tt
        | inr (st', good) ↦
            rw (good, fill)
              (subst₂
                (λ b j. After (Marked sha256 b rest) (fill sha256 floor budget slots j pes st'))
                (append_assoc before (pe ∷ []) pes) (one_more before pe)
                (fill-Marked pes (before ++ (pe ∷ [])) m rest st'
                  (omega (arith, one_more before pe)) (omega arith)
                  (After-some (Marked sha256 (before ++ (pe ∷ [])) m)
                    (fill_step-Marked before pe m st within v) good)))
      ]

length_of_spks : (xs ys : List ReplOut) → spks xs ≡ spks ys → length xs ≡ length ys
length_of_spks xs ys e =
    sym (length-map (λ (o : ReplOut). o.spk) xs)
    ∙ ap length e
    ∙ length-map (λ (o : ReplOut). o.spk) ys

no_marks : (sha256 : List ℕ → List ℕ) → Marked sha256 [] max_payout_outputs empty_filling
unfolding selected
no_marks sha256 = record { bits = []; array = refl; width = refl; paid = refl; worth = refl }

paid_scripts-spks : (xs : List ReplOut) → paid_scripts xs ≡ map some (spks xs)
paid_scripts-spks [] = refl
paid_scripts-spks (x ∷ xs) = ap (◌∷◌ (some x.spk)) (paid_scripts-spks xs)

-- The marks and the amounts, before they are told apart.
marks_and_claims :
    (fl : DoubleOps) (sha256 : List ℕ → List ℕ) (q : Request) (slots : ℕ) (outs : List ReplOut)
    (res : WindowResult)
    → length q.payees ≤ max_payout_outputs
    → resolve_window_outputs fl sha256 q slots ≡ some (outs, res)
    → (payouts : List ReplOut) × (op : Option ReplOut) × (outs ≡ payouts ++ operator_list op)
      × (paid_scripts payouts ≡ scripts sha256 (selected q.payees res.paid_payee))
      × (res.redistributed_sats ≡ pos 0
          → amounts payouts ≡ claims (selected q.payees res.paid_payee))
marks_and_claims fl sha256 q slots outs res few e =
    let t = resolve-Trace fl sha256 q slots outs res e in
    let v = trace-Balanced t in
    let s = settle-Settled fl _ _ _ slots _ t.st t.mid t.res' v t.settled t.some_paid in
    let m =
      After-some (Marked sha256 q.payees (max_payout_outputs - length q.payees))
        (fill-Marked sha256 (clamp_floor q.payout_floor_sats) (payout_budget q) slots q.payees []
          max_payout_outputs _ empty_filling refl (omega arith) (no_marks sha256))
        t.filled in
    let bits : res.paid_payee ≡ m.bits ++ replicate (max_payout_outputs - length q.payees) false =
      sym (ap (λ (r : WindowResult). r.paid_payee) t.result) ∙ s.marks ∙ m.array in
    let chosen : selected q.payees m.bits ≡ selected q.payees res.paid_payee =
      sym (ap (selected q.payees) bits ∙ selected-prefix q.payees m.bits _ m.width) in
    let parts =
      appended slots t.op t.mid outs (λ o f. (operator_fee-pays sha256 q o (t.known ∙ ap some f)).1)
        t.appended (omega (arith, v.room, length_of_spks t.mid t.st.outs s.scripts)) in
    (
      t.mid,
      t.op,
      parts.0,
      paid_scripts-spks t.mid
          ∙ ap (map some) s.scripts
          ∙ sym (paid_scripts-spks t.st.outs)
          ∙ m.paid
          ∙ ap (scripts sha256) chosen,
      λ h.
          ap amounts (s.untouched (ap (λ (r : WindowResult). r.redistributed_sats) t.result ∙ h))
          ∙ m.worth
          ∙ ap claims chosen,
    )

-- The payouts of a split over at most 200 payees are the scripts of the payees that `paid_payee`
-- marks, in the payees' order.
pub resolve_marks :
    (fl : DoubleOps) (sha256 : List ℕ → List ℕ) (q : Request) (slots : ℕ) (outs : List ReplOut)
    (res : WindowResult)
    → length q.payees ≤ max_payout_outputs
    → resolve_window_outputs fl sha256 q slots ≡ some (outs, res)
    → (payouts : List ReplOut) × (op : Option ReplOut) × (outs ≡ payouts ++ operator_list op)
      × (paid_scripts payouts ≡ scripts sha256 (selected q.payees res.paid_payee))
resolve_marks fl sha256 q slots outs res few e =
    let (payouts, op, parts, paid, _) = marks_and_claims fl sha256 q slots outs res few e in
    (payouts, op, parts, paid)

-- Where nothing was redistributed either, each payee that `paid_payee` marks gets exactly its own
-- claim, in the payees' order.
pub resolve_marks-claims :
    (fl : DoubleOps) (sha256 : List ℕ → List ℕ) (q : Request) (slots : ℕ) (outs : List ReplOut)
    (res : WindowResult)
    → length q.payees ≤ max_payout_outputs
    → resolve_window_outputs fl sha256 q slots ≡ some (outs, res)
    → res.redistributed_sats ≡ pos 0
    → (payouts : List ReplOut) × (op : Option ReplOut) × (outs ≡ payouts ++ operator_list op)
      × (amounts payouts ≡ claims (selected q.payees res.paid_payee))
resolve_marks-claims fl sha256 q slots outs res few e kept =
    let (payouts, op, parts, _, own) = marks_and_claims fl sha256 q slots outs res few e in
    (payouts, op, parts, own kept)
