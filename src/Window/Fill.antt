-- ===== src/Window/Fill.antt =====
-- The payment loop: what it conserves, counts and bounds.
use simplepool.Prelude.{
  ℕ, ◌+◌, ◌≤◌, ◌<◌, ◌≡◌, refl, sym, ap, ◌∙◌, inl, inr, Option, none, some, List, [], ◌∷◌, ◌++◌,
  arith, ltb, leb, length, length-append, Bool-cases, Option-cases, subst, ltb→ge, All, All-append,
}
use simplepool.Prelude.Int.{ℤ, pos, ◌+ℤ◌, ◌≤ℤ◌, ltb_ℤ, int_laws, +ℤ_parts, ltb_ℤ→ge, +ℤ_assoc}
use simplepool.Window.{
  Payee, ReplOut, WindowResult, Filling, out_ser_size, sum_sats, script_of, fill_step, fill,
}

-- What all the claims of a list of payees are worth, and the bytes of a list of outputs.
unfoldable pub sum_claims : List Payee → ℤ
sum_claims [] = pos 0
sum_claims (pe ∷ pes) = pe.sats +ℤ sum_claims pes

unfoldable pub sum_bytes : List ReplOut → ℕ
sum_bytes [] = 0
sum_bytes (o ∷ os) = out_ser_size (length o.spk) + sum_bytes os

pub sum_sats-append : (xs ys : List ReplOut) → sum_sats (xs ++ ys) ≡ sum_sats xs +ℤ sum_sats ys
unfolding sum_sats
sum_sats-append [] ys = omega int_laws
sum_sats-append (x ∷ xs) ys =
    ap (◌+ℤ◌ x.sats) (sum_sats-append xs ys) ∙ sym (+ℤ_assoc x.sats (sum_sats xs) (sum_sats ys))

sum_bytes-append : (xs ys : List ReplOut) → sum_bytes (xs ++ ys) ≡ sum_bytes xs + sum_bytes ys
unfolding sum_bytes
sum_bytes-append [] ys = omega arith
sum_bytes-append (x ∷ xs) ys = omega (arith, sum_bytes-append xs ys)

pub sum_sats_one : (o : ReplOut) → sum_sats (o ∷ []) ≡ o.sats
unfolding sum_sats
sum_sats_one o = omega int_laws

+ℤ_swap : (a b c : ℤ) → (a +ℤ b) +ℤ c ≡ (a +ℤ c) +ℤ b
+ℤ_swap a b c = omega int_laws

zero_right : (a : ℤ) → a ≡ a +ℤ pos 0
zero_right a = omega int_laws

-- The books of the loop after payees worth `seen`, `count` of them.
pub record Balanced (floor : ℤ) (budget slots : ℕ) (seen : ℤ) (count : ℕ) (st : Filling)
    : Type 0 where
  pub conserved : sum_sats st.outs +ℤ st.dropped ≡ seen
  pub paid : st.res.paid_sats ≡ sum_sats st.outs
  pub counted : st.res.paid_count ≡ length st.outs
  pub every_one : st.res.paid_count + st.res.dropped_below_floor + st.res.dropped_capped ≡ count
  pub measured : st.payout_bytes ≡ sum_bytes st.outs
  pub fits : st.payout_bytes ≤ budget
  pub room : length st.outs < slots
  pub worth : All (λ o. floor ≤ℤ o.sats) st.outs
  pub owed : pos 0 ≤ℤ st.dropped

-- A result that holds of the new state, if there is one.
abbrev pub After {ℓ} : (Filling → Type ℓ) → Option Filling → Type ℓ
After P none = Unit
After P (some st) = P st

pub After-some {ℓ} :
    (P : Filling → Type ℓ) {o : Option Filling} {st : Filling} → After P o → o ≡ some st → P st
After-some P h e = subst (After P) e h

module _ (floor : ℤ) (budget slots : ℕ) (pe : Payee) (seen : ℤ) (count : ℕ) (st : Filling) where
  -- A payee that gets no output: its amount is dropped and one of the two counters moves.
  skip-Balanced :
      (res : WindowResult)
      → res.paid_count ≡ st.res.paid_count
      → res.paid_sats ≡ st.res.paid_sats
      → res.dropped_below_floor + res.dropped_capped
        ≡ st.res.dropped_below_floor + st.res.dropped_capped + 1
      → pos 0 ≤ℤ pe.sats
      → Balanced floor budget slots seen count st
      → Balanced floor budget slots
          (seen +ℤ pe.sats)
          (count + 1)
          (record st { dropped = st.dropped +ℤ pe.sats; res = res })
  skip-Balanced res pc ps two nn v = record {
    conserved =
        sym (+ℤ_assoc (sum_sats st.outs) st.dropped pe.sats) ∙ ap (λ t. t +ℤ pe.sats) v.conserved;
    paid = ps ∙ v.paid;
    counted = pc ∙ v.counted;
    every_one = omega arith;
    measured = v.measured;
    fits = v.fits;
    room = v.room;
    worth = v.worth;
    owed = omega (arith, +ℤ_parts st.dropped pe.sats);
  }

  -- A payee that is paid.
  pay-Balanced :
      (spk : List ℕ) (res : WindowResult)
      → floor ≤ℤ pe.sats
      → length st.outs + 1 < slots
      → st.payout_bytes + out_ser_size (length spk) ≤ budget
      → res.paid_count ≡ st.res.paid_count + 1
      → res.paid_sats ≡ st.res.paid_sats +ℤ pe.sats
      → res.dropped_below_floor ≡ st.res.dropped_below_floor
      → res.dropped_capped ≡ st.res.dropped_capped
      → Balanced floor budget slots seen count st
      → Balanced floor budget slots (seen +ℤ pe.sats) (count + 1) (record st {
        outs = st.outs ++ (record { spk = spk; sats = pe.sats } ∷ []);
        payout_bytes = st.payout_bytes + out_ser_size (length spk);
        res = res;
      })
  unfolding sum_bytes
  pay-Balanced spk res big slot byte pc ps below over v =
      let new : ReplOut = record { spk = spk; sats = pe.sats } in
      let len = length-append st.outs (new ∷ []) in
      let added : sum_sats (st.outs ++ (new ∷ [])) ≡ sum_sats st.outs +ℤ pe.sats =
        sum_sats-append st.outs (new ∷ []) ∙ ap (◌+ℤ◌ (sum_sats st.outs)) (sum_sats_one new) in
      record {
        conserved =
            ap (λ t. t +ℤ st.dropped) added
            ∙ +ℤ_swap (sum_sats st.outs) pe.sats st.dropped
            ∙ ap (λ t. t +ℤ pe.sats) v.conserved;
        paid = ps ∙ ap (λ t. t +ℤ pe.sats) v.paid ∙ sym added;
        counted = omega arith;
        every_one = omega arith;
        measured = omega (arith, sum_bytes-append st.outs (new ∷ []));
        fits = byte;
        room = omega arith;
        worth = All-append (λ o. floor ≤ℤ o.sats) st.outs (new ∷ []) v.worth (big, tt);
        owed = v.owed;
      }

module _ (sha256 : List ℕ → List ℕ) (floor : ℤ) (budget slots : ℕ) where
  fill_step-Balanced :
      (k : ℕ) (pe : Payee) (seen : ℤ) (count : ℕ) (st : Filling)
      → pos 0 ≤ℤ pe.sats
      → Balanced floor budget slots seen count st
      → After
          (Balanced floor budget slots (seen +ℤ pe.sats) (count + 1))
          (fill_step sha256 floor budget slots k pe st)
  unfolding fill_step
  fill_step-Balanced k pe seen count st nn v = elim (Bool-cases (ltb_ℤ pe.sats floor)) [
    | inl small ↦
        rw small (skip-Balanced floor budget slots pe seen count st _ refl refl (omega arith) nn v)
    | inr big ↦ elim (Bool-cases (leb slots (length st.outs + 1))) [
      | inl full ↦
          rw (big, full)
            (skip-Balanced floor budget slots pe seen count st _ refl refl (omega arith) nn v)
      | inr slot ↦ elim (Option-cases (script_of sha256 pe.address)) [
        | inl bad ↦ rw (big, slot, bad) tt
        | inr (spk, good) ↦
            elim (Bool-cases (ltb budget (st.payout_bytes + out_ser_size (length spk)))) [
              | inl over ↦
                  rw (big, slot, good, over)
                    (skip-Balanced floor budget slots pe seen count st _ refl refl (omega arith) nn
                      v)
              | inr byte ↦
                  rw (big, slot, good, byte)
                    (pay-Balanced floor budget slots pe seen count st spk _
                      (ltb_ℤ→ge pe.sats floor big) (ground arith) (ltb→ge budget _ byte) refl refl
                      refl refl v)
            ]
      ]
    ]
  ]

  -- The whole loop keeps the books, for the payees that it has still to see.
  pub fill-Balanced :
      (pes : List Payee) (k : ℕ) (seen total : ℤ) (count n : ℕ) (st : Filling)
      → seen +ℤ sum_claims pes ≡ total
      → count + length pes ≡ n
      → All (λ pe. pos 0 ≤ℤ pe.sats) pes
      → Balanced floor budget slots seen count st
      → After (Balanced floor budget slots total n) (fill sha256 floor budget slots k pes st)
  unfolding fill sum_claims
  fill-Balanced [] k seen total count n st es en nn v = record {
    conserved = v.conserved ∙ zero_right seen ∙ es;
    paid = v.paid;
    counted = v.counted;
    every_one = omega arith;
    measured = v.measured;
    fits = v.fits;
    room = v.room;
    worth = v.worth;
    owed = v.owed;
  }
  fill-Balanced (pe ∷ pes) k seen total count n st es en nn v =
      elim (Option-cases (fill_step sha256 floor budget slots k pe st)) [
        | inl bad ↦ rw (bad, fill) tt
        | inr (st', good) ↦
            rw (good, fill)
              (fill-Balanced pes (k + 1) (seen +ℤ pe.sats) total (count + 1) n st'
                (+ℤ_assoc seen pe.sats (sum_claims pes) ∙ es) (omega arith) nn.1
                (After-some (Balanced floor budget slots (seen +ℤ pe.sats) (count + 1))
                  (fill_step-Balanced k pe seen count st nn.0 v) good))
      ]
