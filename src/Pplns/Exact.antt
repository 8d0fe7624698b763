-- ===== src/Pplns/Exact.antt =====
-- `pplns_split_window` divides the block exactly, and the coinbase builder agrees with it.
use simplepool.Prelude.{
  ℕ, ◌≡◌, ◌≢◌, refl, sym, ap, ap₂, subst₂, ◌∙◌, inl, inr, Bool, false, Option, some, List, [], ◌∷◌,
  map, arith, if◌then◌else◌, length, length-map, All, Bool-cases, Option-cases,
}
use simplepool.Prelude.Int.{
  ℤ, pos, pos_part, neg_part, ◌+ℤ◌, ◌-ℤ◌, ◌≤ℤ◌, ltb_ℤ, ltb_ℤ→ge, ltb_ℤ→lt, int_laws, +ℤ_assoc,
  eq_of_parts, +ℤ_parts, -ℤ_parts,
}
use simplepool.Double.{DoubleOps}
use simplepool.Window.{Payee, clamp_floor}
use simplepool.Window.Fill.{sum_claims}
use simplepool.Pplns.{
  Claim, Split, split_fee, count_below, add_first, divide_claim, divide_claims, pplns_split_window,
}
use simplepool.Pplns.Fee.{SplitFee, split_fee-SplitFee}

abbrev IsPositivePart : Payee → Type 0
IsPositivePart pe = pos 0 ≤ℤ pe.sats

abbrev pub addresses : List Payee → List (Option (List ℕ))
addresses pes = map (λ (pe : Payee). pe.address) pes

sum_claims-add_first :
    (pe : Payee) (pes : List Payee) (extra : ℤ)
    → sum_claims (add_first (pe ∷ pes) extra) ≡ sum_claims (pe ∷ pes) +ℤ extra
unfolding add_first sum_claims
sum_claims-add_first pe pes extra = swap pe.sats extra (sum_claims pes)
  where
    swap : (a b c : ℤ) → (a +ℤ b) +ℤ c ≡ (a +ℤ c) +ℤ b
    swap a b c = omega int_laws

add_first-addresses :
    (pes : List Payee) (extra : ℤ) → addresses (add_first pes extra) ≡ addresses pes
unfolding add_first
add_first-addresses [] extra = refl
add_first-addresses (pe ∷ pes) extra = refl

add_first-nonneg :
    (pes : List Payee) (extra : ℤ)
    → pos 0 ≤ℤ extra
    → All IsPositivePart pes
    → All IsPositivePart (add_first pes extra)
unfolding add_first
add_first-nonneg [] extra h a = tt
add_first-nonneg (pe ∷ pes) extra h a = (omega (arith, +ℤ_parts pe.sats extra, a.0), a.1)

nothing : (a : ℤ) → a +ℤ sum_claims [] ≡ a
unfolding sum_claims
nothing a = omega int_laws

zero-plus : (a b : ℤ) → pos 0 +ℤ a ≡ b → a ≡ b
zero-plus a b e = eq_of_parts a b (omega (arith, +ℤ_parts (pos 0) a, ap pos_part e, ap neg_part e))

-- The remainder step: what it makes of payees that do not overshoot.
abbrev fixed_up : List Payee → ℤ → ℤ → List Payee
fixed_up pes assigned payable =
    if ltb_ℤ assigned payable then add_first pes (payable -ℤ assigned) else pes

fix_up :
    (pes : List Payee) (assigned payable : ℤ)
    → length pes ≢ 0
    → pos 0 +ℤ sum_claims pes ≡ assigned
    → ltb_ℤ payable assigned ≡ false
    → All IsPositivePart pes
    → (sum_claims (fixed_up pes assigned payable) ≡ payable)
      × (addresses (fixed_up pes assigned payable) ≡ addresses pes)
      × All IsPositivePart (fixed_up pes assigned payable)
fix_up [] assigned payable ne sum enough nonneg = absurd (ne refl)
fix_up (pe ∷ pes) assigned payable ne sum enough nonneg =
    let sum' = zero-plus (sum_claims (pe ∷ pes)) assigned sum in
    elim (Bool-cases (ltb_ℤ assigned payable)) [
      | inl short ↦ rw short (
        sum_claims-add_first pe pes (payable -ℤ assigned)
            ∙ ap (λ t. t +ℤ (payable -ℤ assigned)) sum'
            ∙ fill_in assigned payable,
        add_first-addresses (pe ∷ pes) (payable -ℤ assigned),
        add_first-nonneg (pe ∷ pes) (payable -ℤ assigned)
            (omega (arith, ltb_ℤ→lt assigned payable short, -ℤ_parts payable assigned)) nonneg,
      )
      | inr full ↦ rw full (sum' ∙ between assigned payable full enough, refl, nonneg)
    ]
  where
    fill_in : (a b : ℤ) → a +ℤ (b -ℤ a) ≡ b
    fill_in a b = omega int_laws

    between : (a b : ℤ) → ltb_ℤ a b ≡ false → ltb_ℤ b a ≡ false → a ≡ b
    between a b h k = omega int_laws

-- The payees that get less than the floor.
abbrev pub paid_below : ℤ → List Payee → List Payee
paid_below floor [] = []
paid_below floor (pe ∷ pes) =
    let rest = paid_below floor pes in if ltb_ℤ pe.sats floor then pe ∷ rest else rest

count_below-paid_below :
    (floor : ℤ) (pes : List Payee) → count_below floor pes ≡ length (paid_below floor pes)
unfolding count_below
count_below-paid_below floor [] = refl
count_below-paid_below floor (pe ∷ pes) = ground (arith, count_below-paid_below floor pes)

module _ (fl : DoubleOps) where
  abbrev pub claim_addresses : List (Claim fl) → List (Option (List ℕ))
  claim_addresses cs = map (λ (c : Claim fl). c.payout_address) cs

  -- The books of the loop over the claims.
  record Divided (cs : List (Claim fl)) (pes : List Payee) (start total : ℤ) : Type 0 where
    sum : start +ℤ sum_claims pes ≡ total
    same : addresses pes ≡ claim_addresses cs
    nonneg : All IsPositivePart pes

  divide_claim-payee :
      (payable : ℤ) (total_diff : fl.Double) (c : Claim fl) (pe : Payee)
      → divide_claim fl payable total_diff c ≡ some pe
      → (pe.address ≡ c.payout_address) × IsPositivePart pe
  unfolding divide_claim
  divide_claim-payee payable total_diff c pe e =
      let whole : ltb_ℤ pe.sats (pos 0) ≡ false = ground arith in
      (ground arith, ltb_ℤ→ge pe.sats (pos 0) whole)

  divide_claims-Divided :
      (payable : ℤ) (total_diff : fl.Double) (cs : List (Claim fl)) (start total : ℤ)
      (pes : List Payee)
      → divide_claims fl payable total_diff cs start ≡ some (pes, total)
      → Divided cs pes start total
  unfolding divide_claims sum_claims
  divide_claims-Divided payable total_diff [] start total pes e =
      let none_left : [] ≡ pes = ground arith in
      let same : start ≡ total = ground arith in
      subst₂ (λ p t. Divided [] p start t) none_left same
        (record { sum = nothing start; same = refl; nonneg = tt })
  divide_claims-Divided payable total_diff (c ∷ cs) start total pes e =
      elim (Option-cases (divide_claim fl payable total_diff c)) [
        | inl bad ↦ absurd (ground arith)
        | inr (pe, good) ↦
            elim (Option-cases (divide_claims fl payable total_diff cs (start +ℤ pe.sats))) [
              | inl bad ↦ absurd (ground arith)
              | inr ((rest, t), more) ↦
                  let ih =
                    divide_claims-Divided payable total_diff cs (start +ℤ pe.sats) t rest more in
                  let one = divide_claim-payee payable total_diff c pe good in
                  let same : pe ∷ rest ≡ pes = ground arith in
                  let end : t ≡ total = ground arith in
                  subst₂ (λ p u. Divided (c ∷ cs) p start u) same end
                    (record {
                      sum = sym (+ℤ_assoc start pe.sats (sum_claims rest)) ∙ ih.sum;
                      same = ap₂ ◌∷◌ one.0 ih.same;
                      nonneg = (one.1, ih.nonneg);
                    })
            ]
      ]

  -- What a window's division guarantees.
  pub record IsDivision (reward fee_bps : ℤ) (have_operator : Bool) (cs : List (Claim fl))
      (floor : ℤ) (out : List Payee) (res : Split) : Type 0 where
    pub exact : sum_claims out ≡ res.payable_sats
    pub whole : res.payable_sats +ℤ res.fee_sats ≡ reward
    pub taken : res.fee_sats ≡ split_fee reward fee_bps have_operator
    pub fee : SplitFee reward fee_bps have_operator res.fee_sats
    pub same : addresses out ≡ claim_addresses cs
    pub nonneg : All IsPositivePart out
    pub predicted : res.below_floor ≡ length (paid_below (clamp_floor floor) out)

  -- Whatever the rounding does, a window that is not refused is divided exactly: the payees are the
  -- claims' addresses in order, none gets a negative amount, and the amounts sum to the reward
  -- less the fee. The fee is the operator's part of the reward, or nothing where there is no
  -- operator or no rate, or where that part is below the dust limit; and the payees that get less
  -- than the floor are counted.
  pub split-IsDivision :
      (reward fee_bps : ℤ) (have_operator : Bool) (cs : List (Claim fl)) (total_diff : fl.Double)
      (floor : ℤ) (capacity : ℕ) (out : List Payee) (res : Split)
      → pplns_split_window fl reward fee_bps have_operator cs total_diff floor capacity
        ≡ some (out, res)
      → IsDivision reward fee_bps have_operator cs floor out res
  unfolding pplns_split_window
  split-IsDivision reward fee_bps have_operator cs total_diff floor capacity out res e =
      let payable : ℤ = reward -ℤ split_fee reward fee_bps have_operator in
      elim (Option-cases (divide_claims fl payable total_diff cs (pos 0))) [
        | inl bad ↦ absurd (ground arith)
        | inr ((pes, assigned), good) ↦
            let d = divide_claims-Divided payable total_diff cs (pos 0) assigned pes good in
            let made : List Payee =
              if ltb_ℤ assigned payable then add_first pes (payable -ℤ assigned) else pes in
            let enough : ltb_ℤ payable assigned ≡ false = ground arith in
            let some_claims : length cs ≢ 0 = ground arith in
            let s1 : made ≡ out = ground arith in
            let s2 : record {
              fee_sats = split_fee reward fee_bps have_operator;
              payable_sats = payable;
              below_floor = count_below (clamp_floor floor) made;
            }
                ≡ res =
              ground arith in
            let many : length pes ≢ 0 = omega (
              arith,
              ap length d.same,
              length-map (λ (p : Payee). p.address) pes,
              length-map (λ (c : Claim fl). c.payout_address) cs,
              some_claims,
            ) in
            let fixed = fix_up pes assigned payable many d.sum enough d.nonneg in
            subst₂ (IsDivision reward fee_bps have_operator cs floor) s1 s2 (record {
              exact = fixed.0;
              whole = back reward (split_fee reward fee_bps have_operator);
              taken = refl;
              fee = split_fee-SplitFee reward fee_bps have_operator;
              same = fixed.1 ∙ d.same;
              nonneg = fixed.2;
              predicted = count_below-paid_below (clamp_floor floor) made;
            })
      ]
    where
      back : (a b : ℤ) → (a -ℤ b) +ℤ b ≡ a
      back a b = omega int_laws
