-- ===== src/Window/Spend.antt =====
-- The outputs spend the block exactly: redistribution, the operator's output, the whole.
use simplepool.Prelude.{
  ℕ, zero, suc, ◌+◌, ◌<◌, ◌≡◌, refl, sym, ap, ◌∙◌, inl, inr, false, some, List, [], ◌∷◌, map, arith,
  if◌then◌else◌, length, All, Bool-cases,
}
use simplepool.Prelude.Int.{ℤ, pos, ◌+ℤ◌, ◌-ℤ◌, ◌≤ℤ◌, ltb_ℤ, int_laws, +ℤ_assoc, ltb_ℤ→ge}
use simplepool.Double.{DoubleOps}
use simplepool.Window.{
  Payee, ReplOut, sum_sats, claimed, biggest_from, biggest, add_at, scaled, redistribute,
}
use simplepool.Window.Fill.{sum_claims}

-- The amounts accepted by the check sum to what it returns.
pub claimed-sum :
    (pes : List Payee) (start total : ℤ)
    → claimed pes start ≡ some total
    → start +ℤ sum_claims pes ≡ total
unfolding claimed sum_claims
claimed-sum [] start total e = omega_zero start ∙ ground arith
  where
    omega_zero : (a : ℤ) → a +ℤ pos 0 ≡ a
    omega_zero a = omega int_laws
claimed-sum (pe ∷ pes) start total e =
    sym (+ℤ_assoc start pe.sats (sum_claims pes))
    ∙ claimed-sum pes (start +ℤ pe.sats) total (ground arith)

-- Nor is any of them negative.
pub claimed-All :
    (pes : List Payee) (start total : ℤ)
    → claimed pes start ≡ some total
    → All (λ pe. pos 0 ≤ℤ pe.sats) pes
unfolding claimed
claimed-All [] start total e = tt
claimed-All (pe ∷ pes) start total e =
    let nonneg : ltb_ℤ pe.sats (pos 0) ≡ false = ground arith in
    (ltb_ℤ→ge pe.sats (pos 0) nonneg, claimed-All pes (start +ℤ pe.sats) total (ground arith))

biggest_from-lt :
    (os : List ReplOut) (i big : ℕ) (best : ℤ)
    → big < i
    → biggest_from os i big best < i + length os
unfolding biggest_from
biggest_from-lt [] i big best h = omega arith
biggest_from-lt (o ∷ os) i big best h =
    let next : ℕ = if ltb_ℤ best o.sats then i else big in
    let small : next < i + 1 = ground arith in
    omega (arith, biggest_from-lt os (i + 1) next _ small)

pub biggest-lt : (o : ReplOut) (os : List ReplOut) → biggest (o ∷ os) < length (o ∷ os)
unfolding biggest
biggest-lt o os = omega (arith, biggest_from-lt os 1 0 o.sats (omega arith))

pub sum_sats-add_at :
    (os : List ReplOut) (i : ℕ) (extra : ℤ)
    → i < length os
    → sum_sats (add_at os i extra) ≡ sum_sats os +ℤ extra
unfolding sum_sats add_at
sum_sats-add_at [] i extra h = absurd (omega arith)
sum_sats-add_at (o ∷ os) zero extra h = swap o.sats extra (sum_sats os)
  where
    swap : (a b c : ℤ) → (a +ℤ b) +ℤ c ≡ (a +ℤ c) +ℤ b
    swap a b c = omega int_laws
sum_sats-add_at (o ∷ os) (suc i) extra h =
    ap (◌+ℤ◌ o.sats) (sum_sats-add_at os i extra (omega arith))
    ∙ sym (+ℤ_assoc o.sats (sum_sats os) extra)

pub spks-add_at :
    (os : List ReplOut) (i : ℕ) (extra : ℤ)
    → map (λ (o : ReplOut). o.spk) (add_at os i extra) ≡ map (λ (o : ReplOut). o.spk) os
unfolding add_at
spks-add_at [] i extra = refl
spks-add_at (o ∷ os) zero extra = refl
spks-add_at (o ∷ os) (suc i) extra = ap (◌∷◌ o.spk) (spks-add_at os i extra)

module _ (fl : DoubleOps) where
  spks-scaled :
      (payable paid : ℤ) (os : List ReplOut)
      → map (λ (o : ReplOut). o.spk) (map (scaled fl payable paid) os)
        ≡ map (λ (o : ReplOut). o.spk) os
  unfolding scaled
  spks-scaled payable paid [] = refl
  spks-scaled payable paid (o ∷ os) = ap (◌∷◌ o.spk) (spks-scaled payable paid os)

  -- Whatever rounding the doubles do, a redistribution that is not refused spends `payable`
  -- exactly, and changes amounts only.
  pub redistribute-exact :
      (payable paid : ℤ) (o : ReplOut) (os outs : List ReplOut)
      → redistribute fl payable paid (o ∷ os) ≡ some outs
      → (sum_sats outs ≡ payable)
        × (map (λ (p : ReplOut). p.spk) outs ≡ map (λ (p : ReplOut). p.spk) (o ∷ os))
  unfolding redistribute
  redistribute-exact payable paid o os outs e =
      let outs' : List ReplOut = map (scaled fl payable paid) (o ∷ os) in
      let total : ℤ = sum_sats outs' in
      elim (Bool-cases (ltb_ℤ total payable)) [
        | inl under ↦
            let extra : ℤ = payable -ℤ total in
            let same : add_at outs' (biggest outs') extra ≡ outs = ground arith in
            (
              ap sum_sats (sym same)
                  ∙ sum_sats-add_at outs' (biggest outs') extra (biggest-lt _ _)
                  ∙ fill_up total payable,
              ap (map (λ (p : ReplOut). p.spk)) (sym same)
                  ∙ spks-add_at outs' (biggest outs') extra
                  ∙ spks-scaled payable paid (o ∷ os),
            )
        | inr enough ↦ elim (Bool-cases (ltb_ℤ payable total)) [
          | inl over ↦ absurd (ground arith)
          | inr exact ↦
              let same : outs' ≡ outs = ground arith in
              (
                ap sum_sats (sym same) ∙ between total payable enough exact,
                ap (map (λ (p : ReplOut). p.spk)) (sym same) ∙ spks-scaled payable paid (o ∷ os),
              )
        ]
      ]
    where
      fill_up : (a b : ℤ) → a +ℤ (b -ℤ a) ≡ b
      fill_up a b = omega int_laws

      between : (a b : ℤ) → ltb_ℤ a b ≡ false → ltb_ℤ b a ≡ false → a ≡ b
      between a b h k = omega int_laws
