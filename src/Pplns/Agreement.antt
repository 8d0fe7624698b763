-- ===== src/Pplns/Agreement.antt =====
-- The split of a window and the coinbase builder compute the same fee, so that the builder's check
-- of the sum passes.
use simplepool.Prelude.{
  ℕ, ◌≡◌, sym, ap, ◌∙◌, false, not, Option, none, some, List, [], ◌∷◌, arith, All, inl, inr,
  Bool-cases,
}
use simplepool.Prelude.Int.{ℤ, pos, ◌+ℤ◌, ◌-ℤ◌, ◌≤ℤ◌, ltb_ℤ, ltb_ℤ→lt, int_laws, +ℤ_assoc}
use simplepool.Double.{DoubleOps}
use simplepool.Window.{Payee, ReplOut, claimed, is_blank}
use simplepool.Window.Resolve.{Request, operator_fee, fee_of}
use simplepool.Window.Fill.{sum_claims}
use simplepool.Pplns.{Claim, Split, split_fee, pplns_split_window}
use simplepool.Pplns.Exact.{addresses, claim_addresses, split-IsDivision}

abbrev HasAddress : Payee → Type 0
HasAddress pe = is_blank pe.address ≡ false

abbrev pub IsNamed : (fl : DoubleOps) → Claim fl → Type 0
IsNamed fl c = is_blank c.payout_address ≡ false

-- Payees have addresses where the claims do whose addresses they are.
named-HasAddress :
    (fl : DoubleOps) (pes : List Payee) (cs : List (Claim fl))
    → addresses pes ≡ claim_addresses fl cs
    → All (IsNamed fl) cs
    → All HasAddress pes
named-HasAddress fl [] cs same named = tt
named-HasAddress fl (pe ∷ pes) [] same named = cc
named-HasAddress fl (pe ∷ pes) (c ∷ cs) same named =
    (ground (arith, named.0), named-HasAddress fl pes cs (ground arith) named.1)

nonneg-ltb : (a : ℤ) → pos 0 ≤ℤ a → ltb_ℤ a (pos 0) ≡ false
nonneg-ltb a h = elim (Bool-cases (ltb_ℤ a (pos 0))) [
  | inl lt ↦ absurd (omega (arith, ltb_ℤ→lt a (pos 0) lt))
  | inr ge ↦ ge
]

claimed-accepts :
    (pes : List Payee) (start : ℤ)
    → All HasAddress pes
    → All (λ pe. pos 0 ≤ℤ pe.sats) pes
    → claimed pes start ≡ some (start +ℤ sum_claims pes)
unfolding claimed sum_claims
claimed-accepts [] start h nn = ap some (nothing start)
  where
    nothing : (a : ℤ) → a ≡ a +ℤ pos 0
    nothing a = omega int_laws
claimed-accepts (pe ∷ pes) start h nn =
    rw (h.0, nonneg-ltb pe.sats nn.0)
      (claimed-accepts pes (start +ℤ pe.sats) h.1 nn.1
        ∙ ap some (+ℤ_assoc start pe.sats (sum_claims pes)))

fee_agrees :
    (sha256 : List ℕ → List ℕ) (q : Request) (op : Option ReplOut)
    → operator_fee sha256 q ≡ some op
    → fee_of op ≡ split_fee q.value_sats q.fee_bps (not (is_blank q.operator_address))
unfolding operator_fee split_fee
fee_agrees sha256 q none e = ground arith
fee_agrees sha256 q (some op) e = ground arith

-- Where every claim of a window has an address that is not blank and the operator's address
-- resolves, the payees of its division pass the builder's check of blank addresses and negative
-- amounts, and its sum is the reward less the builder's own fee, whatever the rounding.
pub builder-accepts-split :
    (fl : DoubleOps) (sha256 : List ℕ → List ℕ) (q : Request) (op : Option ReplOut)
    (cs : List (Claim fl)) (total_diff : fl.Double) (floor : ℤ) (capacity : ℕ) (res : Split)
    → pplns_split_window fl q.value_sats q.fee_bps
        (not (is_blank q.operator_address))
        cs
        total_diff
        floor
        capacity
      ≡ some (q.payees, res)
    → All (IsNamed fl) cs
    → operator_fee sha256 q ≡ some op
    → claimed q.payees (pos 0) ≡ some (q.value_sats -ℤ fee_of op)
builder-accepts-split fl sha256 q op cs total_diff floor capacity res e named known =
    let d =
      split-IsDivision fl q.value_sats q.fee_bps (not (is_blank q.operator_address)) cs total_diff
        floor capacity q.payees res e in
    let fee = fee_agrees sha256 q op known in
    claimed-accepts q.payees (pos 0) (named-HasAddress fl q.payees cs d.same named) d.nonneg
    ∙ ap some (
        total (sum_claims q.payees) res.payable_sats res.fee_sats q.value_sats (fee_of op) d.exact
          d.whole (fee ∙ sym d.taken))
  where
    total : (s p f r g : ℤ) → s ≡ p → p +ℤ f ≡ r → g ≡ f → pos 0 +ℤ s ≡ r -ℤ g
    total s p f r g a b c = rw (a, ← b, c) (back p f)
      where
        back : (x y : ℤ) → pos 0 +ℤ x ≡ (x +ℤ y) -ℤ y
        back x y = omega int_laws
