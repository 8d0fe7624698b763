-- ===== src/Window/Marked.antt =====
-- The `paid_payee` marks of src/coinbase.c while the payment loop runs.
use simplepool.Prelude.{
  ℕ, suc, ◌+◌, ◌≡◌, refl, sym, ap, ap₂, ◌∙◌, Bool, true, false, Option, some, List, [], ◌∷◌, ◌++◌,
  map, arith, if◌then◌else◌, length, length-append, set, replicate, append-nil,
}
use mathlib.Core.List.{map-append}
use simplepool.Prelude.Int.{ℤ}
use simplepool.Window.{Payee, ReplOut, Filling, script_of}

unfoldable pub selected : List Payee → List Bool → List Payee
selected [] bits = []
selected (pe ∷ pes) [] = []
selected (pe ∷ pes) (b ∷ bits) = if b then pe ∷ selected pes bits else selected pes bits

pub one_if : Bool → Payee → List Payee
one_if b pe = if b then pe ∷ [] else []

pub selected-snoc :
    (pes : List Payee) (bits : List Bool) (pe : Payee) (b : Bool) (rest : List Bool)
    → length bits ≡ length pes
    → selected (pes ++ (pe ∷ [])) (bits ++ (b ∷ rest)) ≡ selected pes bits ++ one_if b pe
unfolding selected one_if
selected-snoc [] [] pe b rest e = ground arith
selected-snoc [] (c ∷ bits) pe b rest e = absurd (omega arith)
selected-snoc (p ∷ pes) [] pe b rest e = absurd (omega arith)
selected-snoc (p ∷ pes) (true ∷ bits) pe b rest e =
    ap (◌∷◌ p) (selected-snoc pes bits pe b rest (omega arith))
selected-snoc (p ∷ pes) (false ∷ bits) pe b rest e = selected-snoc pes bits pe b rest (omega arith)

-- Bits past the payees are not read.
pub selected-prefix :
    (pes : List Payee) (bits rest : List Bool)
    → length bits ≡ length pes
    → selected pes (bits ++ rest) ≡ selected pes bits
unfolding selected
selected-prefix [] [] rest e = refl
selected-prefix [] (c ∷ bits) rest e = absurd (omega arith)
selected-prefix (p ∷ pes) [] rest e = absurd (omega arith)
selected-prefix (p ∷ pes) (true ∷ bits) rest e =
    ap (◌∷◌ p) (selected-prefix pes bits rest (omega arith))
selected-prefix (p ∷ pes) (false ∷ bits) rest e = selected-prefix pes bits rest (omega arith)

-- Setting the first free bit.
pub set-next :
    (bits : List Bool) (m : ℕ)
    → set (bits ++ replicate (suc m) false) (length bits) true
      ≡ (bits ++ (true ∷ [])) ++ replicate m false
set-next [] m = refl
set-next (b ∷ bits) m = ap (◌∷◌ b) (set-next bits m)

pub keep-next :
    (bits : List Bool) (m : ℕ)
    → bits ++ replicate (suc m) false ≡ (bits ++ (false ∷ [])) ++ replicate m false
keep-next [] m = refl
keep-next (b ∷ bits) m = ap (◌∷◌ b) (keep-next bits m)

abbrev pub scripts : (List ℕ → List ℕ) → List Payee → List (Option (List ℕ))
scripts sha256 pes = map (λ (pe : Payee). script_of sha256 pe.address) pes

abbrev pub paid_scripts : List ReplOut → List (Option (List ℕ))
paid_scripts outs = map (λ (o : ReplOut). some o.spk) outs

abbrev pub claims : List Payee → List ℤ
claims pes = map (λ (pe : Payee). pe.sats) pes

abbrev pub amounts : List ReplOut → List ℤ
amounts outs = map (λ (o : ReplOut). o.sats) outs

-- The loop after the payees `before`, with `left` bits of the array to go.
pub record Marked (sha256 : List ℕ → List ℕ) (before : List Payee) (left : ℕ) (st : Filling)
    : Type 0 where
  pub bits : List Bool
  pub array : st.res.paid_payee ≡ bits ++ replicate left false
  pub width : length bits ≡ length before
  pub paid : paid_scripts st.outs ≡ scripts sha256 (selected before bits)
  pub worth : amounts st.outs ≡ claims (selected before bits)

pub one_more : (before : List Payee) (pe : Payee) → length (before ++ (pe ∷ [])) ≡ length before + 1
one_more before pe = length-append before (pe ∷ [])

module _ (sha256 : List ℕ → List ℕ) (before : List Payee) (pe : Payee) (m : ℕ) (st : Filling) where
  pub skip-Marked :
      (st' : Filling)
      → st'.outs ≡ st.outs
      → st'.res.paid_payee ≡ st.res.paid_payee
      → Marked sha256 before (suc m) st
      → Marked sha256 (before ++ (pe ∷ [])) m st'
  unfolding one_if
  skip-Marked st' same marks v =
      let last = selected-snoc before v.bits pe false [] v.width ∙ append-nil _ in
      record {
        bits = v.bits ++ (false ∷ []);
        array = marks ∙ v.array ∙ keep-next v.bits m;
        width =
            omega
              (arith, v.width, length-append v.bits (false ∷ []), length-append before (pe ∷ []));
        paid = ap paid_scripts same ∙ v.paid ∙ sym (ap (scripts sha256) last);
        worth = ap amounts same ∙ v.worth ∙ sym (ap claims last);
      }

  pub pay-Marked :
      (spk : List ℕ) (st' : Filling)
      → script_of sha256 pe.address ≡ some spk
      → st'.outs ≡ st.outs ++ (record { spk = spk; sats = pe.sats } ∷ [])
      → st'.res.paid_payee ≡ set st.res.paid_payee (length before) true
      → Marked sha256 before (suc m) st
      → Marked sha256 (before ++ (pe ∷ [])) m st'
  unfolding one_if
  pay-Marked spk st' good grown marks v =
      let last = selected-snoc before v.bits pe true [] v.width in
      let new : ReplOut = record { spk = spk; sats = pe.sats } in
      record {
        bits = v.bits ++ (true ∷ []);
        array = marks ∙ ap₂ (λ xs i. set xs i true) v.array (sym v.width) ∙ set-next v.bits m;
        width =
            omega
              (arith, v.width, length-append v.bits (true ∷ []), length-append before (pe ∷ []));
        paid =
            ap paid_scripts grown
            ∙ map-append (λ (o : ReplOut). some o.spk) st.outs (new ∷ [])
            ∙ ap₂ ◌++◌ v.paid (ap (λ s. s ∷ []) (sym good))
            ∙ sym (
                map-append (λ (p : Payee). script_of sha256 p.address) (selected before v.bits)
                  (pe ∷ []))
            ∙ sym (ap (scripts sha256) last);
        worth =
            ap amounts grown
            ∙ map-append (λ (o : ReplOut). o.sats) st.outs (new ∷ [])
            ∙ ap₂ ◌++◌ v.worth refl
            ∙ sym (map-append (λ (p : Payee). p.sats) (selected before v.bits) (pe ∷ []))
            ∙ sym (ap claims last);
      }
