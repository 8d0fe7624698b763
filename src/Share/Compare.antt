-- ===== src/Share/Compare.antt =====
-- `be32_cmp` of src/share.c against the numbers that the bytes spell.
use simplepool.Prelude.{
  ℕ, zero, suc, ◌+◌, ◌*◌, ◌^◌, ◌<◌, ◌≡◌, ap, List, [], ◌∷◌, arith, length, All, ltb, if◌then◌else◌,
  replicate,
}
use simplepool.Bytes.{IsByte}
use simplepool.Share.{Order, be32_cmp}
use native.Mathlib.Nat.{pow-suc}

-- The number that big-endian bytes spell, read after `v`.
unfoldable pub be_from : ℕ → List ℕ → ℕ
be_from v [] = v
be_from v (x ∷ xs) = be_from (v * 256 + x) xs

unfoldable pub be_value : List ℕ → ℕ
unfolding be_from
be_value xs = be_from 0 xs

unfoldable pub compare_numbers : ℕ → ℕ → Order
compare_numbers a b = if ltb a b then Order.below else if ltb b a then Order.above else Order.same

-- What stands before the bytes decides.
be_from-lt :
    (as' bs : List ℕ) (v w : ℕ)
    → v < w
    → length as' ≡ length bs
    → All IsByte as'
    → be_from v as' < be_from w bs
unfolding be_from
be_from-lt [] [] v w h e k = h
be_from-lt [] (b ∷ bs) v w h e k = absurd (omega arith)
be_from-lt (a ∷ as') [] v w h e k = absurd (omega arith)
be_from-lt (a ∷ as') (b ∷ bs) v w h e k =
    let small : a < 256 = k.0 in be_from-lt as' bs _ _ (omega arith) (omega arith) k.1

cmp_from :
    (as' bs : List ℕ) (v : ℕ)
    → length as' ≡ length bs
    → All IsByte as'
    → All IsByte bs
    → be32_cmp as' bs ≡ compare_numbers (be_from v as') (be_from v bs)
unfolding be32_cmp be_from compare_numbers
cmp_from [] [] v e k l = ground arith
cmp_from [] (b ∷ bs) v e k l = absurd (omega arith)
cmp_from (a ∷ as') [] v e k l = absurd (omega arith)
cmp_from (a ∷ as') (b ∷ bs) v e k l = ground (
  arith,
  λ (h : a < b). be_from-lt as' bs (v * 256 + a) (v * 256 + b) (omega arith) (omega arith) k.1,
  λ (h : b < a). be_from-lt bs as' (v * 256 + b) (v * 256 + a) (omega arith) (omega arith) l.1,
  cmp_from as' bs (v * 256 + b) (omega arith) k.1 l.1,
)

-- For strings of bytes of one length, the byte-wise comparison is the comparison of the numbers
-- that they spell, most significant byte first.
pub be32_cmp_lem :
    (as' bs : List ℕ)
    → length as' ≡ length bs
    → All IsByte as'
    → All IsByte bs
    → be32_cmp as' bs ≡ compare_numbers (be_value as') (be_value bs)
unfolding be_value
be32_cmp_lem as' bs e k l = cmp_from as' bs 0 e k l

pub be_from_zeros : (n v : ℕ) → be_from v (replicate n 0) ≡ v * 256 ^ n
unfolding be_from
be_from_zeros zero v = omega arith
be_from_zeros (suc n) v =
    omega (arith, be_from_zeros n (v * 256 + 0), ap (λ (t : ℕ). v * t) (pow-suc 256 n))
