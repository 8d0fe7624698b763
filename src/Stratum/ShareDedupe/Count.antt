-- ===== src/Stratum/ShareDedupe/Count.antt =====
-- How many slots of the index of src/stratum.c are taken.
use simplepool.Prelude.{
  ℕ, zero, suc, ◌+◌, ◌≤◌, ◌<◌, ◌≡◌, ◌≢◌, refl, ap, subst, inl, inr, arith, ◌==◌, if◌then◌else◌,
  Bool-cases, ==_iff, ==_refl,
}
use simplepool.Stratum.ShareDedupe.{Array, write, live}

abbrev pub taken : ℕ → ℕ
taken v = if v == 0 then 0 else 1

pub write_self : (t : Array) (i v : ℕ) → write t i v i ≡ v
unfolding write
write_self t i v = rw (==_refl i)

pub write_ne : (t : Array) (i j v : ℕ) → i ≢ j → write t i v j ≡ t j
unfolding write
write_ne t i j v ne = elim (Bool-cases (i == j)) [
  | inl e ↦ absurd (ne ((==_iff i j).0 e))
  | inr e ↦ rw e
]

live-write_above : (n : ℕ) (t : Array) (i v : ℕ) → n ≤ i → live n (write t i v) ≡ live n t
unfolding live
live-write_above zero t i v above = refl
live-write_above (suc n) t i v above =
    rw (live-write_above n t i v (omega arith), write_ne t i n v (λ e. absurd (omega arith)))

pub live-write :
    (n : ℕ) (t : Array) (i v : ℕ) → i < n → live n (write t i v) + taken (t i) ≡ live n t + taken v
unfolding live
live-write zero t i v lt = absurd (omega arith)
live-write (suc n) t i v lt = elim (Bool-cases (i == n)) [
  | inl e ↦
      let same : i ≡ n = (==_iff i n).0 e in
      let rest = live-write_above n t i v (omega arith) in
      let there : write t i v n ≡ v =
        subst (λ (k : ℕ). write t i v k ≡ v) same (write_self t i v) in
      let old : t i ≡ t n = ap t same in rw (there, old, rest) (omega arith)
  | inr e ↦
      let other : i ≢ n = λ same. absurd (ground arith) in
      rw (write_ne t i n v other) (omega (arith, live-write n t i v (ground arith)))
]

-- A slot is free where fewer are taken than there are.
pub live-gap : (n : ℕ) (t : Array) → live n t < n → (z : ℕ) × (z < n) × (t z ≡ 0)
unfolding live
live-gap zero t few = absurd (omega arith)
live-gap (suc n) t few = elim (Bool-cases (t n == 0)) [
  | inl e ↦ (n, omega arith, (==_iff (t n) 0).0 e)
  | inr e ↦ let (z, lt, free) = live-gap n t (ground arith) in (z, omega arith, free)
]

pub live-empty : (n : ℕ) → live n (λ _. 0) ≡ 0
unfolding live
live-empty zero = refl
live-empty (suc n) = rw (live-empty n)
