-- ===== src/Stratum/ShareDedupe/Cyclic.antt =====
-- Distances round the index of src/stratum.c: how many steps of `next_slot` lead from one slot to
-- another.
use native.Mathlib.Nat.{mod-eq_of_lt, mod_self, one-le-pow, div-lt_iff_lt-mul, mul_assoc, pow-suc}
use simplepool.Prelude.{
  ℕ, zero, suc, ◌+◌, ◌-◌, ◌*◌, ◌%◌, ◌^◌, ◌≤◌, ◌<◌, ◌≡◌, ap, subst, ◌∙◌, inl, inr, arith, leb, ◌==◌,
  if◌then◌else◌, Bool-cases,
}
use simplepool.Stratum.ShareDedupe.{slots, dd_home, next_slot}

-- From `i` forward to `j`, in a circle of `n` slots.
abbrev pub dist : ℕ → ℕ → ℕ → ℕ
dist n i j = if leb i j then j - i else j + n - i

abbrev pub succ_mod : ℕ → ℕ → ℕ
succ_mod n i = if suc i == n then 0 else suc i

pub add_one-mod : (n i : ℕ) → i < n → (i + 1) % n ≡ succ_mod n i
add_one-mod n i lt = elim (Bool-cases (suc i == n)) [
  | inl e ↦ let at_end : i + 1 ≡ n = ground arith in rw e (ap (λ k. k % n) at_end ∙ mod_self n)
  | inr e ↦
      let inside : i + 1 < n = ground arith in
      let same : i + 1 ≡ suc i = omega arith in rw e (mod-eq_of_lt inside ∙ same)
]

pub next_slot_lem : (b i : ℕ) → i < slots b → next_slot b i ≡ succ_mod (slots b) i
unfolding next_slot
next_slot_lem b i lt = add_one-mod (slots b) i lt

pub next_slot-lt : (b i : ℕ) → i < slots b → next_slot b i < slots b
next_slot-lt b i lt = rw (next_slot_lem b i lt) (ground arith)

pow-add : (a c : ℕ) → 2 ^ (a + c) ≡ 2 ^ a * 2 ^ c
pow-add a zero = let same : a + 0 ≡ a = omega arith in rw same (omega arith)
pow-add a (suc c) =
    let shifted : a + suc c ≡ suc (a + c) = omega arith in
    rw (shifted, pow-suc 2 (a + c), pow-suc 2 c, pow-add a c) (mul_assoc (2 ^ a) (2 ^ c) 2)

pub dd_home-lt-slots : (b h : ℕ) → b ≤ 64 → dd_home b h < slots b
unfolding dd_home slots
dd_home-lt-slots b h fits =
    let bound : h * 0x9E3779B97F4A7C15 % 2 ^ 64 < 2 ^ 64 = omega arith in
    let whole : 64 ≡ b + (64 - b) = omega arith in
    let split : 2 ^ 64 ≡ 2 ^ b * 2 ^ (64 - b) = ap (λ (k : ℕ). 2 ^ k) whole ∙ pow-add b (64 - b) in
    let low : 0 < 2 ^ (64 - b) = one-le-pow (64 - b) 2 (omega arith) in
    (div-lt_iff_lt-mul low).1 (subst (λ (w : ℕ). h * 0x9E3779B97F4A7C15 % 2 ^ 64 < w) split bound)
