-- ===== src/Prelude/Bits.antt =====
-- `|` of fields that share no bit is a sum: what `v |= x << s` and `(x << s) | v` do when `v` lies
-- below `2 ^ s`.
use Prim.Native.Nat.{
  ℕ, zero, suc, ◌+◌, ◌*◌, ◌/◌, ◌^◌, ◌≤◌, ◌<◌, max, bit_or, digits, bit_or-bitwise,
}
use mathlib.Core.Path.{◌≡◌, ap, ◌∙◌}
use native.Mathlib.Nat.{pow-suc}
use native.Mathlib.Omega.{arith}

double_shift : (q s : ℕ) → q * 2 ^ suc s ≡ 2 * (q * 2 ^ s)
double_shift q s = omega (arith, ap (λ (t : ℕ). q * t) (pow-suc 2 s))

-- The high field on the right, on any fuel that covers the low one.
high_right :
    (fuel s low q : ℕ)
    → low ≤ fuel
    → low < 2 ^ s
    → digits (λ y. y) max fuel low (q * 2 ^ s) ≡ low + q * 2 ^ s
high_right zero s zero q enough fits = omega arith
high_right zero s (suc low) q enough fits = absurd (omega arith)
high_right (suc fuel) s zero q enough fits = omega arith
high_right (suc fuel) zero (suc low) q enough fits = absurd (omega arith)
high_right (suc fuel) (suc s) (suc low) q enough fits =
    let twice = double_shift q s in
    let half : q * 2 ^ suc s / 2 ≡ q * 2 ^ s = omega (arith, twice) in
    let ih = high_right fuel s (suc low / 2) q (omega arith) (omega (arith, pow-suc 2 s)) in
    rw half (omega (arith, ih, twice))

-- And on the left.
high_left :
    (fuel s high low q : ℕ)
    → high ≡ q * 2 ^ s
    → high ≤ fuel
    → low < 2 ^ s
    → digits (λ y. y) max fuel high low ≡ high + low
high_left zero s zero low q shape enough fits = omega arith
high_left zero s (suc high) low q shape enough fits = absurd (omega arith)
high_left (suc fuel) s zero low q shape enough fits = omega arith
high_left (suc fuel) zero (suc high) low q shape enough fits =
    let ih =
      high_left fuel zero (suc high / 2) (low / 2) (suc high / 2) (omega arith) (omega arith)
        (omega arith) in
    omega (arith, ih)
high_left (suc fuel) (suc s) (suc high) low q shape enough fits =
    let twice = double_shift q s in
    let ih =
      high_left fuel s (suc high / 2) (low / 2) q (omega (arith, twice)) (omega arith)
        (omega (arith, pow-suc 2 s)) in
    omega (arith, ih, twice)

pub bit_or-shifted : (s low q : ℕ) → low < 2 ^ s → bit_or low (q * 2 ^ s) ≡ low + q * 2 ^ s
bit_or-shifted s low q h = bit_or-bitwise low (q * 2 ^ s) ∙ high_right low s low q (omega arith) h

pub shifted_bit_or : (s q low : ℕ) → low < 2 ^ s → bit_or (q * 2 ^ s) low ≡ q * 2 ^ s + low
shifted_bit_or s q low h =
    bit_or-bitwise (q * 2 ^ s) low
    ∙ high_left (q * 2 ^ s) s (q * 2 ^ s) low q (omega arith) (omega arith) h
