-- ===== src/Double.antt =====
-- `double` as an interface. The C conversions and operations that the source uses are fields, and
-- no law is asked of them here: a theorem over it holds for IEEE arithmetic and for any other, and
-- one that needs a law of the comparison has it as a hypothesis.
use simplepool.Prelude.{ℕ, ◌+◌, ◌-◌, ◌*◌, ◌/◌, Bool, ltb, leb}
use simplepool.Prelude.Int.{ℤ, pos, pos_part, neg_part, sub_ℕ}

pub record DoubleOps : Type 1 where
  pub Double : Type 0
  -- `(double)n` and `(int64_t)d`, which truncates.
  pub of_ℤ : ℤ → Double
  pub to_ℤ : Double → ℤ
  pub mul : Double → Double → Double
  pub div : Double → Double → Double
  pub sub : Double → Double → Double
  -- `HUGE_VAL` and `isfinite`.
  pub infinity : Double
  pub is_finite : Double → Bool
  -- `a < b` and `a <= b`, false where an operand is no number.
  pub lt : Double → Double → Bool
  pub le : Double → Double → Bool

-- Exact fractions, as an instance that runs: a signed numerator over a denominator, which is 0
-- for infinity.
pub record Fraction : Type 0 where
  pub num : ℤ
  pub den : ℕ

abbrev scale : ℤ → ℕ → ℤ
scale z k = sub_ℕ (pos_part z * k) (neg_part z * k)

abbrev times : ℤ → ℤ → ℤ
times a b =
    sub_ℕ (pos_part a * pos_part b + neg_part a * neg_part b)
      (pos_part a * neg_part b + neg_part a * pos_part b)

abbrev pub fractions : DoubleOps
fractions = record {
  Double = Fraction;
  of_ℤ = λ z. record { num = z; den = 1 };
  to_ℤ = λ q. sub_ℕ (pos_part q.num / q.den) (neg_part q.num / q.den);
  mul = λ p q. record { num = times p.num q.num; den = p.den * q.den };
  div = λ p q. record {
    num = sub_ℕ (pos_part p.num * q.den) (neg_part p.num * q.den);
    den = p.den * pos_part q.num;
  };
  sub = λ p q. record {
    num =
        sub_ℕ (pos_part p.num * q.den + neg_part q.num * p.den)
          (neg_part p.num * q.den + pos_part q.num * p.den);
    den = p.den * q.den;
  };
  infinity = record { num = pos 1; den = 0 };
  is_finite = λ q. ltb 0 q.den;
  lt = λ p q.
      ltb (pos_part p.num * q.den + neg_part q.num * p.den)
        (pos_part q.num * p.den + neg_part p.num * q.den);
  le = λ p q.
      leb (pos_part p.num * q.den + neg_part q.num * p.den)
        (pos_part q.num * p.den + neg_part p.num * q.den);
}

-- Whole numbers, as an instance in which a division truncates.
abbrev pub whole : DoubleOps
whole = record {
  Double = ℕ;
  of_ℤ = pos_part;
  to_ℤ = pos;
  mul = λ a b. a * b;
  div = λ a b. a / b;
  sub = λ a b. a - b;
  infinity = 1000000000000;
  is_finite = λ a. ltb a 1000000000000;
  lt = ltb;
  le = leb;
}
