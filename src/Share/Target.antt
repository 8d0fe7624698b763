-- ===== src/Share/Target.antt =====
-- `nbits_to_target` of src/share.c against the number that a compact target stands for.
use simplepool.Prelude.{
  ℕ, zero, suc, ◌+◌, ◌-◌, ◌*◌, ◌/◌, ◌%◌, ◌^◌, ◌≤◌, ◌<◌, ◌≡◌, refl, ap, ◌∙◌, sym, true, false, none,
  some, List, [], ◌∷◌, ◌++◌, arith, length, ltb, leb, if◌then◌else◌, replicate, set, lt→ltb,
  length-set, Bool-cases, leb→le, inl, inr,
}
use simplepool.Bytes.{add_size}
use simplepool.Share.{store_at, store_three, target_offset, store_mantissa, nbits_to_target}
use simplepool.Share.Compare.{be_from, be_value, be_from_zeros}

be_from-append : (xs ys : List ℕ) (v : ℕ) → be_from v (xs ++ ys) ≡ be_from (be_from v xs) ys
unfolding be_from
be_from-append [] ys v = refl
be_from-append (x ∷ xs) ys v = be_from-append xs ys (v * 256 + x)

set_three :
    (off n a b c : ℕ)
    → set (set (set (replicate (off + suc (suc (suc n))) 0) off a) (off + 1) b) (off + 2) c
      ≡ replicate off 0 ++ (a ∷ b ∷ c ∷ replicate n 0)
set_three zero n a b c = rw (nothing (suc (suc (suc n)))) refl
  where
    nothing : (k : ℕ) → 0 + k ≡ k
    nothing k = omega arith
set_three (suc off) n a b c =
    rw (shift off (suc (suc (suc n))), shift off 1, shift off 2)
      (ap (◌∷◌ 0) (set_three off n a b c))
  where
    shift : (k l : ℕ) → suc k + l ≡ suc (k + l)
    shift k l = omega arith

-- The bytes that the three stores leave, when they stay inside the 32.
abbrev with_mantissa : ℕ → ℕ → ℕ → List ℕ
with_mantissa off n v =
    replicate off 0 ++ ((v / 2 ^ 16 % 256) ∷ (v / 2 ^ 8 % 256) ∷ (v % 256) ∷ replicate n 0)

store_three-zeros :
    (off n v : ℕ)
    → off + suc (suc (suc n)) ≡ 32
    → store_three (replicate 32 0) off v ≡ some (with_mantissa off n v)
unfolding store_three store_at
store_three-zeros off n v h =
    let p : List ℕ = replicate 32 0 in
    let a = v / 2 ^ 16 % 256 in
    let b = v / 2 ^ 8 % 256 in
    let e1 : add_size off 1 ≡ off + 1 = omega arith in
    let e2 : add_size off 2 ≡ off + 2 = omega arith in
    let l0 : ltb off 32 ≡ true = lt→ltb off 32 (omega arith) in
    let l1 : ltb (off + 1) (length (set p off a)) ≡ true =
      lt→ltb _ _ (omega (arith, length-set p off a)) in
    let l2 : ltb (off + 2) (length (set (set p off a) (off + 1) b)) ≡ true =
      lt→ltb _ _ (omega (arith, length-set p off a, length-set (set p off a) (off + 1) b)) in
    rw (l0, e1, l1, e2, l2, store_three, store_at)
      (ap some (
        ap (λ (k : ℕ). set (set (set (replicate k 0) off a) (off + 1) b) (off + 2) (v % 256))
          (sym h)
        ∙ set_three off n a b (v % 256)))

with_mantissa-value : (off n v : ℕ) → v < 2 ^ 24 → be_value (with_mantissa off n v) ≡ v * 256 ^ n
unfolding be_value be_from
with_mantissa-value off n v h =
    let low : ℕ = ((0 * 256 ^ off) * 256 + v / 2 ^ 16 % 256) * 256 + v / 2 ^ 8 % 256 in
    be_from-append (replicate off 0) _ 0
    ∙ ap (λ (s : ℕ). be_from s ((v / 2 ^ 16 % 256) ∷ (v / 2 ^ 8 % 256) ∷ (v % 256) ∷ replicate n 0))
        (be_from_zeros off 0)
    ∙ be_from_zeros n (low * 256 + v % 256)
    ∙ ap (λ (k : ℕ). k * 256 ^ n) (omega arith)

store_mantissa-inside :
    (e m : ℕ) → 3 ≤ e → e ≤ 32 → store_mantissa e m ≡ some (with_mantissa (32 - e) (e - 3) m)
unfolding store_mantissa
store_mantissa-inside e m low high = elim (Bool-cases (leb e 3)) [
  | inl h ↦
      let three : e ≡ 3 = omega (arith, leb→le e 3 h) in
      rw (three) (
        store_three-zeros 29 0 (m / 1) (omega arith)
        ∙ ap (λ (k : ℕ). some (with_mantissa 29 0 k)) (omega arith))
  | inr h ↦
      let above : 3 < e = ground arith in
      let wrap : (2 ^ 64 + 32 - e) % 2 ^ 64 ≡ 32 - e = omega arith in
      let inside : leb (add_size (32 - e) 3) 32 ≡ true = ground arith in
      rw (h, wrap, inside) (store_three-zeros (32 - e) (e - 3) m (omega arith))
]

store_mantissa-outside :
    (e m : ℕ)
    → 33 ≤ e
    → e < 256
    → store_mantissa e m ≡ (if leb e 35 then none else some (replicate 32 0))
unfolding store_mantissa store_three store_at
store_mantissa-outside e m low high =
    let over : leb e 3 ≡ false = ground arith in
    elim (Bool-cases (leb e 35)) [
      | inl h ↦
          let near : e ≤ 35 = leb→le e 35 h in
          let inside : leb (add_size (target_offset e) 3) 32 ≡ true = ground arith in
          let far : ltb (target_offset e) 32 ≡ false = ground arith in
          rw (over, h, inside, store_three, store_at, far) refl
      | inr h ↦
          let beyond : 35 < e = ground arith in
          let kept : leb (add_size (target_offset e) 3) 32 ≡ false = ground arith in
          rw (over, h, kept) refl
    ]

-- A compact target whose exponent fits the 32 bytes: not negative, not zero, exponent 3 to 32.
-- Below 3 the mantissa loses its low bytes, as it does in the source.
abbrev pub exponent : ℕ → ℕ
exponent nbits = nbits / 2 ^ 24 % 256

abbrev pub mantissa : ℕ → ℕ
mantissa nbits = nbits % 2 ^ 23

-- A positive compact target with an exponent from 3 to 32 gives 32 bytes that spell, most
-- significant first, its mantissa times 256 to the exponent less three.
pub nbits_to_target-value :
    (nbits : ℕ)
    → nbits / 2 ^ 23 % 2 ≡ 0
    → 0 < mantissa nbits
    → 3 ≤ exponent nbits
    → exponent nbits ≤ 32
    → (t : List ℕ) × (nbits_to_target nbits ≡ some t)
      × (be_value t ≡ mantissa nbits * 256 ^ (exponent nbits - 3))
unfolding nbits_to_target
nbits_to_target-value nbits sign some_mantissa low high =
    let e = exponent nbits in
    let m = mantissa nbits in
    let inside = store_mantissa-inside e m low high in
    (
      with_mantissa (32 - e) (e - 3) m,
      ground (arith, inside),
      with_mantissa-value (32 - e) (e - 3) m (omega arith),
    )

-- With an exponent of 33, 34 or 35, and a mantissa that is positive, the offset has wrapped and
-- the store is refused: it lies before the array. From 36 on the target is zero.
pub nbits_to_target-outside :
    (nbits : ℕ)
    → nbits / 2 ^ 23 % 2 ≡ 0
    → 0 < mantissa nbits
    → 33 ≤ exponent nbits
    → nbits_to_target nbits ≡ (if leb (exponent nbits) 35 then none else some (replicate 32 0))
unfolding nbits_to_target
nbits_to_target-outside nbits sign some_mantissa high =
    ground (arith, store_mantissa-outside (exponent nbits) (mantissa nbits) high (omega arith))
