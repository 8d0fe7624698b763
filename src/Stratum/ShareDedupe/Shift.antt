-- ===== src/Stratum/ShareDedupe/Shift.antt =====
-- The second loop of `dd_index_remove` of src/stratum.c: the keys that the hole would cut off move
-- back.
use simplepool.Prelude.{
  ℕ, suc, ◌+◌, ◌≤◌, ◌<◌, ◌≡◌, ◌≢◌, ap, sym, subst, ◌∙◌, inl, inr, true, ◌⊎◌, arith, ◌==◌, ltb,
  ltb→lt, ltb→ge, Bool-cases, ==_iff,
}
use simplepool.Stratum.ShareDedupe.{Array, write, slots, dd_home, next_slot, dd_home_between, live}
use simplepool.Stratum.ShareDedupe.Cyclic.{
  dist, succ_mod, next_slot_lem, next_slot-lt, dd_home-lt-slots,
}
use simplepool.Stratum.ShareDedupe.Probe.{Chained}
use simplepool.Stratum.ShareDedupe.Count.{write_self, write_ne, live-write}

-- The test of the loop in terms of distances: the home lies after the hole, on the way to `j`.
pub dd_home_between_lem :
    (n i o j : ℕ)
    → i < n
    → o < n
    → j < n
    → i ≢ j
    → dd_home_between i o j ≡ ltb (dist n o j) (dist n i j)
unfolding dd_home_between
dd_home_between_lem n i o j p q r ne = ground arith

on_the_way :
    (n o i k : ℕ)
    → o < n
    → i < n
    → k < n
    → dist n o i < dist n o k
    → dist n o i + dist n i k ≡ dist n o k
on_the_way n o i k p q r lt = ground arith

pub beyond :
    (n o i k : ℕ)
    → o < n
    → i < n
    → k < n
    → dist n i k ≤ dist n o k
    → dist n o i + dist n i k ≡ dist n o k
beyond n o i k p q r le = ground arith

-- The next slot, where it is not the hole.
further :
    (n i j : ℕ) → i < n → j < n → succ_mod n j ≢ i → dist n i (succ_mod n j) ≡ suc (dist n i j)
further n i j p q ne = ground arith

pub same_place : (n i k j : ℕ) → i < n → k < n → j < n → dist n i k ≡ dist n i j → k ≡ j
same_place n i k j p q r e = ground arith

pub last_of_all : (n i j z : ℕ) → i < n → j < n → z < n → succ_mod n j ≡ i → dist n i z ≤ dist n i j
last_of_all n i j z p q r e = ground arith

passing :
    (n o i e k : ℕ)
    → o < n
    → i < n
    → e < n
    → k < n
    → dist n o i < dist n o k
    → dist n i e ≤ dist n i k
    → k ≢ e
    → dist n o e < dist n o k
passing n o i e k p q r s lt le ne = ground arith

-- The table while `i` is the hole, which still holds a key that has moved or goes, and `j` is the
-- slot that was looked at last.
pub record IsHollow (b : ℕ) (t : Array) (i j : ℕ) : Type 0 where
  pub hole_taken : t i ≢ 0
  pub others_chained :
      (k m : ℕ)
      → k < slots b
      → m < slots b
      → k ≢ i
      → t k ≢ 0
      → dist (slots b) (dd_home b (t k)) m < dist (slots b) (dd_home b (t k)) k
      → t m ≢ 0
  pub scanned_taken :
      (k : ℕ) → k < slots b → k ≢ i → dist (slots b) i k ≤ dist (slots b) i j → t k ≢ 0
  pub scanned_after :
      (k : ℕ)
      → k < slots b
      → k ≢ i
      → dist (slots b) i k ≤ dist (slots b) i j
      → dist (slots b) (dd_home b (t k)) k < dist (slots b) i k
  pub others_distinct :
      (k l : ℕ) → k < slots b → l < slots b → k ≢ i → l ≢ i → t k ≢ 0 → t k ≡ t l → k ≡ l

-- The table `t'` holds the keys of `t` but that at `i`.
pub record IsWithout (b : ℕ) (t : Array) (i : ℕ) (t' : Array) : Type 0 where
  pub chained : Chained b t'
  pub distinct : (k l : ℕ) → k < slots b → l < slots b → t' k ≢ 0 → t' k ≡ t' l → k ≡ l
  pub kept : (k : ℕ) → k < slots b → k ≢ i → t k ≢ 0 → (l : ℕ) × (l < slots b) × (t' l ≡ t k)
  pub only : (l : ℕ) → l < slots b → t' l ≢ 0 → (k : ℕ) × (k < slots b) × (k ≢ i) × (t k ≡ t' l)
  pub fewer : live (slots b) t' + 1 ≡ live (slots b) t

pub left_over : (t : Array) (i k : ℕ) → write t i 0 k ≢ 0 → (k ≢ i) × (write t i 0 k ≡ t k)
left_over t i k there = elim (Bool-cases (k == i)) [
  | inl e ↦ absurd (there (ap (write t i 0) ((==_iff k i).0 e) ∙ write_self t i 0))
  | inr e ↦
      let ne : k ≢ i = λ same. absurd (ground arith) in
      (ne, write_ne t i k 0 (λ same. ne (sym same)))
]

module _ (b : ℕ) (fits : b ≤ 64) (t : Array) (i j : ℕ) (it : i < slots b) (jt : j < slots b) where
  -- The loop ends at an empty slot: no other key was put where it is by way of the hole.
  Hole-unused :
      IsHollow b t i j
      → t (next_slot b j) ≡ 0
      → (k : ℕ) → k < slots b
      → k ≢ i
      → t k ≢ 0
      → dist (slots b) (dd_home b (t k)) k ≤ dist (slots b) (dd_home b (t k)) i
  Hole-unused hollow ends k kt ne there =
      let n : ℕ = slots b in
      let o : ℕ = dd_home b (t k) in
      let ot : o < n = dd_home-lt-slots b (t k) fits in
      elim (Bool-cases (ltb (dist n o i) (dist n o k))) [
        | inr e ↦ ltb→ge (dist n o i) (dist n o k) e
        | inl e ↦
            let via : dist n o i < dist n o k = ltb→lt _ _ e in
            let along = on_the_way n o i k ot it kt via in
            elim (Bool-cases (ltb (dist n i j) (dist n i k))) [
              | inr near ↦
                  let after =
                    hollow.scanned_after k kt ne (ltb→ge (dist n i j) (dist n i k) near) in
                  absurd (omega (arith, along, after))
              | inl far ↦
                  let e' : ℕ = succ_mod n j in
                  let step = next_slot_lem b j jt in
                  let empty : t e' ≡ 0 = rw step at ends in
                  let et : e' < n = rw step at (next_slot-lt b j jt) in
                  let apart : e' ≢ i = λ same. hollow.hole_taken (sym (ap t same) ∙ empty) in
                  let one_on = further n i j it jt apart in
                  let past : k ≢ e' = λ same. there (ap t same ∙ empty) in
                  let between : dist n o e' < dist n o k =
                    passing n o i e' k ot it et kt via
                      (subst (λ (d : ℕ). d ≤ dist n i k) (sym one_on) (ltb→lt _ _ far)) past in
                  absurd (hollow.others_chained k e' kt et ne there between empty)
            ]
      ]

  pub IsWithout-end : IsHollow b t i j → t (next_slot b j) ≡ 0 → IsWithout b t i (write t i 0)
  IsWithout-end hollow ends = record {
    chained = λ k m kt mt there near.
        let (ne, old) = left_over t i k there in
        let there' : t k ≢ 0 = λ e. there (old ∙ e) in
        let near' = rw old at near in
        let unused = Hole-unused hollow ends k kt ne there' in
        let other : i ≢ m = λ same. absurd (ground (arith, near', unused, same)) in
        λ gone.
          hollow.others_chained k m kt mt ne there' near' (sym (write_ne t i m 0 other) ∙ gone);
    distinct = λ k l kt lt there same.
        let (ne, old) = left_over t i k there in
        let (ne', old') = left_over t i l (λ e. there (same ∙ e)) in
        hollow.others_distinct k l kt lt ne ne' (λ e. there (old ∙ e)) (sym old ∙ same ∙ old');
    kept = λ k kt ne there. (k, kt, write_ne t i k 0 (λ e. ne (sym e)));
    only = λ l lt there. let (ne, old) = left_over t i l there in (l, lt, ne, sym old);
    fewer = ground (arith, live-write (slots b) t i 0 it, hollow.hole_taken);
  }

  -- The key at the next slot may stay.
  pub IsHollow-stay :
      IsHollow b t i j
      → next_slot b j ≢ i
      → t (next_slot b j) ≢ 0
      → dd_home_between i (dd_home b (t (next_slot b j))) (next_slot b j) ≡ true
      → IsHollow b t i (next_slot b j)
  IsHollow-stay hollow apart there between =
      let n : ℕ = slots b in
      let j' : ℕ = next_slot b j in
      let jt' : j' < n = next_slot-lt b j jt in
      let step : j' ≡ succ_mod n j = next_slot_lem b j jt in
      let one_on : dist n i j' ≡ suc (dist n i j) =
        rw step (further n i j it jt (λ e. apart (step ∙ e))) in
      let after : dist n (dd_home b (t j')) j' < dist n i j' = ltb→lt _ _ (
        sym (
          dd_home_between_lem n i (dd_home b (t j')) j' it (dd_home-lt-slots b (t j') fits) jt'
            (λ e. apart (sym e)))
        ∙ between) in
      let last : (k : ℕ) → k < n → dist n i k ≤ dist n i j' → (dist n i k ≤ dist n i j) ⊎ (k ≡ j') =
        λ k kt le. elim (Bool-cases (ltb (dist n i j) (dist n i k))) [
          | inr e ↦ inl (ltb→ge (dist n i j) (dist n i k) e)
          | inl e ↦
              let lt : dist n i j < dist n i k = ltb→lt _ _ e in
              inr (same_place n i k j' it kt jt' (omega (arith, one_on, lt, le)))
        ] in
      record {
        hole_taken = hollow.hole_taken;
        others_chained = hollow.others_chained;
        scanned_taken = λ k kt ne le. elim (last k kt le) [
          | inl near ↦ hollow.scanned_taken k kt ne near
          | inr same ↦ λ e. there (ap t (sym same) ∙ e)
        ];
        scanned_after = λ k kt ne le. elim (last k kt le) [
          | inl near ↦ hollow.scanned_after k kt ne near
          | inr same ↦ subst (λ (m : ℕ). dist n (dd_home b (t m)) m < dist n i m) (sym same) after
        ];
        others_distinct = hollow.others_distinct;
      }
