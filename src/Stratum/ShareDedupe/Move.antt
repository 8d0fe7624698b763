-- ===== src/Stratum/ShareDedupe/Move.antt =====
-- The second loop of `dd_index_remove` of src/stratum.c, where a key moves into the hole.
use simplepool.Prelude.{
  ℕ, ◌≤◌, ◌<◌, ◌≡◌, ◌≢◌, ap, sym, subst, ◌∙◌, inl, inr, false, arith, ◌==◌, ltb→ge, if◌then◌else◌,
  Bool-cases, ==_iff,
}
use simplepool.Stratum.ShareDedupe.{Array, write, slots, dd_home, next_slot, dd_home_between}
use simplepool.Stratum.ShareDedupe.Cyclic.{dist, next_slot-lt, dd_home-lt-slots}
use simplepool.Stratum.ShareDedupe.Count.{write_self, write_ne, live-write}
use simplepool.Stratum.ShareDedupe.Shift.{
  IsHollow, IsWithout, dd_home_between_lem, beyond, same_place,
}

-- Where the key at `k` stood before that of `j` moved to `i`.
abbrev pub origin : ℕ → ℕ → ℕ → ℕ
origin i j k = if k == i then j else k

origin-key : (t : Array) (i j k : ℕ) → t (origin i j k) ≡ write t i (t j) k
origin-key t i j k = elim (Bool-cases (k == i)) [
  | inl e ↦ rw e (sym (ap (write t i (t j)) ((==_iff k i).0 e) ∙ write_self t i (t j)))
  | inr e ↦ rw e (sym (write_ne t i k (t j) (λ s. absurd (ground arith))))
]

module _ (b : ℕ) (fits : b ≤ 64) (t : Array) (i j : ℕ) (it : i < slots b) (jt : j < slots b) where
  still_taken : (j' : ℕ) → t j' ≢ 0 → (m : ℕ) → t m ≢ 0 → write t i (t j') m ≢ 0
  still_taken j' there m full = elim (Bool-cases (m == i)) [
    | inl e ↦
        λ z. there (sym (ap (write t i (t j')) ((==_iff m i).0 e) ∙ write_self t i (t j')) ∙ z)
    | inr e ↦ λ z. full (sym (write_ne t i m (t j') (λ s. absurd (ground arith))) ∙ z)
  ]

  moved_distinct :
      IsHollow b t i j
      → (j' k l : ℕ) → j' < slots b
      → j' ≢ i
      → k < slots b
      → l < slots b
      → k ≢ j'
      → l ≢ j'
      → write t i (t j') k ≢ 0
      → write t i (t j') k ≡ write t i (t j') l
      → k ≡ l
  moved_distinct hollow j' k l jt' apart kt lt ne ne' full same =
      let before : t (origin i j' k) ≡ t (origin i j' l) =
        origin-key t i j' k ∙ same ∙ sym (origin-key t i j' l) in
      let full' : t (origin i j' k) ≢ 0 = λ e. full (sym (origin-key t i j' k) ∙ e) in
      ground (
        arith,
        hollow.others_distinct (origin i j' k) (origin i j' l) (ground arith) (ground arith)
            (ground arith) (ground arith) full' before,
      )

  moved_chained :
      IsHollow b t i j
      → (j' k m : ℕ) → j' < slots b
      → j' ≢ i
      → t j' ≢ 0
      → dd_home_between i (dd_home b (t j')) j' ≡ false
      → k < slots b
      → m < slots b
      → write t i (t j') k ≢ 0
      → dist (slots b) (dd_home b (write t i (t j') k)) m
        < dist (slots b) (dd_home b (write t i (t j') k)) k
      → t m ≢ 0
  moved_chained hollow j' k m jt' apart there between kt mt full near =
      let n : ℕ = slots b in
      let o : ℕ = dd_home b (t j') in
      let ot : o < n = dd_home-lt-slots b (t j') fits in
      let shift : ℕ → Type 0 = λ v. dist n (dd_home b v) m < dist n (dd_home b v) k in
      elim (Bool-cases (k == i)) [
        | inl e ↦
            let at_hole : k ≡ i = (==_iff k i).0 e in
            let key = ap (write t i (t j')) at_hole ∙ write_self t i (t j') in
            let outside : dist n i j' ≤ dist n o j' =
              ltb→ge (dist n o j') (dist n i j')
                (sym (dd_home_between_lem n i o j' it ot jt' (λ s. apart (sym s))) ∙ between) in
            let along = beyond n o i j' ot it jt' outside in
            let near' : dist n o m < dist n o i =
              subst (λ (p : ℕ). dist n o m < dist n o p) at_hole (subst shift key near) in
            hollow.others_chained j' m jt' mt apart there (omega (arith, along, near'))
        | inr e ↦
            let other : k ≢ i = λ s. absurd (ground arith) in
            let key = write_ne t i k (t j') (λ s. other (sym s)) in
            hollow.others_chained k m kt mt other (λ z. full (key ∙ z)) (subst shift key near)
      ]

  -- It moves back, and its slot becomes the hole.
  pub IsHollow-move :
      IsHollow b t i j
      → next_slot b j ≢ i
      → t (next_slot b j) ≢ 0
      → dd_home_between i (dd_home b (t (next_slot b j))) (next_slot b j) ≡ false
      → IsHollow b (write t i (t (next_slot b j))) (next_slot b j) (next_slot b j)
  IsHollow-move hollow apart there between =
      let n : ℕ = slots b in
      let j' : ℕ = next_slot b j in
      let jt' : j' < n = next_slot-lt b j jt in
      record {
        hole_taken = λ e. there (sym (write_ne t i j' (t j') (λ s. apart (sym s))) ∙ e);
        others_chained = λ k m kt mt ne full near.
            still_taken j' there m
              (moved_chained hollow j' k m jt' apart there between kt mt full near);
        scanned_taken = λ k kt ne le. absurd (ground (arith, same_place n j' k j' jt' kt jt'));
        scanned_after = λ k kt ne le. absurd (ground (arith, same_place n j' k j' jt' kt jt'));
        others_distinct = λ k l kt lt ne ne' full same.
            moved_distinct hollow j' k l jt' apart kt lt ne ne' full same;
      }

  -- A move changes no key but that at the hole.
  pub IsWithout-move :
      t (next_slot b j) ≢ 0
      → t i ≢ 0
      → next_slot b j ≢ i
      → (t'' : Array) → IsWithout b (write t i (t (next_slot b j))) (next_slot b j) t''
      → IsWithout b t i t''
  IsWithout-move there hole apart t'' w =
      let j' : ℕ = next_slot b j in
      let jt' : j' < slots b = next_slot-lt b j jt in
      let t' : Array = write t i (t j') in
      record {
        chained = w.chained;
        distinct = w.distinct;
        kept = λ k kt ne full. elim (Bool-cases (k == j')) [
          | inl e ↦
              let there' : t' i ≡ t k = write_self t i (t j') ∙ ap t (sym ((==_iff k j').0 e)) in
              let (l, lt, same) = w.kept i it (λ s. apart (sym s)) (λ z. full (sym there' ∙ z)) in
              (l, lt, same ∙ there')
          | inr e ↦
              let there' : t' k ≡ t k = write_ne t i k (t j') (λ s. ne (sym s)) in
              let (l, lt, same) =
                w.kept k kt (λ s. absurd (ground arith)) (λ z. full (sym there' ∙ z)) in
              (l, lt, same ∙ there')
        ];
        only = λ l lt full.
            let (k, kt, ne, same) = w.only l lt full in
            (origin i j' k, ground arith, ground arith, origin-key t i j' k ∙ same);
        fewer = ground (arith, live-write (slots b) t i (t j') it, w.fewer);
      }
