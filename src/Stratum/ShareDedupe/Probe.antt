-- ===== src/Stratum/ShareDedupe/Probe.antt =====
-- Probing in the index of src/stratum.c: what `dd_index_find` answers and where `dd_index_insert`
-- puts a key.
use simplepool.Prelude.{
  ℕ, zero, suc, ◌≤◌, ◌<◌, ◌≡◌, ◌≢◌, subst, ap, sym, ◌∙◌, inl, inr, Bool, true, false, Option, some,
  arith, ◌==◌, ltb, ltb→lt, ltb→ge, Bool-cases, ==_iff,
}
use simplepool.Stratum.ShareDedupe.{
  Array, slots, dd_home, next_slot, find_from, dd_index_find, empty_from,
}
use simplepool.Stratum.ShareDedupe.Cyclic.{
  dist, succ_mod, next_slot_lem, next_slot-lt, dd_home-lt-slots,
}

-- Every slot between the home of a key and the key is taken.
abbrev pub Chained : ℕ → Array → Type 0
Chained b t =
    (k m : ℕ)
    → k < slots b
    → m < slots b
    → t k ≢ 0
    → dist (slots b) (dd_home b (t k)) m < dist (slots b) (dd_home b (t k)) k
    → t m ≢ 0

abbrev pub Absent : ℕ → Array → ℕ → Type 0
Absent b t h = (k : ℕ) → k < slots b → t k ≢ h

pub data IsFound (b : ℕ) (t : Array) (h : ℕ) : Option Bool → Type 0 where
  found : (k : ℕ) → k < slots b → t k ≡ h → IsFound b t h (some true)
  absent : Absent b t h → IsFound b t h (some false)

-- The slot before the first empty one takes one step less to reach it.
pub dist-next : (n i z : ℕ) → i < n → z < n → i ≢ z → dist n i z ≡ suc (dist n (succ_mod n i) z)
dist-next n i z p q ne = ground arith

-- The slots that are passed when `i` is left are those passed before it, and `i`.
pub passed-next :
    (n o i m : ℕ)
    → o < n
    → i < n
    → m < n
    → dist n o m < dist n o (succ_mod n i)
    → m ≢ i
    → dist n o m < dist n o i
passed-next n o i m p q r lt ne = ground arith

nearer :
    (n o i k : ℕ)
    → o < n
    → i < n
    → k < n
    → i ≢ k
    → dist n o i ≤ dist n o k
    → dist n o i < dist n o k
nearer n o i k p q r ne le = ground arith

-- A key that was not met before the first empty slot is nowhere.
Absent-empty :
    (b : ℕ) (t : Array) (h i : ℕ)
    → b ≤ 64
    → h ≢ 0
    → Chained b t
    → i < slots b
    → t i ≡ 0
    → ((m : ℕ)
        → m < slots b
        → dist (slots b) (dd_home b h) m < dist (slots b) (dd_home b h) i
        → t m ≢ h)
    → Absent b t h
Absent-empty b t h i fits nz chain lt e passed k kt here =
    let o : ℕ = dd_home b h in
    let home : dd_home b (t k) ≡ o = ap (dd_home b) here in
    elim (Bool-cases (ltb (dist (slots b) o k) (dist (slots b) o i))) [
      | inl before ↦ passed k kt (ltb→lt _ _ before) here
      | inr later ↦
          let ne : i ≢ k = λ same. nz (sym here ∙ sym (ap t same) ∙ e) in
          let closer : dist (slots b) o i < dist (slots b) o k =
            nearer (slots b) o i k (dd_home-lt-slots b h fits) lt kt ne
              (ltb→ge (dist (slots b) o k) (dist (slots b) o i) later) in
          let taken : t k ≢ 0 = λ none_there. nz (sym here ∙ none_there) in
          chain k i kt lt taken
            (subst (λ (p : ℕ). dist (slots b) p i < dist (slots b) p k) (sym home) closer) e
    ]

module _ (b : ℕ) (t : Array) (z : ℕ) (in_range : z < slots b) (empty : t z ≡ 0)
    (fits : b ≤ 64) where
  find_from-IsFound :
      (h : ℕ)
      → h ≢ 0
      → Chained b t
      → (f i : ℕ) → i < slots b
      → dist (slots b) i z < f
      → ((m : ℕ)
          → m < slots b
          → dist (slots b) (dd_home b h) m < dist (slots b) (dd_home b h) i
          → t m ≢ h)
      → IsFound b t h (find_from b f t h i)
  unfolding find_from
  find_from-IsFound h nz chain zero i lt enough passed = absurd (omega arith)
  find_from-IsFound h nz chain (suc f) i lt enough passed = elim (Bool-cases (t i == 0)) [
    | inl e ↦ rw e (absent (Absent-empty b t h i fits nz chain lt ((==_iff (t i) 0).0 e) passed))
    | inr e ↦ elim (Bool-cases (t i == h)) [
      | inl d ↦ rw (e, d) (found i lt ((==_iff (t i) h).0 d))
      | inr d ↦
          let other : i ≢ z = λ same. absurd (ground (arith, ap t same)) in
          let step = next_slot_lem b i lt in
          rw (e, d)
            (find_from-IsFound h nz chain f (next_slot b i) (next_slot-lt b i lt)
              (rw step (omega (arith, dist-next (slots b) i z lt in_range other)))
              λ m mt near. elim (Bool-cases (m == i)) [
                | inl same ↦ λ there. absurd (ground (arith, ap t ((==_iff m i).0 same)))
                | inr ne ↦ passed m mt (
                    passed-next (slots b) (dd_home b h) i m (dd_home-lt-slots b h fits) lt mt
                      (rw step at near) (ground arith))
              ])
    ]
  ]

  pub dd_index_find-IsFound : (h : ℕ) → h ≢ 0 → Chained b t → IsFound b t h (dd_index_find b t h)
  unfolding dd_index_find
  dd_index_find-IsFound h nz chain =
      let home = dd_home-lt-slots b h fits in
      find_from-IsFound h nz chain (slots b) (dd_home b h) home (ground arith)
        (λ m mt near. absurd (ground arith))

  -- The first empty slot after `i`: it lies no further than any other.
  pub empty_from_lem :
      (o f i : ℕ)
      → o < slots b
      → i < slots b
      → dist (slots b) i z < f
      → ((m : ℕ) → m < slots b → dist (slots b) o m < dist (slots b) o i → t m ≢ 0)
      → (k : ℕ) × (empty_from b f t i ≡ some k)
        × (k < slots b)
        × (t k ≡ 0)
        × ((m : ℕ) → m < slots b → dist (slots b) o m < dist (slots b) o k → t m ≢ 0)
  unfolding empty_from
  empty_from_lem o zero i ot lt enough passed = absurd (omega arith)
  empty_from_lem o (suc f) i ot lt enough passed = elim (Bool-cases (t i == 0)) [
    | inl e ↦ (i, rw e, lt, (==_iff (t i) 0).0 e, passed)
    | inr e ↦
        let other : i ≢ z = λ same. absurd (ground (arith, ap t same)) in
        let step = next_slot_lem b i lt in
        rw e (
          empty_from_lem o f (next_slot b i) ot (next_slot-lt b i lt)
            (rw step (omega (arith, dist-next (slots b) i z lt in_range other)))
            λ m mt near. elim (Bool-cases (m == i)) [
              | inl same ↦ λ there. absurd (ground (arith, ap t ((==_iff m i).0 same)))
              | inr ne ↦
                  passed m mt
                    (passed-next (slots b) o i m ot lt mt (rw step at near) (ground arith))
            ])
  ]
