-- ===== src/Stratum/ShareDedupe/Keys.antt =====
-- The index of src/stratum.c as the set of the keys of a list: what lookup, insertion and removal
-- do to that set.
use simplepool.Prelude.{
  ℕ, ◌≤◌, ◌<◌, ◌≡◌, ◌≢◌, ap, sym, subst, ◌∙◌, inl, inr, Bool, true, false, ◌||◌, Option, some, List,
  [], ◌∷◌, ◌++◌, arith, ◌==◌, Bool-cases, ==_iff, length, length-append,
}
use simplepool.Stratum.Dedupe.{holds}
use simplepool.Stratum.ShareDedupe.{
  Array, write, slots, dd_home, live, dd_index_find, dd_index_insert, dd_index_remove,
}
use simplepool.Stratum.ShareDedupe.Cyclic.{dist, dd_home-lt-slots}
use simplepool.Stratum.ShareDedupe.Probe.{
  Chained, IsFound, found, absent, dd_index_find-IsFound, empty_from_lem,
}
use simplepool.Stratum.ShareDedupe.Remove.{dd_index_remove_lem}
use simplepool.Stratum.ShareDedupe.Count.{write_self, write_ne, live-write, live-gap}

-- The index holds the keys of the list and nothing else.
pub record IsIndexOf (b : ℕ) (t : Array) (keys : List ℕ) : Type 0 where
  pub chained : Chained b t
  pub distinct : (k l : ℕ) → k < slots b → l < slots b → t k ≢ 0 → t k ≡ t l → k ≡ l
  pub held : (x : ℕ) → holds keys x ≡ true → (k : ℕ) × (k < slots b) × (t k ≡ x)
  pub nonzero : (x : ℕ) → holds keys x ≡ true → x ≢ 0
  pub only : (k : ℕ) → k < slots b → t k ≢ 0 → holds keys (t k) ≡ true
  pub counted : live (slots b) t ≡ length keys

pub holds-append :
    (keys : List ℕ) (h x : ℕ) → holds (keys ++ (h ∷ [])) x ≡ (holds keys x || (h == x))
unfolding holds
holds-append [] h x = ground arith
holds-append (k ∷ keys) h x = ground (arith, holds-append keys h x)

IsFound-holds :
    (b : ℕ) (t : Array) (keys : List ℕ) (h : ℕ)
    → h ≢ 0
    → IsIndexOf b t keys
    → (o : Option Bool) → IsFound b t h o
    → o ≡ some (holds keys h)
IsFound-holds b t keys h nz ix o (found k kt there) =
    let here : holds keys h ≡ true =
      subst (λ (v : ℕ). holds keys v ≡ true) there (ix.only k kt (λ e. nz (sym there ∙ e))) in
    rw here
IsFound-holds b t keys h nz ix o (absent nowhere) = elim (Bool-cases (holds keys h)) [
  | inl e ↦ let (k, kt, there) = ix.held h e in absurd (nowhere k kt there)
  | inr e ↦ rw e
]

-- The table after a new key has been written to the first empty slot that its probe meets.
module _ (b : ℕ) (t : Array) (keys : List ℕ) (h s : ℕ) (nz : h ≢ 0) (new : holds keys h ≡ false)
    (ix : IsIndexOf b t keys) (st : s < slots b) (free : t s ≡ 0)
    (passed : (m : ℕ)
      → m < slots b
      → dist (slots b) (dd_home b h) m < dist (slots b) (dd_home b h) s
      → t m ≢ 0) where
  at_slot : (k : ℕ) → (k == s) ≡ true → write t s h k ≡ h
  at_slot k e = ap (write t s h) ((==_iff k s).0 e) ∙ write_self t s h

  elsewhere : (k : ℕ) → (k == s) ≡ false → write t s h k ≡ t k
  elsewhere k e = write_ne t s k h (λ q. absurd (ground arith))

  still_taken : (m : ℕ) → t m ≢ 0 → write t s h m ≢ 0
  still_taken m there = elim (Bool-cases (m == s)) [
    | inl e ↦ λ z. nz (sym (at_slot m e) ∙ z)
    | inr e ↦ λ z. there (sym (elsewhere m e) ∙ z)
  ]

  Chained-insert : Chained b (write t s h)
  Chained-insert k m kt mt there near = still_taken m (elim (Bool-cases (k == s)) [
    | inl e ↦
        let key : write t s h k ≡ h = at_slot k e in
        passed m mt (
          subst (λ (p : ℕ). dist (slots b) (dd_home b h) m < dist (slots b) (dd_home b h) p)
            ((==_iff k s).0 e)
            (subst (λ (v : ℕ). dist (slots b) (dd_home b v) m < dist (slots b) (dd_home b v) k) key
              near))
    | inr e ↦
        let key : write t s h k ≡ t k = elsewhere k e in
        ix.chained k m kt mt (λ z. there (key ∙ z))
          (subst (λ (v : ℕ). dist (slots b) (dd_home b v) m < dist (slots b) (dd_home b v) k) key
            near)
  ])

  insert_distinct :
      (k l : ℕ)
      → k < slots b
      → l < slots b
      → write t s h k ≢ 0
      → write t s h k ≡ write t s h l
      → k ≡ l
  insert_distinct k l kt lt there same = elim (Bool-cases (k == s)) [
    | inl e ↦ elim (Bool-cases (l == s)) [
      | inl d ↦ ground arith
      | inr d ↦
          let key : write t s h k ≡ h = at_slot k e in
          let other : write t s h l ≡ t l = elsewhere l d in
          let clash : t l ≡ h = sym other ∙ sym same ∙ key in
          absurd (ground (arith, ix.only l lt (λ z. nz (sym clash ∙ z)), ap (holds keys) clash))
    ]
    | inr e ↦ elim (Bool-cases (l == s)) [
      | inl d ↦
          let key : write t s h l ≡ h = at_slot l d in
          let other : write t s h k ≡ t k = elsewhere k e in
          let clash : t k ≡ h = sym other ∙ same ∙ key in
          absurd (ground (arith, ix.only k kt (λ z. nz (sym clash ∙ z)), ap (holds keys) clash))
      | inr d ↦
          let kk : write t s h k ≡ t k = elsewhere k e in
          let ll : write t s h l ≡ t l = elsewhere l d in
          ix.distinct k l kt lt (λ z. there (kk ∙ z)) (sym kk ∙ same ∙ ll)
    ]
  ]

  IsIndexOf-insert : IsIndexOf b (write t s h) (keys ++ (h ∷ []))
  IsIndexOf-insert = record {
    chained = Chained-insert;
    distinct = insert_distinct;
    held = λ x there. elim (Bool-cases (holds keys x)) [
      | inl e ↦
          let (k, kt, key) = ix.held x e in
          let other : k ≢ s = λ q. ix.nonzero x e (sym key ∙ ap t q ∙ free) in
          (k, kt, write_ne t s k h (λ q. other (sym q)) ∙ key)
      | inr e ↦
          let last : h ≡ x = ground (arith, holds-append keys h x) in
          (s, st, write_self t s h ∙ last)
    ];
    nonzero = λ x there. elim (Bool-cases (holds keys x)) [
      | inl e ↦ ix.nonzero x e
      | inr e ↦ let last : h ≡ x = ground (arith, holds-append keys h x) in λ z. nz (last ∙ z)
    ];
    only = λ k kt there. elim (Bool-cases (k == s)) [
      | inl e ↦
          let key : write t s h k ≡ h = at_slot k e in
          rw key (ground (arith, holds-append keys h h))
      | inr e ↦
          let key : write t s h k ≡ t k = elsewhere k e in
          let old = ix.only k kt (λ z. there (key ∙ z)) in
          rw key (ground (arith, holds-append keys h (t k)))
    ];
    counted =
        ground (arith, live-write (slots b) t s h st, ix.counted, length-append keys (h ∷ []));
  }

module _ (b : ℕ) (fits : b ≤ 64) (t : Array) (keys : List ℕ) (few : length keys < slots b) where
  pub dd_index_find_lem :
      (h : ℕ) → h ≢ 0 → IsIndexOf b t keys → dd_index_find b t h ≡ some (holds keys h)
  dd_index_find_lem h nz ix =
      let (z, zt, empty) = live-gap (slots b) t (omega (arith, ix.counted)) in
      IsFound-holds b t keys h nz ix (dd_index_find b t h)
        (dd_index_find-IsFound b t z zt empty fits h nz ix.chained)

  pub dd_index_insert_lem :
      (h : ℕ)
      → h ≢ 0
      → holds keys h ≡ false
      → IsIndexOf b t keys
      → (t' : Array) × (dd_index_insert b t h ≡ some t') × IsIndexOf b t' (keys ++ (h ∷ []))
  unfolding dd_index_insert
  dd_index_insert_lem h nz new ix =
      let ot = dd_home-lt-slots b h fits in
      let (z, zt, empty) = live-gap (slots b) t (omega (arith, ix.counted)) in
      let (s, slot, st, free, passed) =
        empty_from_lem b t z zt empty fits (dd_home b h) (slots b) (dd_home b h) ot ot
          (ground arith) (λ m mt near. absurd (ground arith)) in
      (
        write t s h,
        rw (slot, dd_index_insert),
        IsIndexOf-insert b t keys h s nz new ix st free passed,
      )

-- The oldest key goes.
pub dd_index_remove-IsIndexOf :
    (b : ℕ) (t : Array) (x : ℕ) (keys : List ℕ)
    → b ≤ 64
    → length (x ∷ keys) < slots b
    → holds keys x ≡ false
    → IsIndexOf b t (x ∷ keys)
    → (t' : Array) × (dd_index_remove b t x ≡ some t') × IsIndexOf b t' keys
unfolding holds
dd_index_remove-IsIndexOf b t x keys fits few once ix =
    let first : holds (x ∷ keys) x ≡ true = ground arith in
    let (k, kt, key) = ix.held x first in
    let (z, zt, empty) = live-gap (slots b) t (omega (arith, ix.counted)) in
    let (i, it, gone, t', done, w) =
      dd_index_remove_lem b t x k z fits ix.chained ix.distinct zt empty kt key
        (ix.nonzero x first) in
    (
      t',
      done,
      record {
        chained = w.chained;
        distinct = w.distinct;
        held = λ y there.
            let old : holds (x ∷ keys) y ≡ true = ground arith in
            let (l, lt, at_l) = ix.held y old in
            let other : l ≢ i = λ q.
              let same : y ≡ x = sym at_l ∙ ap t q ∙ gone in
              absurd (ground (arith, ap (holds keys) same)) in
            let (m, mt, at_m) = w.kept l lt other (λ q. ix.nonzero y old (sym at_l ∙ q)) in
            (m, mt, at_m ∙ at_l);
        nonzero = λ y there. ix.nonzero y (ground arith);
        only = λ l lt there.
            let (m, mt, other, same) = w.only l lt there in
            let old = ix.only m mt (λ q. there (sym same ∙ q)) in
            let apart : x ≢ t m =
              λ q. other (ix.distinct m i mt it (λ r. there (sym same ∙ r)) (sym q ∙ sym gone)) in
            rw (sym same) (ground arith);
        counted = omega (arith, w.fewer, ix.counted);
      },
    )
