-- ===== src/Stratum/ShareDedupe/Remove.antt =====
-- `dd_index_remove` of src/stratum.c: a key moves into the hole, and the loops as a whole.
use simplepool.Stratum.ShareDedupe.Move.{IsHollow-move, IsWithout-move}
use simplepool.Prelude.{
  ℕ, zero, suc, ◌≤◌, ◌<◌, ◌≡◌, ◌≢◌, ap, sym, subst, ◌∙◌, inl, inr, false, some, arith, ◌==◌,
  Bool-cases, ==_iff,
}
use simplepool.Stratum.ShareDedupe.{
  Array, write, slots, dd_home, next_slot, dd_home_between, slot_from, shift_back, dd_index_remove,
}
use simplepool.Stratum.ShareDedupe.Cyclic.{
  dist, succ_mod, next_slot_lem, next_slot-lt, dd_home-lt-slots,
}
use simplepool.Stratum.ShareDedupe.Probe.{Chained, dist-next}
use simplepool.Stratum.ShareDedupe.Count.{write_ne}
use simplepool.Stratum.ShareDedupe.Shift.{
  IsHollow, IsWithout, last_of_all, same_place, IsWithout-end, IsHollow-stay,
}

-- The loop ends before it has gone round: there is an empty slot.
pub shift_back_lem :
    (b : ℕ)
    → b ≤ 64
    → (z : ℕ) → z < slots b
    → (f : ℕ) (t : Array) (i j : ℕ) → i < slots b
    → j < slots b
    → t z ≡ 0
    → dist (slots b) j z < f
    → IsHollow b t i j
    → (t' : Array) × (shift_back b f t i j ≡ some t') × IsWithout b t i t'
unfolding shift_back
shift_back_lem b fits z zt zero t i j it jt empty enough hollow = absurd (omega arith)
shift_back_lem b fits z zt (suc f) t i j it jt empty enough hollow =
    let n : ℕ = slots b in
    let j' : ℕ = next_slot b j in
    let jt' : j' < n = next_slot-lt b j jt in
    let step : j' ≡ succ_mod n j = next_slot_lem b j jt in
    elim (Bool-cases (t j' == 0)) [
      | inl e ↦ (write t i 0, rw e, IsWithout-end b fits t i j it jt hollow ((==_iff (t j') 0).0 e))
      | inr e ↦
          let there : t j' ≢ 0 = λ s. absurd (ground arith) in
          let spared : i ≢ z = λ s. hollow.hole_taken (ap t s ∙ empty) in
          let apart : j' ≢ i = λ s.
            hollow.scanned_taken z zt (λ q. spared (sym q))
              (last_of_all n i j z it jt zt (sym step ∙ s)) empty in
          let missed : j ≢ z = λ s. elim (Bool-cases (j == i)) [
            | inl q ↦ absurd (ground arith)
            | inr q ↦
                hollow.scanned_taken j jt (λ r. absurd (ground arith)) (omega arith)
                  (ap t s ∙ empty)
          ] in
          let closer : dist n j' z < f = rw step (omega (arith, dist-next n j z jt zt missed)) in
          elim (Bool-cases (dd_home_between i (dd_home b (t j')) j')) [
            | inl d ↦
                let (t', done, w) =
                  shift_back_lem b fits z zt f t i j' it jt' empty closer
                    (IsHollow-stay b fits t i j it jt hollow apart there d) in
                (t', rw (e, d) done, w)
            | inr d ↦
                let (t', done, w) =
                  shift_back_lem b fits z zt f (write t i (t j')) j' j' jt' jt'
                    (write_ne t i z (t j') spared ∙ empty) closer
                    (IsHollow-move b fits t i j it jt hollow apart there d) in
                (
                  t',
                  rw (e, d) done,
                  IsWithout-move b fits t i j it jt there hollow.hole_taken apart t' w,
                )
          ]
    ]

step_towards :
    (n o i k : ℕ)
    → o < n
    → i < n
    → k < n
    → i ≢ k
    → dist n o i ≤ dist n o k
    → (dist n o i < dist n o k) × (dist n o (succ_mod n i) ≤ dist n o k)
step_towards n o i k p q r ne le = ground arith

-- The first loop of `dd_index_remove` finds a key that is there.
slot_from_lem :
    (b : ℕ) (t : Array) (h k : ℕ)
    → b ≤ 64
    → Chained b t
    → k < slots b
    → t k ≡ h
    → h ≢ 0
    → (f i : ℕ) → i < slots b
    → dist (slots b) i k < f
    → dist (slots b) (dd_home b h) i ≤ dist (slots b) (dd_home b h) k
    → (s : ℕ) × (s < slots b) × (t s ≡ h) × (slot_from b f t h i ≡ some (some s))
unfolding slot_from
slot_from_lem b t h k fits chain kt there nz zero i it enough ahead = absurd (omega arith)
slot_from_lem b t h k fits chain kt there nz (suc f) i it enough ahead =
    elim (Bool-cases (t i == h)) [
      | inl e ↦ (i, it, (==_iff (t i) h).0 e, rw e)
      | inr e ↦
          let n : ℕ = slots b in
          let ot = dd_home-lt-slots b h fits in
          let other : i ≢ k = λ s. absurd (ground (arith, ap t s)) in
          let (lt, le) = step_towards n (dd_home b h) i k ot it kt other ahead in
          let full : t i ≢ 0 =
            chain k i kt it (λ s. nz (sym there ∙ s))
              (subst (λ (v : ℕ). dist n (dd_home b v) i < dist n (dd_home b v) k) (sym there) lt) in
          let busy : (t i == 0) ≡ false = ground arith in
          let step = next_slot_lem b i it in
          let (s, st, key, found) =
            slot_from_lem b t h k fits chain kt there nz f (next_slot b i) (next_slot-lt b i it)
              (rw step (omega (arith, dist-next n i k it kt other))) (rw step le) in
          (s, st, key, rw (e, busy) found)
    ]

IsHollow-start :
    (b : ℕ) (t : Array) (i : ℕ)
    → i < slots b
    → t i ≢ 0
    → Chained b t
    → ((k l : ℕ) → k < slots b → l < slots b → t k ≢ 0 → t k ≡ t l → k ≡ l)
    → IsHollow b t i i
IsHollow-start b t i it full chain distinct = record {
  hole_taken = full;
  others_chained = λ k m kt mt ne there near. chain k m kt mt there near;
  scanned_taken = λ k kt ne le. absurd (ground (arith, same_place (slots b) i k i it kt it));
  scanned_after = λ k kt ne le. absurd (ground (arith, same_place (slots b) i k i it kt it));
  others_distinct = λ k l kt lt ne ne' there same. distinct k l kt lt there same;
}

pub dd_index_remove_lem :
    (b : ℕ) (t : Array) (h k z : ℕ)
    → b ≤ 64
    → Chained b t
    → ((k l : ℕ) → k < slots b → l < slots b → t k ≢ 0 → t k ≡ t l → k ≡ l)
    → z < slots b
    → t z ≡ 0
    → k < slots b
    → t k ≡ h
    → h ≢ 0
    → (i : ℕ) × (i < slots b)
      × (t i ≡ h)
      × (t' : Array) × (dd_index_remove b t h ≡ some t')
      × IsWithout b t i t'
unfolding dd_index_remove
dd_index_remove_lem b t h k z fits chain distinct zt empty kt there nz =
    let ot = dd_home-lt-slots b h fits in
    let (i, it, key, found) =
      slot_from_lem b t h k fits chain kt there nz (slots b) (dd_home b h) ot (ground arith)
        (ground arith) in
    let start = IsHollow-start b t i it (λ s. nz (sym key ∙ s)) chain distinct in
    let (t', done, w) =
      shift_back_lem b fits z zt (slots b) t i i it it empty (ground arith) start in
    (i, it, key, t', rw (found, dd_index_remove) done, w)
