-- ===== src/Stratum/ShareDedupe/Refine.antt =====
-- One call of `share_dedupe_key_check_and_add` of src/stratum.c answers and changes the state as
-- the bounded set of keys does.
use simplepool.Prelude.{
  ℕ, suc, ◌+◌, ◌%◌, ◌≤◌, ◌<◌, ◌≡◌, ◌≢◌, refl, inl, inr, true, false, some, List, [], ◌∷◌, ◌++◌,
  arith, ◌==◌, Bool-cases, ==_iff, length, length-append,
}
use simplepool.Stratum.Dedupe.{holds}
use simplepool.Stratum.ShareDedupe.{
  Array, write, ShareDedupe, marked, slots, make_room, record_key, add_key,
  share_dedupe_key_check_and_add,
}
use simplepool.Stratum.ShareDedupe.Cyclic.{succ_mod, add_one-mod}
use simplepool.Stratum.ShareDedupe.Keys.{
  IsIndexOf, dd_index_find_lem, dd_index_insert_lem, dd_index_remove-IsIndexOf,
}
use simplepool.Stratum.ShareDedupe.Fifo.{
  forget_oldest, admit, Nodup, Stored, Represents, Nodup-append, Stored-append, Stored-oldest,
  Stored-tail,
}

-- The state when there is room for one more key.
record HasRoom (b n : ℕ) (s : ShareDedupe) (room : ℕ × Array) (keys : List ℕ) : Type 0 where
  few : length keys < n
  grown : room.0 ≡ suc (length keys)
  stored : Stored n s.ring s.head keys
  once : Nodup keys
  indexed : IsIndexOf b room.1 keys

holds-forget_oldest :
    (n : ℕ) (keys : List ℕ) (h : ℕ) → holds keys h ≡ false → holds (forget_oldest n keys) h ≡ false
unfolding holds forget_oldest
holds-forget_oldest n [] h new = refl
holds-forget_oldest n (x ∷ keys) h new = ground arith

marked_ne : (key : ℕ) → marked key ≢ 0
unfolding marked
marked_ne key = ground arith

module _ (b n : ℕ) (fits : b ≤ 64) (sparse : n < slots b) (s : ShareDedupe) where
  make_room-HasRoom :
      (keys : List ℕ)
      → 0 < n
      → Represents b n s keys
      → (room : ℕ × Array) × (make_room b n s ≡ some room)
        × HasRoom b n s room (forget_oldest n keys)
  unfolding make_room forget_oldest
  make_room-HasRoom [] some_room r =
      let off : (s.count == n) ≡ false = ground (arith, r.counted) in
      (
        (s.count + 1, s.index),
        rw (off, make_room),
        record {
          few = some_room;
          grown = omega (arith, r.counted);
          stored = r.stored;
          once = r.once;
          indexed = r.indexed;
        },
      )
  make_room-HasRoom (x ∷ keys) some_room r = elim (Bool-cases (length (x ∷ keys) == n)) [
    | inl e ↦
        let full : length (x ∷ keys) ≡ n = (==_iff _ n).0 e in
        let on : (s.count == n) ≡ true = ground (arith, r.counted) in
        let oldest : s.ring s.head ≡ x =
          Stored-oldest n s.ring s.head x keys r.head_inside full r.stored in
        let (t', done, ix) =
          dd_index_remove-IsIndexOf b s.index x keys fits (omega arith) r.once.0 r.indexed in
        (
          (s.count, t'),
          rw (on, make_room, oldest, done),
          rw e record {
            few = omega arith;
            grown = r.counted;
            stored = Stored-tail n s.ring s.head x keys full r.stored;
            once = r.once.1;
            indexed = ix;
          },
        )
    | inr e ↦
        let off : (s.count == n) ≡ false = ground (arith, r.counted) in
        (
          (s.count + 1, s.index),
          rw (off, make_room),
          rw e record {
            few = ground (arith, r.within);
            grown = omega (arith, r.counted);
            stored = r.stored;
            once = r.once;
            indexed = r.indexed;
          },
        )
  ]

  record_key-Represents :
      (h : ℕ) (room : ℕ × Array) (keys : List ℕ)
      → h ≢ 0
      → holds keys h ≡ false
      → s.head < n
      → HasRoom b n s room keys
      → (s' : ShareDedupe) × (record_key b n s h room ≡ some s')
        × Represents b n s' (keys ++ (h ∷ []))
  unfolding record_key
  record_key-Represents h (c, t) keys nz new inside hr =
      let few = hr.few in
      let (t', done, ix) = dd_index_insert_lem b fits t keys (omega arith) h nz new hr.indexed in
      let step : (s.head + 1) % n ≡ succ_mod n s.head = add_one-mod n s.head inside in
      let longer = length-append keys (h ∷ []) in
      (
        record { ring = write s.ring s.head h; head = (s.head + 1) % n; count = c; index = t' },
        rw (done, record_key),
        record {
          within = omega (arith, longer);
          counted = omega (arith, longer, hr.grown);
          head_inside = rw step (ground arith);
          stored = rw step (Stored-append n s.ring s.head keys h inside few hr.stored);
          once = Nodup-append keys h hr.once new;
          indexed = ix;
        },
      )

  -- The loops end and, where `s` stands for a list of keys, the call answers whether the key is
  -- one of them, and leaves a state that stands for the list that the bounded set leaves.
  pub check_and_add-admit :
      (keys : List ℕ) (key : ℕ)
      → 0 < n
      → Represents b n s keys
      → (s' : ShareDedupe) × (share_dedupe_key_check_and_add b n s key
          ≡ some ((admit n keys key).0, s'))
        × Represents b n s' (admit n keys key).1
  unfolding share_dedupe_key_check_and_add admit add_key
  check_and_add-admit keys key some_room r =
      let h : ℕ = marked key in
      let within = r.within in
      let found = dd_index_find_lem b fits s.index keys (omega arith) h (marked_ne key) r.indexed in
      elim (Bool-cases (holds keys h)) [
        | inl e ↦ (s, rw (found, e, share_dedupe_key_check_and_add), rw e r)
        | inr e ↦
            let (room, made, hr) = make_room-HasRoom keys some_room r in
            let (s', done, r') =
              record_key-Represents h room (forget_oldest n keys) (marked_ne key)
                (holds-forget_oldest n keys h e) r.head_inside hr in
            (s', rw (found, e, made, done, share_dedupe_key_check_and_add, add_key), rw e r')
      ]
