-- ===== src/Stratum/ShareDedupe.antt =====
-- The server-wide set of credited header hashes of src/stratum.c: `dd_home`, `dd_index_find`,
-- `dd_index_insert`, `dd_home_between`, `dd_index_remove` and `share_dedupe_key_check_and_add`. A C
-- array is a function from its subscripts. The two sizes are parameters: `slot_bits` is
-- SHARE_DEDUPE_SLOT_BITS and `ring_size` is SHARE_DEDUPE_RING. A probing loop runs on fuel, and
-- `none` means that it ran out.
mod Cyclic
mod Probe
mod Shift
mod Move
mod Remove
mod Count
mod Keys
pub mod Fifo
pub mod Refine
pub mod Whole
pub mod Resubmit
mod Tests
use simplepool.Prelude.{
  ℕ, zero, suc, ◌+◌, ◌-◌, ◌*◌, ◌/◌, ◌%◌, ◌^◌, ◌<◌, Bool, true, false, not, ◌&&◌, ◌||◌, Option, none,
  some, List, [], ◌∷◌, ltb, leb, ◌==◌, if◌then◌else◌,
}
use simplepool.Stratum.Dedupe.{fnv1a_from}

abbrev pub Array : Type 0
Array = ℕ → ℕ

unfoldable pub write : Array → ℕ → ℕ → Array
write a i v j = if i == j then v else a j

-- The `share_dedupe_*` fields of `stratum_server`.
pub record ShareDedupe : Type 0 where
  pub ring : Array
  pub head : ℕ
  pub count : ℕ
  pub index : Array

-- `calloc` of the server.
unfoldable pub fresh : ShareDedupe
fresh = record { ring = λ _. 0; head = 0; count = 0; index = λ _. 0 }

-- `if (h == 0) h = 1;`: 0 marks an empty slot.
unfoldable pub marked : ℕ → ℕ
marked key = if key == 0 then 1 else key

-- SHARE_DEDUPE_SLOT_BITS and SHARE_DEDUPE_RING
abbrev pub share_dedupe_slot_bits : ℕ
share_dedupe_slot_bits = 16

abbrev pub share_dedupe_ring : ℕ
share_dedupe_ring = 16384

unfoldable pub dd_home_between : ℕ → ℕ → ℕ → Bool
dd_home_between hole home j =
    if leb hole j then ltb hole home && leb home j else ltb hole home || leb home j

-- `stratum_share_dedupe_live_for_test`: how many slots are taken.
unfoldable pub live : ℕ → Array → ℕ
live zero t = 0
live (suc n) t = (if t n == 0 then 0 else 1) + live n t

module _ (slot_bits : ℕ) where
  -- SHARE_DEDUPE_SLOTS
  unfoldable pub slots : ℕ
  slots = 2 ^ slot_bits

  unfoldable pub dd_home : ℕ → ℕ
  dd_home h = h * 0x9E3779B97F4A7C15 % 2 ^ 64 / 2 ^ (64 - slot_bits)

  -- `(i + 1) & (SHARE_DEDUPE_SLOTS - 1)`, where the number of slots is a power of two.
  unfoldable pub next_slot : ℕ → ℕ
  next_slot i = (i + 1) % slots

  unfoldable pub find_from : ℕ → Array → ℕ → ℕ → Option Bool
  find_from zero t h i = none
  find_from (suc f) t h i =
      let rest = find_from f t h (next_slot i) in
      if t i == 0 then some false else (if t i == h then some true else rest)

  unfoldable pub dd_index_find : Array → ℕ → Option Bool
  dd_index_find t h = find_from slots t h (dd_home h)

  -- The loop of `dd_index_insert`: the first empty slot.
  unfoldable pub empty_from : ℕ → Array → ℕ → Option ℕ
  empty_from zero t i = none
  empty_from (suc f) t i =
      let rest = empty_from f t (next_slot i) in if t i == 0 then some i else rest

  unfoldable pub dd_index_insert : Array → ℕ → Option Array
  dd_index_insert t h = elim (empty_from slots t (dd_home h)) [
    | none ↦ none
    | some i ↦ some (write t i h)
  ]

  -- The first loop of `dd_index_remove`: `some none` where the key is not there.
  unfoldable pub slot_from : ℕ → Array → ℕ → ℕ → Option (Option ℕ)
  slot_from zero t h i = none
  slot_from (suc f) t h i =
      let rest = slot_from f t h (next_slot i) in
      if t i == h then some (some i) else (if t i == 0 then some none else rest)

  -- The second loop: `i` is the hole and `j` the slot that was looked at last.
  unfoldable pub shift_back : ℕ → Array → ℕ → ℕ → Option Array
  shift_back zero t i j = none
  shift_back (suc f) t i j =
      let j' = next_slot j in
      let stay = shift_back f t i j' in
      let move = shift_back f (write t i (t j')) j' j' in
      if t j' == 0
      then some (write t i 0)
      else (if dd_home_between i (dd_home (t j')) j' then stay else move)

  unfoldable pub dd_index_remove : Array → ℕ → Option Array
  dd_index_remove t h = elim (slot_from slots t h (dd_home h)) [
    | none ↦ none
    | some none ↦ some t
    | some (some i) ↦ shift_back slots t i i
  ]

  module _ (ring_size : ℕ) where
    -- The eviction of the oldest key where the ring is full.
    unfoldable pub make_room : ShareDedupe → Option (ℕ × Array)
    make_room s =
        if s.count == ring_size
        then (elim (dd_index_remove s.index (s.ring s.head)) [
          | none ↦ none
          | some t ↦ some (s.count, t)
        ])
        else some (s.count + 1, s.index)

    unfoldable pub record_key : ShareDedupe → ℕ → ℕ × Array → Option ShareDedupe
    record_key s h (n, t) = elim (dd_index_insert t h) [
      | none ↦ none
      | some t' ↦ some record {
        ring = write s.ring s.head h;
        head = (s.head + 1) % ring_size;
        count = n;
        index = t';
      }
    ]

    unfoldable pub add_key : ShareDedupe → ℕ → Option (Bool × ShareDedupe)
    add_key s h = elim (make_room s) [
      | none ↦ none
      | some room ↦ elim (record_key s h room) [ none ↦ none | some s' ↦ some (false, s') ]
    ]

    unfoldable pub share_dedupe_key_check_and_add : ShareDedupe → ℕ → Option (Bool × ShareDedupe)
    share_dedupe_key_check_and_add s key = elim (dd_index_find s.index (marked key)) [
      | none ↦ none
      | some true ↦ some (true, s)
      | some false ↦ add_key s (marked key)
    ]

-- `fnv1a_bytes`
unfoldable pub fnv1a_bytes : List ℕ → ℕ
fnv1a_bytes p = fnv1a_from 1469598103934665603 p

unfoldable pub share_dedupe_check_and_add : ShareDedupe → List ℕ → Option (Bool × ShareDedupe)
share_dedupe_check_and_add s hash_be =
    share_dedupe_key_check_and_add share_dedupe_slot_bits share_dedupe_ring s (fnv1a_bytes hash_be)
