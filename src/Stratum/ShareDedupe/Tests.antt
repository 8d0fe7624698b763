-- ===== src/Stratum/ShareDedupe/Tests.antt =====
-- The set of credited hashes of src/stratum.c with eight slots and a ring of three.
use simplepool.Prelude.{
  ℕ, ◌<◌, ◌≤◌, ◌≡◌, refl, Bool, true, false, Option, none, some, List, [], ◌∷◌, arith, map,
}
use simplepool.Stratum.ShareDedupe.{
  ShareDedupe, fresh, slots, live, share_dedupe_slot_bits, share_dedupe_ring, dd_home,
  share_dedupe_key_check_and_add, dd_index_find, find_from, add_key, make_room, record_key,
  dd_index_insert, empty_from, write, marked, next_slot, dd_index_remove, slot_from, shift_back,
  dd_home_between,
}
use simplepool.Stratum.Dedupe.{holds}
use simplepool.Stratum.ShareDedupe.Fifo.{admit, forget_oldest}
use simplepool.Stratum.ShareDedupe.Whole.{submit_all, admit_all, submit_all-admit_all, live_bounds}
use simplepool.Stratum.ShareDedupe.Resubmit.{credited_once}

sizes_fit : share_dedupe_ring < slots share_dedupe_slot_bits
unfolding slots
sizes_fit = omega arith

abbrev keys : List ℕ
keys = 1 ∷ 2 ∷ 9 ∷ 1 ∷ 0 ∷ 5 ∷ 2 ∷ 1 ∷ 7 ∷ []

homes : map (dd_home 3) keys ≡ 4 ∷ 1 ∷ 4 ∷ 4 ∷ 0 ∷ 0 ∷ 1 ∷ 4 ∷ 2 ∷ []
unfolding dd_home
homes = refl

abbrev answers : Option (List Bool × ShareDedupe) → List Bool
answers none = []
answers (some (dups, s)) = dups

abbrev state : Option (List Bool × ShareDedupe) → ShareDedupe
state none = fresh
state (some (dups, s)) = s

-- Eight slots, and a ring of three.
small : ShareDedupe → List ℕ → Option (List Bool × ShareDedupe)
unfolding submit_all share_dedupe_key_check_and_add dd_index_find find_from slots fresh add_key
    make_room record_key dd_index_insert empty_from write dd_home marked next_slot dd_index_remove
    slot_from shift_back dd_home_between
small s run = submit_all 3 3 s run

model : List ℕ → List Bool
unfolding admit_all admit holds marked forget_oldest
model run = (admit_all 3 [] run).0

answered : answers (small fresh keys) ≡ model keys
unfolding small model
answered = refl

forgotten : model keys ≡ false ∷ false ∷ false ∷ true ∷ true ∷ false ∷ true ∷ false ∷ false ∷ []
unfolding model
forgotten = refl

few_slots : 3 < slots 3
unfolding slots
few_slots = omega arith

submit_all-admit_all_example :
    (s : ShareDedupe) × (submit_all 3 3 fresh keys ≡ some ((admit_all 3 [] keys).0, s))
submit_all-admit_all_example = submit_all-admit_all 3 3 (omega arith) few_slots (omega arith) keys

live_bounds_example :
    (live (slots 3) (state (small fresh keys)).index ≡ (state (small fresh keys)).count)
    × ((state (small fresh keys)).count ≤ 3)
unfolding small
live_bounds_example =
    live_bounds 3 3 (omega arith) few_slots (omega arith) keys (answers (small fresh keys))
      (state (small fresh keys)) refl

abbrev after_one : ShareDedupe
after_one = state (small fresh (9 ∷ 4 ∷ []))

credited_once_example :
    (t : ShareDedupe) × (share_dedupe_key_check_and_add 3 3 (state (small after_one (1 ∷ 2 ∷ []))) 4
      ≡ some (true, t))
unfolding small
credited_once_example =
    credited_once 3 3 (omega arith) few_slots (9 ∷ []) (1 ∷ 2 ∷ []) 4
      (answers (small fresh (9 ∷ []))) (answers (small after_one (1 ∷ 2 ∷ [])))
      (state (small fresh (9 ∷ []))) after_one (state (small after_one (1 ∷ 2 ∷ []))) (omega arith)
      refl refl refl
