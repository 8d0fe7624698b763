-- ===== src/Stratum/ShareDedupe/Whole.antt =====
-- Runs of `share_dedupe_key_check_and_add` of src/stratum.c on a new server.
use simplepool.Prelude.{
  ℕ, ◌≤◌, ◌<◌, ◌≡◌, refl, sym, subst, ◌∙◌, Bool, Option, none, some, List, [], ◌∷◌, arith,
}
use simplepool.Stratum.Dedupe.{holds}
use simplepool.Stratum.ShareDedupe.{ShareDedupe, fresh, slots, live, share_dedupe_key_check_and_add}
use simplepool.Stratum.ShareDedupe.Count.{live-empty}
use simplepool.Stratum.ShareDedupe.Fifo.{admit, Represents}
use simplepool.Stratum.ShareDedupe.Refine.{check_and_add-admit}

-- One call after another: the answers, and the last state.
unfoldable pub submit_all : ℕ → ℕ → ShareDedupe → List ℕ → Option (List Bool × ShareDedupe)
submit_all b n s [] = some ([], s)
submit_all b n s (key ∷ keys) = elim (share_dedupe_key_check_and_add b n s key) [
  | none ↦ none
  | some (dup, s') ↦ elim (submit_all b n s' keys) [
    | none ↦ none
    | some (dups, s'') ↦ some (dup ∷ dups, s'')
  ]
]

-- The same calls on the bounded set.
unfoldable pub admit_all : ℕ → List ℕ → List ℕ → List Bool × List ℕ
admit_all n set [] = ([], set)
admit_all n set (key ∷ keys) =
    let (dup, set') = admit n set key in
    let (dups, set'') = admit_all n set' keys in (dup ∷ dups, set'')

pub fresh-Represents : (b n : ℕ) → 0 < n → Represents b n fresh []
unfolding fresh holds
fresh-Represents b n some_room = record {
  within = omega arith;
  counted = refl;
  head_inside = some_room;
  stored = λ i lt. absurd (omega arith);
  once = tt;
  indexed = record {
    chained = λ k m kt mt there near. absurd (there refl);
    distinct = λ k l kt lt there same. absurd (there refl);
    held = λ x there. absurd (ground arith);
    nonzero = λ x there. absurd (ground arith);
    only = λ k kt there. absurd (there refl);
    counted = live-empty (slots b);
  };
}

module _ (b n : ℕ) (fits : b ≤ 64) (sparse : n < slots b) (some_room : 0 < n) where
  pub submit_all-Represents :
      (keys set : List ℕ) (s : ShareDedupe)
      → Represents b n s set
      → (s' : ShareDedupe) × (submit_all b n s keys ≡ some ((admit_all n set keys).0, s'))
        × Represents b n s' (admit_all n set keys).1
  unfolding submit_all admit_all
  submit_all-Represents [] set s r = (s, refl, r)
  submit_all-Represents (key ∷ keys) set s r =
      let (s', one, r') = check_and_add-admit b n fits sparse s set key some_room r in
      let (s'', rest, r'') = submit_all-Represents keys (admit n set key).1 s' r' in
      (s'', rw (one, rest, submit_all), r'')

  -- Where the ring holds at least one key and fewer than the index has slots, every run of calls on
  -- a new server comes to an end, and the answers are those of the set that keeps the last
  -- `ring_size` different keys and drops the oldest: no probing loop runs for ever, and moving keys
  -- back on removal loses none.
  pub submit_all-admit_all :
      (keys : List ℕ)
      → (s : ShareDedupe) × (submit_all b n fresh keys ≡ some ((admit_all n [] keys).0, s))
  submit_all-admit_all keys =
      let (s, done, r) = submit_all-Represents keys [] fresh (fresh-Represents b n some_room) in
      (s, done)

  -- After any run of calls on a new server the slots of the index that are taken are as many as the
  -- keys that the ring counts, and these are at most the size of the ring.
  pub live_bounds :
      (keys : List ℕ) (dups : List Bool) (s : ShareDedupe)
      → submit_all b n fresh keys ≡ some (dups, s)
      → (live (slots b) s.index ≡ s.count) × (s.count ≤ n)
  live_bounds keys dups s run =
      let (s', done, r) = submit_all-Represents keys [] fresh (fresh-Represents b n some_room) in
      let same : s' ≡ s = cc in
      subst (λ (t : ShareDedupe). (live (slots b) t.index ≡ t.count) × (t.count ≤ n)) same
        (r.indexed.counted ∙ sym r.counted, omega (arith, r.within, r.counted))
