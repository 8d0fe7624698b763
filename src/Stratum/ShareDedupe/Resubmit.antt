-- ===== src/Stratum/ShareDedupe/Resubmit.antt =====
-- A header hash that src/stratum.c has recorded is refused when it comes again soon.
use simplepool.Prelude.{
  ℕ, suc, ◌+◌, ◌≤◌, ◌<◌, ◌≡◌, refl, sym, subst, inl, inr, Bool, true, false, Option, some, List, [],
  ◌∷◌, ◌++◌, arith, ◌==◌, Bool-cases, length, length-append, append_assoc,
}
use simplepool.Stratum.Dedupe.{holds}
use simplepool.Stratum.ShareDedupe.{
  ShareDedupe, fresh, marked, slots, share_dedupe_key_check_and_add,
}
use simplepool.Stratum.ShareDedupe.Fifo.{forget_oldest, admit, Represents}
use simplepool.Stratum.ShareDedupe.Refine.{check_and_add-admit}
use simplepool.Stratum.ShareDedupe.Whole.{
  submit_all, admit_all, submit_all-Represents, fresh-Represents,
}

-- The key is in the list, with no more than so many keys behind it.
abbrev Recent : ℕ → ℕ → List ℕ → Type 0
Recent key after set =
    (older : List ℕ) × (newer : List ℕ) × (set ≡ older ++ (key ∷ newer)) × (length newer ≤ after)

holds-there : (older newer : List ℕ) (key : ℕ) → holds (older ++ (key ∷ newer)) key ≡ true
unfolding holds
holds-there [] newer key = ground arith
holds-there (x ∷ older) newer key = ground (arith, holds-there older newer key)

forget_oldest-Recent :
    (n key after : ℕ) (older newer : List ℕ)
    → suc after < n
    → length newer ≤ after
    → Recent key after (forget_oldest n (older ++ (key ∷ newer)))
unfolding forget_oldest
forget_oldest-Recent n key after [] newer room few =
    let short : (length (key ∷ newer) == n) ≡ false = ground arith in
    ([], newer, rw (short, forget_oldest), few)
forget_oldest-Recent n key after (x ∷ older) newer room few =
    elim (Bool-cases (length (x ∷ (older ++ (key ∷ newer))) == n)) [
      | inl e ↦ (older, newer, rw (e, forget_oldest), few)
      | inr e ↦ (x ∷ older, newer, rw (e, forget_oldest), few)
    ]

Recent-append :
    (key after h : ℕ) (set : List ℕ)
    → Recent key after set
    → Recent key (suc after) (set ++ (h ∷ []))
Recent-append key after h set (older, newer, e, few) = (
  older,
  newer ++ (h ∷ []),
  rw e (append_assoc older (key ∷ newer) (h ∷ [])),
  omega (arith, length-append newer (h ∷ [])),
)

Recent-admit :
    (n key other after : ℕ) (set : List ℕ)
    → suc after < n
    → Recent key after set
    → Recent key (suc after) (admit n set other).1
unfolding admit
Recent-admit n key other after set room (older, newer, e, few) =
    elim (Bool-cases (holds set (marked other))) [
      | inl dup ↦ rw (dup, admit) (older, newer, e, omega arith)
      | inr new ↦
          rw (new, admit, e)
            (Recent-append key after (marked other) (forget_oldest n (older ++ (key ∷ newer)))
              (forget_oldest-Recent n key after older newer room few))
    ]

Recent-admit_all :
    (n key after : ℕ) (keys set : List ℕ)
    → after + length keys < n
    → Recent key after set
    → Recent key (after + length keys) (admit_all n set keys).1
unfolding admit_all
Recent-admit_all n key after [] set room (older, newer, e, few) = (older, newer, e, omega arith)
Recent-admit_all n key after (other ∷ keys) set room recent =
    let (older, newer, e, few) =
      Recent-admit_all n key (suc after) keys (admit n set other).1 (omega arith)
        (Recent-admit n key other after set (omega arith) recent) in
    (older, newer, e, omega arith)

admit-new :
    (n key : ℕ) (set : List ℕ)
    → (admit n set key).0 ≡ false
    → Recent (marked key) 0 (admit n set key).1
unfolding admit
admit-new n key set new = elim (Bool-cases (holds set (marked key))) [
  | inl dup ↦ absurd (ground arith)
  | inr e ↦ rw (e, admit) (forget_oldest n set, [], refl, omega arith)
]

held_key :
    (b n : ℕ) (s : ShareDedupe) (set : List ℕ) (key : ℕ)
    → b ≤ 64
    → n < slots b
    → 0 < n
    → Represents b n s set
    → holds set (marked key) ≡ true
    → (t : ShareDedupe) × (share_dedupe_key_check_and_add b n s key ≡ some (true, t))
unfolding admit
held_key b n s set key fits sparse some_room r held =
    let (t, done, r') = check_and_add-admit b n fits sparse s set key some_room r in
    let dup : (admit n set key).0 ≡ true = rw (held, admit) in
    (t, subst (λ (d : Bool). share_dedupe_key_check_and_add b n s key ≡ some (d, t)) dup done)

same_outcome :
    {A B : Type 0} (o : Option (A × B)) (a a' : A) (c c' : B)
    → o ≡ some (a, c)
    → o ≡ some (a', c')
    → (a ≡ a') × (c ≡ c')
same_outcome o a a' c c' p q = (cc, cc)

-- On a server that has run since its start: a hash that a call finds new is found
-- to be a duplicate by a later call, when fewer calls than the ring has places came between.
pub credited_once :
    (b n : ℕ)
    → b ≤ 64
    → n < slots b
    → (before between : List ℕ) (key : ℕ) (dups more : List Bool) (s s' s'' : ShareDedupe)
    → length between < n
    → submit_all b n fresh before ≡ some (dups, s)
    → share_dedupe_key_check_and_add b n s key ≡ some (false, s')
    → submit_all b n s' between ≡ some (more, s'')
    → (t : ShareDedupe) × (share_dedupe_key_check_and_add b n s'' key ≡ some (true, t))
unfolding admit
credited_once b n fits sparse before between key dups more s s' s'' few ran new later =
    let some_room : 0 < n = omega arith in
    let set : List ℕ = (admit_all n [] before).1 in
    let (s₀, done₀, r₀) =
      submit_all-Represents b n fits sparse some_room before [] fresh
        (fresh-Represents b n some_room) in
    let r : Represents b n s set =
      subst (λ (t : ShareDedupe). Represents b n t set) (same_outcome _ _ _ _ _ done₀ ran).1 r₀ in
    let (s₁, done₁, r₁) = check_and_add-admit b n fits sparse s set key some_room r in
    let (first, same₁) = same_outcome _ _ _ _ _ done₁ new in
    let set' : List ℕ = (admit n set key).1 in
    let r' : Represents b n s' set' = subst (λ (t : ShareDedupe). Represents b n t set') same₁ r₁ in
    let (s₂, done₂, r₂) = submit_all-Represents b n fits sparse some_room between set' s' r' in
    let set'' : List ℕ = (admit_all n set' between).1 in
    let r'' : Represents b n s'' set'' =
      subst (λ (t : ShareDedupe). Represents b n t set'') (same_outcome _ _ _ _ _ done₂ later).1
        r₂ in
    let (older, newer, e, short) =
      Recent-admit_all n (marked key) 0 between set' (omega arith) (admit-new n key set first) in
    let recent : holds (older ++ (marked key ∷ newer)) (marked key) ≡ true =
      holds-there older newer (marked key) in
    held_key b n s'' set'' key fits sparse some_room r''
      (subst (λ (l : List ℕ). holds l (marked key) ≡ true) (sym e) recent)
