-- ===== src/Stratum/ShareDedupe/Fifo.antt =====
-- What the set of credited hashes of src/stratum.c promises, the most recent `ring_size` distinct
-- keys in the order of their first appearance, and one call of `share_dedupe_key_check_and_add`
-- against it.
use simplepool.Prelude.{
  ℕ, zero, suc, ◌+◌, ◌-◌, ◌≤◌, ◌<◌, ◌≡◌, ◌≢◌, refl, ap, sym, subst, ◌∙◌, inl, inr, Bool, true,
  false, List, [], ◌∷◌, ◌++◌, arith, ltb, ◌==◌, if◌then◌else◌, Bool-cases, ==_iff, length, get_or,
  length-append,
}
use simplepool.Stratum.Dedupe.{holds}
use simplepool.Stratum.ShareDedupe.{Array, write, ShareDedupe, marked}
use simplepool.Stratum.ShareDedupe.Cyclic.{succ_mod}
use simplepool.Stratum.ShareDedupe.Count.{write_self, write_ne}
use simplepool.Stratum.ShareDedupe.Keys.{IsIndexOf, holds-append}

-- The oldest key first.
unfoldable pub forget_oldest : ℕ → List ℕ → List ℕ
forget_oldest ring_size [] = []
forget_oldest ring_size (x ∷ keys) = if length (x ∷ keys) == ring_size then keys else x ∷ keys

-- Whether the key is remembered, and the keys remembered afterwards.
unfoldable pub admit : ℕ → List ℕ → ℕ → Bool × List ℕ
admit ring_size keys key =
    if holds keys (marked key)
    then (true, keys)
    else (false, forget_oldest ring_size keys ++ (marked key ∷ []))

abbrev pub Nodup : List ℕ → Type 0
Nodup [] = Unit {0}
Nodup (x ∷ keys) = (holds keys x ≡ false) × Nodup keys

-- A subscript of the ring that may have run over its end once.
abbrev pub place : ℕ → ℕ → ℕ
place n p = if ltb p n then p else p - n

-- The ring holds the keys up to `head`, the oldest first.
abbrev pub Stored : ℕ → Array → ℕ → List ℕ → Type 0
Stored n ring head keys =
    (i : ℕ) → i < length keys → ring (place n (head + (n - length keys) + i)) ≡ get_or keys i 0

pub record Represents (b n : ℕ) (s : ShareDedupe) (keys : List ℕ) : Type 0 where
  pub within : length keys ≤ n
  pub counted : s.count ≡ length keys
  pub head_inside : s.head < n
  pub stored : Stored n s.ring s.head keys
  pub once : Nodup keys
  pub indexed : IsIndexOf b s.index keys

pub Nodup-append :
    (keys : List ℕ) (h : ℕ) → Nodup keys → holds keys h ≡ false → Nodup (keys ++ (h ∷ []))
unfolding holds
Nodup-append [] h once new = ground arith
Nodup-append (x ∷ keys) h once new =
    (ground (arith, holds-append keys h x), Nodup-append keys h once.1 (ground arith))

get_or-append_left :
    (keys : List ℕ) (h i : ℕ) → i < length keys → get_or (keys ++ (h ∷ [])) i 0 ≡ get_or keys i 0
get_or-append_left [] h i lt = absurd (omega arith)
get_or-append_left (x ∷ keys) h zero lt = refl
get_or-append_left (x ∷ keys) h (suc i) lt = get_or-append_left keys h i (omega arith)

get_or-append_last : (keys : List ℕ) (h : ℕ) → get_or (keys ++ (h ∷ [])) (length keys) 0 ≡ h
get_or-append_last [] h = refl
get_or-append_last (x ∷ keys) h = get_or-append_last keys h

-- Where a key stands, seen from the head before and after a write.
place_before :
    (n head l i : ℕ)
    → head < n
    → l < n
    → i < l
    → (place n (succ_mod n head + (n - suc l) + i) ≡ place n (head + (n - l) + i))
      × (place n (head + (n - l) + i) ≢ head)
place_before n head l i p q r = ground arith

place_last : (n head l : ℕ) → head < n → l < n → place n (succ_mod n head + (n - suc l) + l) ≡ head
place_last n head l p q = ground arith

pub Stored-append :
    (n : ℕ) (ring : Array) (head : ℕ) (keys : List ℕ) (h : ℕ)
    → head < n
    → length keys < n
    → Stored n ring head keys
    → Stored n (write ring head h) (succ_mod n head) (keys ++ (h ∷ []))
Stored-append n ring head keys h inside few stored i lt =
    let longer : length (keys ++ (h ∷ [])) ≡ suc (length keys) =
      omega (arith, length-append keys (h ∷ [])) in
    let at : ℕ → ℕ = λ k. place n (succ_mod n head + (n - suc (length keys)) + k) in
    subst
      (λ (w : ℕ).
        write ring head h (place n (succ_mod n head + (n - w) + i)) ≡ get_or (keys ++ (h ∷ [])) i 0)
      (sym longer)
      (elim (Bool-cases (i == length keys)) [
        | inl e ↦
            let last : i ≡ length keys = (==_iff i (length keys)).0 e in
            ap (λ (k : ℕ). write ring head h (at k)) last
            ∙ ap (write ring head h) (place_last n head (length keys) inside few)
            ∙ write_self ring head h
            ∙ sym (get_or-append_last keys h)
            ∙ ap (λ (k : ℕ). get_or (keys ++ (h ∷ [])) k 0) (sym last)
        | inr e ↦
            let old : i < length keys = ground (arith, longer) in
            let (same, apart) = place_before n head (length keys) i inside few old in
            ap (write ring head h) same
            ∙ write_ne ring head (place n (head + (n - length keys) + i)) h (λ q. apart (sym q))
            ∙ stored i old
            ∙ sym (get_or-append_left keys h i old)
      ])

-- In a full ring the head is at the oldest key.
oldest_place : (n head l : ℕ) → head < n → suc l ≡ n → place n (head + (n - suc l) + 0) ≡ head
oldest_place n head l p q = ground arith

tail_place :
    (n head l i : ℕ)
    → suc l ≡ n
    → place n (head + (n - suc l) + suc i) ≡ place n (head + (n - l) + i)
tail_place n head l i q = ap (place n) (omega arith)

pub Stored-oldest :
    (n : ℕ) (ring : Array) (head x : ℕ) (keys : List ℕ)
    → head < n
    → suc (length keys) ≡ n
    → Stored n ring head (x ∷ keys)
    → ring head ≡ x
Stored-oldest n ring head x keys inside full stored =
    sym (ap ring (oldest_place n head (length keys) inside full)) ∙ stored 0 (omega arith)

pub Stored-tail :
    (n : ℕ) (ring : Array) (head x : ℕ) (keys : List ℕ)
    → suc (length keys) ≡ n
    → Stored n ring head (x ∷ keys)
    → Stored n ring head keys
Stored-tail n ring head x keys full stored i lt =
    sym (ap ring (tail_place n head (length keys) i full)) ∙ stored (suc i) (omega arith)
