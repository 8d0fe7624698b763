-- ===== src/Stratum/Dedupe.antt =====
-- `dedupe_check_and_add` of src/stratum.c: the ring in which a connection keeps the hashes of its
-- recent submits.
use Prim.Native.Nat.{bit_xor}
use simplepool.Prelude.{
  ℕ, zero, suc, ◌+◌, ◌*◌, ◌/◌, ◌%◌, ◌^◌, ◌≤◌, ◌<◌, ◌≡◌, ◌≢◌, refl, ap, ◌∙◌, inl, inr, Bool, true,
  false, ◌||◌, Option, none, some, List, [], ◌∷◌, ◌++◌, arith, ◌==◌, if◌then◌else◌, length,
  length-set, take, set, get_or, get_or-set_self, get_or-set_ne, Bool-cases,
}
use simplepool.Hex.{bytes_to_hex}

-- `h ^= c; h *= 1099511628211;` for each character, on a `uint64_t`.
unfoldable pub fnv1a_from : ℕ → List ℕ → ℕ
fnv1a_from h [] = h
fnv1a_from h (c ∷ cs) = fnv1a_from (bit_xor h c * 1099511628211 % 2 ^ 64) cs

unfoldable pub fnv1a : List ℕ → ℕ
fnv1a s = fnv1a_from 1469598103934665603 s

unfoldable pub or_empty : Option (List ℕ) → List ℕ
or_empty none = []
or_empty (some s) = s

-- `snprintf(key, 256, "%s|%s|%s|%s|%08x", ...)`.
unfoldable pub dedupe_key :
    Option (List ℕ) → Option (List ℕ) → Option (List ℕ) → Option (List ℕ) → ℕ → List ℕ
dedupe_key jid en2 ntime nonce version = take 255 (
    or_empty jid
    ++ (b'|' ∷ [])
    ++ or_empty en2
    ++ (b'|' ∷ [])
    ++ or_empty ntime
    ++ (b'|' ∷ [])
    ++ or_empty nonce
    ++ (b'|' ∷ [])
    ++ bytes_to_hex (
        (version / 2 ^ 24 % 256)
        ∷ (version / 2 ^ 16 % 256)
        ∷ (version / 2 ^ 8 % 256)
        ∷ (version % 256)
        ∷ []))

-- DEDUPE_RING
abbrev pub dedupe_ring : ℕ
dedupe_ring = 1024

-- The `dedupe` fields of `stratum_conn`.
pub record Dedupe : Type 0 where
  pub dedupe : List ℕ
  pub dedupe_head : ℕ

unfoldable pub holds : List ℕ → ℕ → Bool
holds [] h = false
holds (x ∷ xs) h = x == h || holds xs h

-- `true` for a duplicate; a hash that is not there replaces the oldest one.
unfoldable pub check_and_add : Dedupe → ℕ → Bool × Dedupe
check_and_add c h = if holds c.dedupe h then (true, c) else (
  false,
  record { dedupe = set c.dedupe c.dedupe_head h; dedupe_head = (c.dedupe_head + 1) % dedupe_ring },
)

unfoldable pub dedupe_check_and_add :
    Dedupe
    → Option (List ℕ)
    → Option (List ℕ)
    → Option (List ℕ)
    → Option (List ℕ)
    → ℕ
    → Bool × Dedupe
dedupe_check_and_add c jid en2 ntime nonce version =
    check_and_add c (fnv1a (dedupe_key jid en2 ntime nonce version))

-- The ring after a run of submits.
unfoldable pub after_submits : Dedupe → List ℕ → Dedupe
after_submits c [] = c
after_submits c (h ∷ hs) = after_submits (check_and_add c h).1 hs

abbrev pub WellFormed : Dedupe → Type 0
WellFormed c = (length c.dedupe ≡ dedupe_ring) × (c.dedupe_head < dedupe_ring)

-- The hash stands in the slot that comes `left` slots after the next one to be written.
Kept : ℕ → ℕ → Dedupe → Type 0
Kept h left c =
    WellFormed c
    × (left < dedupe_ring)
    × (get_or c.dedupe ((c.dedupe_head + left) % dedupe_ring) 0 ≡ h)

holds-get_or : (xs : List ℕ) (i h : ℕ) → i < length xs → get_or xs i 0 ≡ h → holds xs h ≡ true
unfolding holds
holds-get_or [] i h lt e = absurd (omega arith)
holds-get_or (x ∷ xs) zero h lt e = ground arith
holds-get_or (x ∷ xs) (suc i) h lt e = ground (arith, holds-get_or xs i h (omega arith) e)

Kept-add :
    (h left g : ℕ) (c : Dedupe)
    → Kept h (suc left) c
    → (l : ℕ) × (left ≤ l) × Kept h l (check_and_add c g).1
unfolding Kept check_and_add
Kept-add h left g c k = elim (Bool-cases (holds c.dedupe g)) [
  | inl dup ↦ rw dup (suc left, omega arith, k)
  | inr new ↦
      let head : ℕ = c.dedupe_head in
      let ((wide, within), few, there) = k in
      let slot : ℕ = (head + suc left) % dedupe_ring in
      let moved : ((head + 1) % dedupe_ring + left) % dedupe_ring ≡ slot = omega arith in
      let spared : head ≢ slot = λ e. absurd (omega arith) in
      rw new (
        left,
        omega arith,
        (
          (length-set c.dedupe head g ∙ wide, omega arith),
          omega arith,
          ap (λ (i : ℕ). get_or (set c.dedupe head g) i 0) moved
              ∙ get_or-set_ne c.dedupe head slot g 0 spared
              ∙ there,
        ),
      )
]

Kept-after :
    (h left : ℕ) (gs : List ℕ) (c : Dedupe)
    → length gs ≤ left
    → Kept h left c
    → (l : ℕ) × Kept h l (after_submits c gs)
unfolding after_submits
Kept-after h left [] c few k = (left, k)
Kept-after h zero (g ∷ gs) c few k = absurd (omega arith)
Kept-after h (suc left) (g ∷ gs) c few k =
    let (l, enough, k') = Kept-add h left g c k in
    Kept-after h l gs (check_and_add c g).1 (omega arith) k'

Kept-held : (h left : ℕ) (c : Dedupe) → Kept h left c → holds c.dedupe h ≡ true
unfolding Kept
Kept-held h left c k =
    let ((wide, within), few, there) = k in
    holds-get_or c.dedupe ((c.dedupe_head + left) % dedupe_ring) h (omega arith) there

-- A submit that was new is reported as a duplicate when it comes again, as long as no more than
-- 1023 submits, of any kind, have come between.
pub resubmit-caught :
    (c : Dedupe) (h : ℕ) (between : List ℕ)
    → WellFormed c
    → holds c.dedupe h ≡ false
    → length between < dedupe_ring
    → (check_and_add (after_submits (check_and_add c h).1 between) h).0 ≡ true
unfolding check_and_add Kept
resubmit-caught c h between wf fresh few =
    let head : ℕ = c.dedupe_head in
    let (wide, within) = wf in
    let stored : Dedupe = record {
      dedupe = set c.dedupe head h;
      dedupe_head = (head + 1) % dedupe_ring;
    } in
    let back : ((head + 1) % dedupe_ring + 1023) % dedupe_ring ≡ head = omega arith in
    let kept : Kept h 1023 stored = (
      (length-set c.dedupe head h ∙ wide, omega arith),
      omega arith,
      ap (λ (i : ℕ). get_or (set c.dedupe head h) i 0) back
          ∙ get_or-set_self c.dedupe head h 0 (omega arith),
    ) in
    let (l, k) = Kept-after h 1023 between stored (omega arith) kept in
    let again = Kept-held h l (after_submits stored between) k in rw (fresh, again) refl
