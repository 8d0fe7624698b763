-- ===== src/Store/Ring.antt =====
-- The ring of src/store.c as the list of the events that it holds, oldest first.
use simplepool.Prelude.{
  ℕ, zero, suc, ◌+◌, ◌-◌, ◌%◌, ◌^◌, ◌≤◌, ◌<◌, ◌≡◌, ◌≢◌, refl, sym, ap, ap₂, ◌∙◌, ◌⊎◌, inl, inr,
  Bool-cases, none, some, List, [], ◌∷◌, ◌++◌, ◌==◌, length, arith,
}
use native.Mathlib.Nat.{mod-add-mod, mod-eq_of_lt, mod-eq-sub-mod}
use native.Mathlib.Decide.{dec_lt}
use simplepool.Store.{Queue, ring_write, pushed, enqueue}
use simplepool.Store.Writer.{drain, take_batch}

-- One step on the ring, and then the others.
step-mod : (slots tail n : ℕ) → ((tail + 1) % slots + n) % slots ≡ (tail + suc n) % slots
step-mod slots tail n =
    mod-add-mod (tail + 1) slots n
    ∙ ap (λ k. k % slots) {x = tail + 1 + n} {y = tail + suc n} (omega arith)

-- Fewer steps than the ring has slots do not come back.
apart : {slots tail n : ℕ} → tail < slots → suc n < slots → (tail + suc n) % slots ≢ tail
apart {slots} {tail} {n} t s = elim (dec_lt (tail + suc n) slots) [
  | yes p ↦ omega (arith, mod-eq_of_lt p)
  | no p ↦ omega (
    arith,
    mod-eq-sub-mod {n = tail + suc n} {m = slots} (omega arith),
    mod-eq_of_lt {n = tail + suc n - slots} {m = slots} (omega arith),
  )
]

module _ {ℓ} {A : Type ℓ} where
  abbrev pub contents_from : (ℕ → A) → ℕ → ℕ → ℕ → List A
  contents_from ring slots tail zero = []
  contents_from ring slots tail (suc n) =
      ring tail ∷ contents_from ring slots ((tail + 1) % slots) n

  abbrev pub contents : Queue A → List A
  contents q = contents_from q.ring q.ring_cap q.ring_tail q.ring_count

  pub record IsRing (q : Queue A) : Type ℓ where
    pub has_room : 0 < q.ring_cap
    pub small : q.ring_cap < 2 ^ 64
    pub count_in : q.ring_count ≤ q.ring_cap
    pub tail_in : q.ring_tail < q.ring_cap
    pub head_at : q.ring_head ≡ (q.ring_tail + q.ring_count) % q.ring_cap

  pub length-contents_from :
      (ring : ℕ → A) (slots tail n : ℕ) → length (contents_from ring slots tail n) ≡ n
  length-contents_from ring slots tail zero = refl
  length-contents_from ring slots tail (suc n) =
      ap suc (length-contents_from ring slots ((tail + 1) % slots) n)

  at-ring_write : (a : ℕ → A) (i : ℕ) (v : A) → ring_write a i v i ≡ v
  unfolding ring_write
  at-ring_write a i v = ground arith

  elsewhere-ring_write : (a : ℕ → A) (i j : ℕ) (v : A) → i ≢ j → ring_write a i v j ≡ a j
  unfolding ring_write
  elsewhere-ring_write a i j v ne = ground arith

  -- The event that is written at the head is the newest one.
  contents-ring_write :
      (ring : ℕ → A) (slots tail n head : ℕ) (ev : A)
      → tail < slots
      → n < slots
      → head ≡ (tail + n) % slots
      → contents_from (ring_write ring head ev) slots tail (suc n)
        ≡ contents_from ring slots tail n ++ (ev ∷ [])
  contents-ring_write ring slots tail zero head ev t small e =
      ap (λ x. x ∷ [])
        (ap (ring_write ring head ev)
            (sym (e ∙ ap (λ k. k % slots) {x = tail + 0} {y = tail} (omega arith) ∙ mod-eq_of_lt t))
          ∙ at-ring_write ring head ev)
  contents-ring_write ring slots tail (suc n) head ev t small e =
      ap₂ ◌∷◌ (elsewhere-ring_write ring head tail ev (λ w. apart t small (sym e ∙ w))) (
        contents-ring_write ring slots ((tail + 1) % slots) n head ev (omega arith) (omega arith)
          (e ∙ sym (step-mod slots tail n)))

  pub enqueue_cases :
      (ev : A) (q : Queue A)
      → (enqueue ev q ≡ none) ⊎ ((q.ring_count ≢ q.ring_cap) × (enqueue ev q ≡ some (pushed ev q)))
  unfolding enqueue
  enqueue_cases ev q = elim (Bool-cases (q.ring_count == q.ring_cap)) [
    | inl e ↦ inl (rw e refl)
    | inr e ↦ inr (ground arith, rw e refl)
  ]

  pub pushed-contents :
      (ev : A) (q : Queue A)
      → IsRing q
      → q.ring_count ≢ q.ring_cap
      → IsRing (pushed ev q) × (contents (pushed ev q) ≡ contents q ++ (ev ∷ []))
  unfolding pushed
  pushed-contents ev q r free = (
    record {
      has_room = r.has_room;
      small = r.small;
      count_in = omega arith;
      tail_in = r.tail_in;
      head_at =
          ap (λ k. (k + 1) % q.ring_cap) r.head_at
          ∙ mod-add-mod (q.ring_tail + q.ring_count) q.ring_cap 1
          ∙ ap (λ k. k % q.ring_cap) {x = q.ring_tail + q.ring_count + 1}
              {y = q.ring_tail + (q.ring_count + 1)} (omega arith);
    },
    ap (contents_from (ring_write q.ring q.ring_head ev) q.ring_cap q.ring_tail)
          {x = q.ring_count + 1} {y = suc q.ring_count} (omega arith)
        ∙ contents-ring_write q.ring q.ring_cap q.ring_tail q.ring_count q.ring_head ev r.tail_in
            (omega arith) r.head_at,
  )

  -- What the writer takes is the oldest part of the ring.
  drain-contents :
      (ring : ℕ → A) (slots tail n m : ℕ)
      → tail < slots
      → (contents_from ring slots tail (n + m)
          ≡ (drain ring slots tail n).0 ++ contents_from ring slots (drain ring slots tail n).1 m)
        × (length (drain ring slots tail n).0 ≡ n)
        × ((drain ring slots tail n).1 ≡ (tail + n) % slots)
  unfolding drain
  drain-contents ring slots tail zero m t = (
    ap (contents_from ring slots tail) {x = 0 + m} {y = m} (omega arith),
    refl,
    sym (ap (λ k. k % slots) {x = tail + 0} {y = tail} (omega arith) ∙ mod-eq_of_lt t),
  )
  drain-contents ring slots tail (suc n) m t =
      let (whole, size, at) = drain-contents ring slots ((tail + 1) % slots) n m (omega arith) in
      (
        ap (contents_from ring slots tail) {x = suc n + m} {y = suc (n + m)} (omega arith)
            ∙ ap (λ xs. ring tail ∷ xs) whole,
        ap suc size,
        at ∙ step-mod slots tail n,
      )

  pub take_batch-contents :
      (take : ℕ) (q : Queue A)
      → take ≤ q.ring_count
      → IsRing q
      → IsRing (take_batch take q).1
        × (contents q ≡ (take_batch take q).0 ++ contents (take_batch take q).1)
        × (length (take_batch take q).0 ≡ take)
  unfolding take_batch
  take_batch-contents take q le r =
      let (whole, size, at) =
        drain-contents q.ring q.ring_cap q.ring_tail take (q.ring_count - take) r.tail_in in
      (
        record {
          has_room = r.has_room;
          small = r.small;
          count_in = omega arith;
          tail_in = omega arith;
          head_at =
              r.head_at
              ∙ ap (λ k. k % q.ring_cap) {x = q.ring_tail + q.ring_count}
                  {y = q.ring_tail + take + (q.ring_count - take)} (omega arith)
              ∙ sym (
                  ap (λ k. (k + (q.ring_count - take)) % q.ring_cap) at
                  ∙ mod-add-mod (q.ring_tail + take) q.ring_cap (q.ring_count - take));
        },
        ap (contents_from q.ring q.ring_cap q.ring_tail) {x = q.ring_count}
              {y = take + (q.ring_count - take)} (omega arith)
            ∙ whole,
        size,
      )
