-- ===== src/Stratum/JobDiff.antt =====
-- `conn_record_job_difficulty` and `conn_job_difficulty` of src/stratum.c: under which difficulty
-- each recent job went out to a connection.
use simplepool.Prelude.{
  ℕ, zero, suc, ◌+◌, ◌%◌, ◌≤◌, ◌<◌, ◌≡◌, refl, ap, ap₂, ◌≢◌, subst, inl, inr, true, false, ◌||◌,
  Option, none, some, List, [], ◌∷◌, arith, ◌==◌, ==_refl, if◌then◌else◌, length, take, set, get_or,
  Bool-cases, Option-cases,
}
use simplepool.Prelude.Int.{pos}
use simplepool.Prelude.Text.{same_text}
use simplepool.Double.{DoubleOps}

-- `sizeof job_diffs[0].job_id`, less the NUL.
abbrev pub id_capacity : ℕ
id_capacity = 31

pub record JobDiff (fl : DoubleOps) : Type 0 where
  pub job_id : List ℕ
  pub difficulty : fl.Double

-- `job_diffs`, whose length is the size of the ring, and `job_diffs_head`.
pub record DiffRing (fl : DoubleOps) : Type 0 where
  pub job_diffs : List (JobDiff fl)
  pub job_diffs_head : ℕ

module _ (fl : DoubleOps) where
  open fl use {of_ℤ, le}

  -- The first entry of the job, with its new difficulty; `none` where there is none.
  unfoldable pub update_first : List (JobDiff fl) → List ℕ → fl.Double → Option (List (JobDiff fl))
  update_first [] job_id d = none
  update_first (e ∷ es) job_id d =
      let rest = update_first es job_id d in
      if same_text e.job_id job_id
      then some (record e { difficulty = d } ∷ es)
      else elim rest [ none ↦ none | some es' ↦ some (e ∷ es') ]

  unfoldable pub conn_record_job_difficulty : DiffRing fl → List ℕ → fl.Double → DiffRing fl
  conn_record_job_difficulty r job_id d =
      if length job_id == 0 || le d (of_ℤ (pos 0))
      then r
      else elim (update_first r.job_diffs job_id d) [
        | some es ↦ record r { job_diffs = es }
        | none ↦ record {
          job_diffs =
              set r.job_diffs r.job_diffs_head
                (record { job_id = take id_capacity job_id; difficulty = d });
          job_diffs_head = (r.job_diffs_head + 1) % length r.job_diffs;
        }
      ]

  unfoldable pub find_first : List (JobDiff fl) → List ℕ → fl.Double
  find_first [] job_id = of_ℤ (pos 0)
  find_first (e ∷ es) job_id =
      let rest = find_first es job_id in if same_text e.job_id job_id then e.difficulty else rest

  unfoldable pub conn_job_difficulty : DiffRing fl → List ℕ → fl.Double
  conn_job_difficulty r job_id =
      if length job_id == 0 then of_ℤ (pos 0) else find_first r.job_diffs job_id

pub same_text_refl : (s : List ℕ) → same_text s s ≡ true
unfolding same_text
same_text_refl [] = refl
same_text_refl (c ∷ cs) = ground (arith, ==_refl c, same_text_refl cs)

pub same_text_sound : (s t : List ℕ) → same_text s t ≡ true → s ≡ t
unfolding same_text
same_text_sound [] [] e = refl
same_text_sound [] (c ∷ cs) e = cc
same_text_sound (c ∷ cs) [] e = cc
same_text_sound (c ∷ cs) (d ∷ ds) e = ap₂ ◌∷◌ (ground arith) (same_text_sound cs ds (ground arith))

take_short : (n : ℕ) (s : List ℕ) → length s ≤ n → take n s ≡ s
take_short zero [] h = refl
take_short zero (c ∷ cs) h = absurd (omega arith)
take_short (suc n) [] h = refl
take_short (suc n) (c ∷ cs) h = ap (◌∷◌ c) (take_short n cs (omega arith))

module _ (fl : DoubleOps) (job_id : List ℕ) (d : fl.Double) where
  updated-found :
      (es es' : List (JobDiff fl))
      → update_first fl es job_id d ≡ some es'
      → find_first fl es' job_id ≡ d
  unfolding update_first find_first
  updated-found [] es' e = cc
  updated-found (x ∷ es) es' e = elim (Bool-cases (same_text x.job_id job_id)) [
    | inl h ↦
        let made : record x { difficulty = d } ∷ es ≡ es' = ground arith in
        subst (λ (l : List (JobDiff fl)). find_first fl l job_id ≡ d) made (rw h refl)
    | inr h ↦ elim (Option-cases (update_first fl es job_id d)) [
      | inl f ↦ absurd (ground arith)
      | inr (rest, f) ↦
          let made : x ∷ rest ≡ es' = ground arith in
          subst (λ (l : List (JobDiff fl)). find_first fl l job_id ≡ d) made
            (rw h (updated-found es rest f))
    ]
  ]

  set-found :
      (es : List (JobDiff fl)) (i : ℕ)
      → update_first fl es job_id d ≡ none
      → i < length es
      → find_first fl (set es i (record { job_id = job_id; difficulty = d })) job_id ≡ d
  unfolding update_first find_first
  set-found [] i e h = absurd (omega arith)
  set-found (x ∷ es) zero e h = rw (same_text_refl job_id) refl
  set-found (x ∷ es) (suc i) e h = elim (Bool-cases (same_text x.job_id job_id)) [
    | inl k ↦ absurd (ground arith)
    | inr k ↦ elim (Option-cases (update_first fl es job_id d)) [
      | inl f ↦ rw k (set-found es i f (omega arith))
      | inr (rest, f) ↦ absurd (ground arith)
    ]
  ]

  differs : (s other : List ℕ) → s ≢ other → same_text s other ≡ false
  differs s other ne = elim (Bool-cases (same_text s other)) [
    | inl h ↦ absurd (ne (same_text_sound s other h))
    | inr h ↦ h
  ]

  updated-other :
      (other : List ℕ) (es es' : List (JobDiff fl))
      → job_id ≢ other
      → update_first fl es job_id d ≡ some es'
      → find_first fl es' other ≡ find_first fl es other
  unfolding update_first find_first
  updated-other other [] es' ne e = cc
  updated-other other (x ∷ es) es' ne e = elim (Bool-cases (same_text x.job_id job_id)) [
    | inl h ↦
        let made : record x { difficulty = d } ∷ es ≡ es' = ground arith in
        let apart : same_text x.job_id other ≡ false =
          rw (same_text_sound x.job_id job_id h) (differs job_id other ne) in
        subst (λ (l : List (JobDiff fl)). find_first fl l other ≡ find_first fl (x ∷ es) other) made
          (rw apart refl)
    | inr h ↦ elim (Option-cases (update_first fl es job_id d)) [
      | inl f ↦ absurd (ground arith)
      | inr (rest, f) ↦
          let made : x ∷ rest ≡ es' = ground arith in
          subst (λ (l : List (JobDiff fl)). find_first fl l other ≡ find_first fl (x ∷ es) other)
            made
            (ap (λ (v : fl.Double). if same_text x.job_id other then x.difficulty else v)
              (updated-other other es rest ne f))
    ]
  ]

  set-other :
      (other : List ℕ) (es : List (JobDiff fl)) (i : ℕ) (new : JobDiff fl)
      → new.job_id ≢ other
      → (get_or es i new).job_id ≢ other
      → find_first fl (set es i new) other ≡ find_first fl es other
  unfolding find_first
  set-other other [] i new ne old = refl
  set-other other (x ∷ es) zero new ne old =
      rw (differs new.job_id other ne, differs x.job_id other old) refl
  set-other other (x ∷ es) (suc i) new ne old =
      ap (λ (v : fl.Double). if same_text x.job_id other then x.difficulty else v)
        (set-other other es i new ne old)

-- A job that has gone out under a positive difficulty, with an id that fits its field, is found
-- under that difficulty, whether it was in the ring already or not.
pub record-found :
    (fl : DoubleOps) (r : DiffRing fl) (job_id : List ℕ) (d : fl.Double)
    → 0 < length job_id
    → length job_id ≤ id_capacity
    → fl.le d (fl.of_ℤ (pos 0)) ≡ false
    → r.job_diffs_head < length r.job_diffs
    → conn_job_difficulty fl (conn_record_job_difficulty fl r job_id d) job_id ≡ d
unfolding conn_job_difficulty conn_record_job_difficulty
record-found fl r job_id d named short positive head =
    let nonempty : (length job_id == 0) ≡ false = ground arith in
    elim (Option-cases (update_first fl r.job_diffs job_id d)) [
      | inl f ↦
          rw (nonempty, positive, f, take_short id_capacity job_id short)
            (set-found fl job_id d r.job_diffs r.job_diffs_head f head)
      | inr (es, f) ↦ rw (nonempty, positive, f) (updated-found fl job_id d r.job_diffs es f)
    ]

ring_other :
    (fl : DoubleOps) (r : DiffRing fl) (job_id other : List ℕ) (d : fl.Double)
    → length job_id ≤ id_capacity
    → job_id ≢ other
    → (get_or r.job_diffs r.job_diffs_head (record { job_id = job_id; difficulty = d })).job_id
      ≢ other
    → find_first fl (conn_record_job_difficulty fl r job_id d).job_diffs other
      ≡ find_first fl r.job_diffs other
unfolding conn_record_job_difficulty
ring_other fl r job_id other d short apart kept =
    elim (Bool-cases (length job_id == 0 || fl.le d (fl.of_ℤ (pos 0)))) [
      | inl skip ↦ rw skip refl
      | inr go ↦ elim (Option-cases (update_first fl r.job_diffs job_id d)) [
        | inl f ↦
            rw (go, f, take_short id_capacity job_id short)
              (set-other fl job_id d other r.job_diffs r.job_diffs_head
                (record { job_id = job_id; difficulty = d }) apart kept)
        | inr (es, f) ↦ rw (go, f) (updated-other fl job_id d other r.job_diffs es apart f)
      ]
    ]

-- The id in the slot that the next new job takes; out of the ring's bounds, the new job's own.
abbrev pub evicted_id : (fl : DoubleOps) → DiffRing fl → List ℕ → fl.Double → List ℕ
evicted_id fl r job_id d =
    (get_or r.job_diffs r.job_diffs_head (record { job_id = job_id; difficulty = d })).job_id

-- Recording a job leaves the difficulty of every other job as it was, but for the job whose entry
-- stands in the slot that a new job takes.
pub record-other :
    (fl : DoubleOps) (r : DiffRing fl) (job_id other : List ℕ) (d : fl.Double)
    → length job_id ≤ id_capacity
    → job_id ≢ other
    → evicted_id fl r job_id d ≢ other
    → conn_job_difficulty fl (conn_record_job_difficulty fl r job_id d) other
      ≡ conn_job_difficulty fl r other
unfolding conn_job_difficulty
record-other fl r job_id other d short apart kept =
    ap (λ (v : fl.Double). if length other == 0 then fl.of_ℤ (pos 0) else v)
      (ring_other fl r job_id other d short apart kept)
