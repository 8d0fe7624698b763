-- ===== src/Stratum/Jobs/Retention.antt =====
-- How long src/stratum.c finds a job that has been replaced.
use simplepool.Prelude.{
  ℕ, zero, suc, ◌+◌, ◌-◌, ◌%◌, ◌^◌, ◌≤◌, ◌<◌, ◌≡◌, ◌≢◌, refl, ap, sym, subst, ◌∙◌, inl, inr, true,
  false, Option, none, some, List, [], ◌∷◌, map, arith, ltb, ◌==◌, Bool-cases, ==_iff, length, set,
  get_or, length-set, length-map, get_or-set_self, get_or-set_ne, All,
}
use simplepool.Prelude.Text.{same_text}
use simplepool.Stratum.Jobs.{
  StratumJob, Jobs, recent_jobs, recent_job_ttl_ms, expire, retire_job, retire_old,
  stratum_server_set_job, has_id, find_recent, find_job,
}
use simplepool.Stratum.JobDiff.{same_text_refl}

-- A job that replaces the current one, and the time of the monotonic clock when it does.
pub record Swap : Type 0 where
  pub now : ℕ
  pub new_job : StratumJob

unfoldable pub set_jobs : List Swap → Jobs → Jobs
set_jobs [] s = s
set_jobs (x ∷ xs) s = set_jobs xs (stratum_server_set_job x.now x.new_job s)

-- The job is young enough when the swap happens, and has another id than the new one.
abbrev pub Harmless : StratumJob → Swap → Type 0
Harmless j x = (expire x.now (some j) ≡ some j) × (same_text x.new_job.job_id j.job_id ≡ false)

-- The ring has its full length, its head is inside, and no slot of it has the id.
abbrev pub Unused : List ℕ → Jobs → Type 0
Unused job_id s =
    (length s.recent ≡ recent_jobs)
    × (s.recent_head < recent_jobs)
    × ((i : ℕ) → has_id job_id (get_or s.recent i none) ≡ false)

-- The job stands `left` slots after the next one to be written, and nowhere else.
record IsKept (j : StratumJob) (left : ℕ) (s : Jobs) : Type 0 where
  full : length s.recent ≡ recent_jobs
  inside : s.recent_head < recent_jobs
  few : left < recent_jobs
  there : get_or s.recent ((s.recent_head + left) % recent_jobs) none ≡ some j
  only :
      (i : ℕ)
      → i ≢ (s.recent_head + left) % recent_jobs
      → has_id j.job_id (get_or s.recent i none) ≡ false

get_or-expire :
    (now : ℕ) (es : List (Option StratumJob)) (i : ℕ)
    → get_or (map (expire now) es) i none ≡ expire now (get_or es i none)
unfolding expire
get_or-expire now [] i = refl
get_or-expire now (e ∷ es) zero = refl
get_or-expire now (e ∷ es) (suc i) = get_or-expire now es i

has_id-expire :
    (job_id : List ℕ) (now : ℕ) (e : Option StratumJob)
    → has_id job_id e ≡ false
    → has_id job_id (expire now e) ≡ false
unfolding has_id expire
has_id-expire job_id now none other = refl
has_id-expire job_id now (some j) other =
    elim (Bool-cases (ltb recent_job_ttl_ms ((now + 2 ^ 64 - j.created_ms) % 2 ^ 64))) [
      | inl old ↦ rw old refl
      | inr young ↦ rw young other
    ]

find_recent_lem :
    (j : StratumJob) (es : List (Option StratumJob)) (p : ℕ)
    → p < length es
    → get_or es p none ≡ some j
    → ((i : ℕ) → i ≢ p → has_id j.job_id (get_or es i none) ≡ false)
    → find_recent j.job_id es ≡ some j
unfolding find_recent has_id
find_recent_lem j [] p lt there only = absurd (omega arith)
find_recent_lem j (e ∷ es) zero lt there only =
    let here : e ≡ some j = there in rw (here, same_text_refl j.job_id) refl
find_recent_lem j (e ∷ es) (suc p) lt there only =
    let other : has_id j.job_id e ≡ false = only 0 (λ s. absurd (omega arith)) in
    rw other
      (find_recent_lem j es p (omega arith) there (λ i ne. only (suc i) (λ s. ne (omega arith))))

IsKept-retire :
    (now left : ℕ) (j old : StratumJob) (s : Jobs)
    → expire now (some j) ≡ some j
    → same_text old.job_id j.job_id ≡ false
    → IsKept j (suc left) s
    → IsKept j left (retire_job now old s)
unfolding retire_job has_id
IsKept-retire now left j old s young other k =
    let head : ℕ = s.recent_head in
    let inside = k.inside in
    let few = k.few in
    let slot : ℕ = (head + suc left) % recent_jobs in
    let swept : List (Option StratumJob) = map (expire now) s.recent in
    let moved : ((head + 1) % recent_jobs + left) % recent_jobs ≡ slot = omega arith in
    let apart : head ≢ slot = λ e. absurd (omega arith) in
    let full : length swept ≡ recent_jobs = length-map (expire now) s.recent ∙ k.full in
    record {
      full = length-set swept head (some old) ∙ full;
      inside = omega arith;
      few = omega arith;
      there =
          ap (λ (i : ℕ). get_or (set swept head (some old)) i none) moved
          ∙ get_or-set_ne swept head slot (some old) none apart
          ∙ get_or-expire now s.recent slot
          ∙ ap (expire now) k.there
          ∙ young;
      only = λ i ne. elim (Bool-cases (i == head)) [
        | inl e ↦
            let here : get_or (set swept head (some old)) i none ≡ some old =
              ap (λ (m : ℕ). get_or (set swept head (some old)) m none) ((==_iff i head).0 e)
              ∙ get_or-set_self swept head (some old) none (omega arith) in
            rw here other
        | inr e ↦
            let ne' : head ≢ i = λ q. absurd (ground arith) in
            let far : i ≢ slot = λ q. ne (q ∙ sym moved) in
            rw (get_or-set_ne swept head i (some old) none ne', get_or-expire now s.recent i)
              (has_id-expire j.job_id now (get_or s.recent i none) (k.only i far))
      ];
    }

-- The job itself is retired.
retire-IsKept :
    (now : ℕ) (j : StratumJob) (s : Jobs) → Unused j.job_id s → IsKept j 15 (retire_job now j s)
unfolding retire_job has_id
retire-IsKept now j s (full, inside, none_has) =
    let head : ℕ = s.recent_head in
    let swept : List (Option StratumJob) = map (expire now) s.recent in
    let wide : length swept ≡ recent_jobs = length-map (expire now) s.recent ∙ full in
    let back : ((head + 1) % recent_jobs + 15) % recent_jobs ≡ head = omega arith in
    record {
      full = length-set swept head (some j) ∙ wide;
      inside = omega arith;
      few = omega arith;
      there =
          ap (λ (i : ℕ). get_or (set swept head (some j)) i none) back
          ∙ get_or-set_self swept head (some j) none (omega arith);
      only = λ i ne.
          let ne' : head ≢ i = λ q. ne (sym q ∙ sym back) in
          rw (get_or-set_ne swept head i (some j) none ne', get_or-expire now s.recent i)
            (has_id-expire j.job_id now (get_or s.recent i none) (none_has i));
    }

found-kept :
    (j c : StratumJob) (left : ℕ) (s : Jobs)
    → s.current_job ≡ some c
    → same_text c.job_id j.job_id ≡ false
    → IsKept j left s
    → find_job s j.job_id ≡ some j
unfolding find_job has_id
found-kept j c left s current other k =
    let not_current : has_id j.job_id s.current_job ≡ false =
      ap (has_id j.job_id) current ∙ other in
    let full = k.full in
    rw not_current (
      find_recent_lem j s.recent ((s.recent_head + left) % recent_jobs) (omega arith) k.there
        k.only)

swap_lem :
    (x : Swap) (c : StratumJob) (s : Jobs)
    → s.current_job ≡ some c
    → stratum_server_set_job x.now x.new_job s
      ≡ retire_job x.now c (record s { current_job = some x.new_job })
unfolding stratum_server_set_job retire_old
swap_lem x c s current =
    ap (λ (o : Option StratumJob). retire_old x.now o (record s { current_job = some x.new_job }))
      current

retire_job-current :
    (now : ℕ) (c n : StratumJob) (s : Jobs)
    → (retire_job now c (record s { current_job = some n })).current_job ≡ some n
unfolding retire_job
retire_job-current now c n s = refl

kept-through :
    (j c : StratumJob) (left : ℕ) (xs : List Swap) (s : Jobs)
    → length xs ≤ left
    → All (Harmless j) xs
    → s.current_job ≡ some c
    → same_text c.job_id j.job_id ≡ false
    → IsKept j left s
    → find_job (set_jobs xs s) j.job_id ≡ some j
unfolding set_jobs
kept-through j c left [] s few harmless current other k = found-kept j c left s current other k
kept-through j c zero (x ∷ xs) s few harmless current other k = absurd (omega arith)
kept-through j c (suc left) (x ∷ xs) s few harmless current other k =
    let s' : Jobs = record s { current_job = some x.new_job } in
    let k' : IsKept j (suc left) s' = record {
      full = k.full;
      inside = k.inside;
      few = k.few;
      there = k.there;
      only = k.only;
    } in
    subst (λ (t : Jobs). find_job (set_jobs xs t) j.job_id ≡ some j) (sym (swap_lem x c s current))
      (kept-through j x.new_job left xs (retire_job x.now c s') (omega arith) harmless.1
        (retire_job-current x.now c x.new_job s) harmless.0.1
        (IsKept-retire x.now left j c s' harmless.0.0 other k'))

-- A job stays findable under its id while up to 16 jobs with other ids replace it, one after
-- another, as long as it is no older than the retention time at each of these moments; no job that
-- was retired before it may have the same id.
pub find_job-retained :
    (j : StratumJob) (s : Jobs) (swaps : List Swap)
    → s.current_job ≡ some j
    → Unused j.job_id s
    → length swaps ≤ recent_jobs
    → All (Harmless j) swaps
    → find_job (set_jobs swaps s) j.job_id ≡ some j
unfolding set_jobs find_job has_id
find_job-retained j s [] current unused few harmless =
    let here : has_id j.job_id s.current_job ≡ true =
      ap (has_id j.job_id) current ∙ same_text_refl j.job_id in
    rw here current
find_job-retained j s (x ∷ xs) current unused few harmless =
    let s' : Jobs = record s { current_job = some x.new_job } in
    subst (λ (t : Jobs). find_job (set_jobs xs t) j.job_id ≡ some j) (sym (swap_lem x j s current))
      (kept-through j x.new_job 15 xs (retire_job x.now j s') (omega arith) harmless.1
        (retire_job-current x.now j x.new_job s) harmless.0.1 (retire-IsKept x.now j s' unused))
