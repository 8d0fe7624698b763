-- ===== src/Stratum/Tests.antt =====
-- The theorems on a connection's bookkeeping at concrete states.
use simplepool.Prelude.{ℕ, ◌≡◌, List, [], ◌∷◌, arith, refl, true, replicate}
use simplepool.Prelude.Int.{pos}
use simplepool.Double.{fractions, Fraction}
use simplepool.Stratum.Limiter.{Limiter, Tally, submits, submits-Tally}
use simplepool.Stratum.Dedupe.{Dedupe, holds, check_and_add, after_submits, resubmit-caught}
use simplepool.Stratum.JobDiff.{
  DiffRing, conn_record_job_difficulty, conn_job_difficulty, record-found, record-other,
}

abbrev busy : Limiter
busy = record { window_start_ms = 5000; window_count = 1; limited = 0; limited_total = 0 }

submits-Tally_example :
    Tally 2 (5100 ∷ 5200 ∷ 5300 ∷ []) busy (submits (pos 2) (5100 ∷ 5200 ∷ 5300 ∷ []) busy)
submits-Tally_example =
    submits-Tally 2 (omega arith) (omega arith) (5100 ∷ 5200 ∷ 5300 ∷ []) busy (omega arith)
      (omega arith)
      (
        (omega arith, omega arith, omega arith),
        ((omega arith, omega arith, omega arith), ((omega arith, omega arith, omega arith), tt)),
      )

abbrev half : Fraction
half = record { num = pos 1; den = 2 }

abbrev first_job : List ℕ
first_job = 97 ∷ []

abbrev second_job : List ℕ
second_job = 98 ∷ []

abbrev ring : DiffRing fractions
ring = record {
  job_diffs =
      record { job_id = first_job; difficulty = half }
      ∷ record { job_id = []; difficulty = half }
      ∷ [];
  job_diffs_head = 1;
}

record-found_example :
    conn_job_difficulty fractions
      (conn_record_job_difficulty fractions ring second_job half)
      second_job
    ≡ half
record-found_example =
    record-found fractions ring second_job half (omega arith) (omega arith) refl (omega arith)

record-other_example :
    conn_job_difficulty fractions
      (conn_record_job_difficulty fractions ring second_job half)
      first_job
    ≡ conn_job_difficulty fractions ring first_job
record-other_example =
    record-other fractions ring second_job first_job half (omega arith) (λ e. ground arith)
      (λ e. ground arith)

abbrev fresh_ring : Dedupe
fresh_ring = record { dedupe = replicate 1024 0; dedupe_head = 1023 }

resubmit-caught_example :
    (check_and_add (after_submits (check_and_add fresh_ring 5).1 (7 ∷ 8 ∷ [])) 5).0 ≡ true
unfolding holds
resubmit-caught_example =
    resubmit-caught fresh_ring 5 (7 ∷ 8 ∷ []) (refl, omega arith) refl (omega arith)
