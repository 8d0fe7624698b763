-- ===== src/Stratum/Jobs/Tests.antt =====
-- Jobs of src/stratum.c that are replaced.
use simplepool.Prelude.{
  ℕ, zero, suc, ◌≡◌, refl, false, none, some, List, [], ◌∷◌, arith, replicate, get_or, All,
}
use simplepool.Prelude.Int.{pos}
use simplepool.Prelude.Text.{codes, same_text}
use simplepool.Stratum.Jobs.{
  StratumJob, Jobs, stratum_job_new, salt_of, nonempty, expire, has_id, find_job,
}
use simplepool.Stratum.Jobs.Retention.{Swap, set_jobs, Unused, Harmless, find_job-retained}

abbrev template : StratumJob
template = record {
  job_id = codes "a";
  version = 1;
  prev_hash_le = [];
  value_sats = pos 50;
  wc_hex = some [];
  coinbasetxn_hex = none;
  coinbase_has_witness = false;
  en1_size = 4;
  en2_size = 8;
  merkle_branches = [];
  nbits = 0;
  ntime = 0;
  network_target_be = [];
  height = 7;
  cb_salt = 0;
  tx_hex_list = [];
  payees = [];
  payee_worker_ids = [];
  created_ms = 0;
}

-- An empty commitment is none, and the salt is taken from the id.
made : (stratum_job_new template 5).wc_hex ≡ none
unfolding stratum_job_new nonempty
made = refl

salted : (stratum_job_new template 5).cb_salt ≡ salt_of (codes "a")
unfolding stratum_job_new
salted = refl

abbrev job : StratumJob
job = record template { created_ms = 1000 }

abbrev swap : List ℕ → ℕ → Swap
swap job_id now = record {
  now = now;
  new_job = record template { job_id = job_id; created_ms = now };
}

abbrev swaps : List Swap
swaps = swap (codes "b") 2000 ∷ swap (codes "c") 200000 ∷ []

abbrev started : Jobs
started = record { current_job = some job; recent = replicate 16 none; recent_head = 15 }

nothing_retired : (n i : ℕ) → has_id job.job_id (get_or (replicate n none) i none) ≡ false
unfolding has_id
nothing_retired zero i = refl
nothing_retired (suc n) zero = refl
nothing_retired (suc n) (suc i) = nothing_retired n i

started-Unused : Unused job.job_id started
started-Unused = (refl, omega arith, nothing_retired 16)

swaps-Harmless : All (Harmless job) swaps
unfolding expire same_text
swaps-Harmless = ((refl, refl), ((refl, refl), tt))

find_job-retained_example : find_job (set_jobs swaps started) job.job_id ≡ some job
find_job-retained_example =
    find_job-retained job started swaps refl started-Unused (omega arith) swaps-Harmless
