-- ===== src/Stratum/Jobs.antt =====
-- The jobs of src/stratum.c: `stratum_job_new`, `stratum_job_set_window`, the job that
-- `stratum_server_set_job` puts in place, `retire_job` and `find_job`. The broadcast to the
-- connections is not part of it, and references are not counted: a job is a value.
pub mod Retention
mod Tests
use simplepool.Prelude.{
  ℕ, ◌+◌, ◌-◌, ◌%◌, ◌^◌, Bool, true, false, Option, none, some, List, [], ◌∷◌, map, ltb, ◌==◌,
  if◌then◌else◌, length, set, take,
}
use simplepool.Prelude.Int.{ℤ}
use simplepool.Prelude.Text.{same_text}
use simplepool.Window.{Payee}
use simplepool.Stratum.Dedupe.{fnv1a, or_empty}

-- RECENT_JOBS and RECENT_JOB_TTL_MS
abbrev pub recent_jobs : ℕ
recent_jobs = 16

abbrev pub recent_job_ttl_ms : ℕ
recent_job_ttl_ms = 300000

-- `struct stratum_job`
pub record StratumJob : Type 0 where
  pub job_id : List ℕ
  pub version : ℕ
  pub prev_hash_le : List ℕ
  pub value_sats : ℤ
  pub wc_hex : Option (List ℕ)
  pub coinbasetxn_hex : Option (List ℕ)
  pub coinbase_has_witness : Bool
  pub en1_size : ℕ
  pub en2_size : ℕ
  pub merkle_branches : List (List ℕ)
  pub nbits : ℕ
  pub ntime : ℕ
  pub network_target_be : List ℕ
  pub height : ℕ
  pub cb_salt : ℕ
  pub tx_hex_list : List (List ℕ)
  pub payees : List Payee
  pub payee_worker_ids : List ℤ
  pub created_ms : ℕ

unfoldable pub nonempty : Option (List ℕ) → Option (List ℕ)
nonempty none = none
nonempty (some text) = if length text == 0 then none else some text

-- `cb_salt`, which is never 0.
unfoldable pub salt_of : List ℕ → ℕ
salt_of job_id = let salt = fnv1a job_id % 2 ^ 32 in if salt == 0 then 1 else salt

-- The job of a template `t`, whose texts the call copies. `now` is the monotonic clock.
unfoldable pub stratum_job_new : StratumJob → ℕ → StratumJob
stratum_job_new t now = record t {
  job_id = take 31 t.job_id;
  wc_hex = nonempty t.wc_hex;
  coinbasetxn_hex = nonempty t.coinbasetxn_hex;
  cb_salt = salt_of (take 31 t.job_id);
  payees = [];
  payee_worker_ids = [];
  created_ms = now;
}

-- An address takes at most 127 characters.
unfoldable pub stored_payee : Payee → Payee
stored_payee p = record p { address = some (take 127 (or_empty p.address)) }

unfoldable pub stratum_job_set_window : StratumJob → List Payee → List ℤ → StratumJob
stratum_job_set_window j payees worker_ids = record j {
  payees = map stored_payee payees;
  payee_worker_ids = take (length payees) worker_ids;
}

-- `current_job`, `recent` and `recent_head` of the server.
pub record Jobs : Type 0 where
  pub current_job : Option StratumJob
  pub recent : List (Option StratumJob)
  pub recent_head : ℕ

unfoldable pub expire : ℕ → Option StratumJob → Option StratumJob
expire now none = none
expire now (some j) =
    if ltb recent_job_ttl_ms ((now + 2 ^ 64 - j.created_ms) % 2 ^ 64) then none else some j

unfoldable pub retire_job : ℕ → StratumJob → Jobs → Jobs
retire_job now j s = record s {
  recent = set (map (expire now) s.recent) s.recent_head (some j);
  recent_head = (s.recent_head + 1) % recent_jobs;
}

unfoldable pub retire_old : ℕ → Option StratumJob → Jobs → Jobs
retire_old now none s = s
retire_old now (some old) s = retire_job now old s

unfoldable pub stratum_server_set_job : ℕ → StratumJob → Jobs → Jobs
stratum_server_set_job now new_job s =
    retire_old now s.current_job (record s { current_job = some new_job })

unfoldable pub has_id : List ℕ → Option StratumJob → Bool
has_id job_id none = false
has_id job_id (some j) = same_text j.job_id job_id

unfoldable pub find_recent : List ℕ → List (Option StratumJob) → Option StratumJob
find_recent job_id [] = none
find_recent job_id (e ∷ es) =
    let rest = find_recent job_id es in if has_id job_id e then e else rest

unfoldable pub find_job : Jobs → List ℕ → Option StratumJob
find_job s job_id =
    if has_id job_id s.current_job then s.current_job else find_recent job_id s.recent
