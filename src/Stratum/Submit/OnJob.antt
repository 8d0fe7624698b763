-- ===== src/Stratum/Submit/OnJob.antt =====
-- Every credit that `handle_submit` of src/stratum.c gives stands for work on a job of the server.
use simplepool.Prelude.{
  ℕ, ◌+◌, ◌-◌, ◌%◌, ◌^◌, ◌≡◌, ltb, refl, subst, Bool, not, ◌&&◌, ◌||◌, Option, none, some, List, [],
  ◌∷◌, ◌==◌, if◌then◌else◌, All,
}
use simplepool.Double.{DoubleOps}
use simplepool.Template.{Outcome}
use simplepool.Stratum.Limiter.{submit_rate_exceeded}
use simplepool.Stratum.Jobs.{StratumJob, Jobs}
use simplepool.Stratum.Submit.{
  Submission, Reason, SubmitConfig, Conn, Server, Event, Turn, rl_report_interval_ms, refuse,
  reject, submit_found, submit_with_job, submit_limited, handle_submit, submit_rate_report,
  find_named, rolled_version,
}
use simplepool.Stratum.Submit.Credit.{Holds, if-Holds, IsBacked, Backed, AllBacked}
use simplepool.Stratum.Submit.Backed.{submit_versioned-Backed}

module _ (realloc calloc malloc : ℕ → Bool) (fl : DoubleOps) (sha256 : List ℕ → List ℕ)
    (on_block : List ℕ → Bool) (cfg : SubmitConfig fl) (now : ℕ) where
  -- A credit stands for work on the job that the request names, where that is one of the server's.
  abbrev pub OnJob : Jobs → List ℕ → Option (List ℕ) → Event fl → Type 0
  OnJob jobs extranonce1 job_id (Event.share d is_block shown) =
      (job : StratumJob) × (find_named jobs job_id ≡ some job)
      × IsBacked fl sha256 job extranonce1 d is_block shown
  OnJob jobs extranonce1 job_id (Event.rejected why) = Unit {0}
  OnJob jobs extranonce1 job_id (Event.block_submitted hex) = Unit {0}
  OnJob jobs extranonce1 job_id (Event.block_found height hash reward fee accepted) = Unit {0}
  OnJob jobs extranonce1 job_id (Event.set_difficulty d) = Unit {0}

  abbrev AllOnJob : Jobs → List ℕ → Option (List ℕ) → Turn fl → Type 0
  AllOnJob jobs extranonce1 job_id t = All (OnJob jobs extranonce1 job_id) t.events

  event-OnJob :
      (jobs : Jobs) (extranonce1 : List ℕ) (job_id : Option (List ℕ)) (job : StratumJob)
      → find_named jobs job_id ≡ some job
      → (e : Event fl) → Backed fl sha256 job extranonce1 e
      → OnJob jobs extranonce1 job_id e
  event-OnJob jobs extranonce1 job_id job named (Event.share d is_block shown) b = (job, named, b)
  event-OnJob jobs extranonce1 job_id job named (Event.rejected why) b = tt
  event-OnJob jobs extranonce1 job_id job named (Event.block_submitted hex) b = tt
  event-OnJob jobs extranonce1 job_id job named (Event.block_found height hash reward fee accepted)
        b =
      tt
  event-OnJob jobs extranonce1 job_id job named (Event.set_difficulty d) b = tt

  events-OnJob :
      (jobs : Jobs) (extranonce1 : List ℕ) (job_id : Option (List ℕ)) (job : StratumJob)
      → find_named jobs job_id ≡ some job
      → (es : List (Event fl)) → All (Backed fl sha256 job extranonce1) es
      → All (OnJob jobs extranonce1 job_id) es
  events-OnJob jobs extranonce1 job_id job named [] b = tt
  events-OnJob jobs extranonce1 job_id job named (e ∷ es) b = (
    event-OnJob jobs extranonce1 job_id job named e b.0,
    events-OnJob jobs extranonce1 job_id job named es b.1,
  )

  outcome-OnJob :
      (jobs : Jobs) (extranonce1 : List ℕ) (job_id : Option (List ℕ)) (job : StratumJob)
      → find_named jobs job_id ≡ some job
      → (o : Outcome (Turn fl)) → Holds (AllBacked fl sha256 job extranonce1) o
      → Holds (AllOnJob jobs extranonce1 job_id) o
  outcome-OnJob jobs extranonce1 job_id job named Outcome.refused b = tt
  outcome-OnJob jobs extranonce1 job_id job named Outcome.fault b = tt
  outcome-OnJob jobs extranonce1 job_id job named (Outcome.ok t) b =
      events-OnJob jobs extranonce1 job_id job named t.events b

  submit_found-OnJob :
      (q : Submission) (c : Conn fl) (s : Server) (o : Option StratumJob)
      → find_named s.jobs q.job_id ≡ o
      → Holds
          (AllOnJob s.jobs c.extranonce1 q.job_id)
          (submit_found realloc calloc malloc fl sha256 on_block cfg now q c s o)
  unfolding submit_found reject submit_with_job
  submit_found-OnJob q c s none named = (tt, tt)
  submit_found-OnJob q c s (some job) named =
      outcome-OnJob s.jobs c.extranonce1 q.job_id job named
        (submit_with_job realloc calloc malloc fl sha256 on_block cfg now job q c s)
        (submit_versioned-Backed realloc calloc malloc fl sha256 on_block cfg now job q c s
          (rolled_version job.version c.version_mask q.version))

  rate_report-OnJob :
      (jobs : Jobs) (extranonce1 : List ℕ) (job_id : Option (List ℕ)) (mono : ℕ) (c : Conn fl)
      (s : Server)
      → Holds (AllOnJob jobs extranonce1 job_id) (submit_rate_report mono c s)
  unfolding submit_rate_report refuse reject
  rate_report-OnJob jobs extranonce1 job_id mono c s =
      if-Holds (AllOnJob jobs extranonce1 job_id)
        (c.limiter.limited == 0
          || (not (c.rl_reported_ms == 0)
              && ltb ((mono + 2 ^ 64 - c.rl_reported_ms) % 2 ^ 64) rl_report_interval_ms))
        (refuse Reason.too_fast c s)
        (reject Reason.too_fast
          (record c { limiter = record c.limiter { limited = 0 }; rl_reported_ms = mono }) s)
        tt (tt, tt)

  handle_submit-Holds :
      (mono : ℕ) (q : Submission) (c : Conn fl) (s : Server)
      → Holds
          (AllOnJob s.jobs c.extranonce1 q.job_id)
          (handle_submit realloc calloc malloc fl sha256 on_block cfg now mono (some q) c s)
  unfolding handle_submit submit_limited refuse reject
  handle_submit-Holds mono q c s =
      let P : Turn fl → Type 0 = AllOnJob s.jobs c.extranonce1 q.job_id in
      let step = submit_rate_exceeded cfg.max_submits_per_sec mono c.limiter in
      let c' : Conn fl = record c { limiter = step.1 } in
      let limited : Outcome (Turn fl) =
        submit_limited realloc calloc malloc fl sha256 on_block cfg now (some q) c' s in
      let inside : Holds P limited =
        if-Holds P cfg.gated (reject Reason.gated c' s)
          (submit_found realloc calloc malloc fl sha256 on_block cfg now q c' s
            (find_named s.jobs q.job_id))
          (tt, tt) (submit_found-OnJob q c' s (find_named s.jobs q.job_id) refl) in
      if-Holds P (not c.payer.authorized) (refuse Reason.unauthorized c s)
        (if step.0 then submit_rate_report mono c' s else limited) tt
        (if-Holds P step.0 (submit_rate_report mono c' s) limited
          (rate_report-OnJob s.jobs c.extranonce1 q.job_id mono c' s) inside)

  -- Whatever a request to submit does, each credit it leads to names the hash of a header that is
  -- built on the job of the request, over a coinbase with the extranonce1 of this connection and an
  -- extranonce2 of the announced width, with a time within the bounds on rolling; the hash clears
  -- the target of the credited difficulty, or it is at most the network's target and credited at
  -- the network's difficulty; and the credit says that it is a block just where the hash is at most
  -- the network's target.
  pub handle_submit-OnJob :
      (mono : ℕ) (q : Submission) (c : Conn fl) (s : Server) (t : Turn fl)
      → handle_submit realloc calloc malloc fl sha256 on_block cfg now mono (some q) c s
        ≡ Outcome.ok t
      → All (OnJob s.jobs c.extranonce1 q.job_id) t.events
  handle_submit-OnJob mono q c s t done =
      subst (Holds (AllOnJob s.jobs c.extranonce1 q.job_id)) done (handle_submit-Holds mono q c s)
