-- ===== src/Stratum/Submit/Answer.antt =====
-- Every request to submit is answered by src/stratum.c, and leaves the set of credited hashes in
-- order.
use simplepool.Prelude.{
  ℕ, ◌+◌, ◌-◌, ◌%◌, ◌^◌, ◌≡◌, refl, sym, subst, Bool, true, false, not, ◌&&◌, ◌||◌, Option, none,
  some, List, ltb, ◌==◌, if◌then◌else◌, length,
}
use simplepool.Double.{DoubleOps}
use simplepool.Template.{Outcome}
use simplepool.Stratum.Limiter.{submit_rate_exceeded}
use simplepool.Stratum.Dedupe.{dedupe_check_and_add}
use simplepool.Stratum.ShareDedupe.{ShareDedupe}
use simplepool.Stratum.Jobs.{StratumJob, Jobs}
use simplepool.Stratum.Render.{Payer, conn_render_coinbase}
use simplepool.Stratum.Block.{hex_to_bytes_alloc}
use simplepool.Stratum.Submit.Judge.{Judgement, judge}
use simplepool.Stratum.Submit.{
  Submission, Reason, SubmitConfig, Conn, Server, Turn, Work, outside_roll, rl_report_interval_ms,
  refuse, reject, work_of, coinbase_len, credit, submit_judged, submit_checked, submit_hashed,
  submit_rendered, submit_extended, submit_numbered, submit_versioned, submit_with_job,
  submit_found, submit_limited, handle_submit, submit_rate_report, find_named, rolled_version,
  read_numbers,
}
use simplepool.Stratum.Submit.Faultless.{Faultless, conn_render-Faultless}
use simplepool.Stratum.Submit.Answered.{
  IsOrdered, Answered, if-Answered, refuse-Answered, reject-Answered, lookup-IsOrdered,
}

module _ (realloc calloc malloc : ℕ → Bool) (fl : DoubleOps) (sha256 : List ℕ → List ℕ)
    (on_block : List ℕ → Bool) (cfg : SubmitConfig fl) (now : ℕ)
    (enough : (n : ℕ) → malloc n ≡ true) where
  module _ (job : StratumJob) (plain : job.coinbasetxn_hex ≡ none) where
    checked-Answered :
        (w : Work) (c : Conn fl) (s : Server) (dup : Bool) (d : ShareDedupe)
        → IsOrdered (record s { share_dedupe = d })
        → Answered (
            submit_checked realloc calloc malloc fl sha256 on_block cfg now job w c s
              (some (dup, d)))
    unfolding submit_checked submit_judged credit
    checked-Answered w c s true d o =
        reject-Answered Reason.credited c (record s { share_dedupe = d }) o
    checked-Answered w c s false d o =
        let s' : Server = record s { share_dedupe = d } in
        let j : Judgement fl = judge fl job w.hash_be c.job_diffs c.vardiff in
        let t : Turn fl = credit realloc calloc malloc fl sha256 on_block cfg now job w j c s' in
        let earned : Answered (Outcome.ok t) = (t, refl, o) in
        if-Answered (not j.is_block && not j.meets_worker) (reject Reason.low_difficulty c s')
          (Outcome.ok t) (reject-Answered Reason.low_difficulty c s' o) earned

    hashed-Answered :
        (w : Work) (c : Conn fl) (s : Server)
        → IsOrdered s
        → Answered (submit_hashed realloc calloc malloc fl sha256 on_block cfg now job w c s)
    unfolding submit_hashed
    hashed-Answered w c s o =
        let (dup, d, found, o') = lookup-IsOrdered s w.hash_be o in
        rw found (checked-Answered w c s dup d o')

    rendered-Answered :
        (extranonce2 : List ℕ) (version ntime nonce : ℕ) (c : Conn fl) (s : Server)
        (r : Outcome Payer)
        → Faultless r
        → IsOrdered s
        → Answered (
            submit_rendered realloc calloc malloc fl sha256 on_block cfg now job extranonce2 version
              ntime nonce c s r)
    unfolding submit_rendered
    rendered-Answered extranonce2 version ntime nonce c s Outcome.refused h o =
        reject-Answered Reason.render_failed c s o
    rendered-Answered extranonce2 version ntime nonce c s Outcome.fault h o = absurd h
    rendered-Answered extranonce2 version ntime nonce c s (Outcome.ok payer) h o =
        let w : Work = work_of sha256 job payer c.extranonce1 extranonce2 version ntime nonce in
        let c' : Conn fl = record c { payer = payer } in
        let hashed : Outcome (Turn fl) =
          submit_hashed realloc calloc malloc fl sha256 on_block cfg now job w c' s in
        subst (λ b. Answered (if b then hashed else Outcome.refused))
          (sym (enough (coinbase_len payer c.extranonce1 extranonce2))) (hashed-Answered w c' s o)

    extended-Answered :
        (version ntime nonce : ℕ) (c : Conn fl) (s : Server) (e : Option (List ℕ))
        → IsOrdered s
        → Answered (
            submit_extended realloc calloc malloc fl sha256 on_block cfg now job version ntime nonce
              c s e)
    unfolding submit_extended
    extended-Answered version ntime nonce c s none o = refuse-Answered Reason.bad_extranonce2 c s o
    extended-Answered version ntime nonce c s (some extranonce2) o =
        let r : Outcome Payer = conn_render_coinbase realloc calloc fl sha256 cfg.pay job c.payer in
        if-Answered (not (length extranonce2 == job.en2_size)) (reject Reason.extranonce2_size c s)
          (submit_rendered realloc calloc malloc fl sha256 on_block cfg now job extranonce2 version
            ntime nonce c s r)
          (reject-Answered Reason.extranonce2_size c s o)
          (rendered-Answered extranonce2 version ntime nonce c s r
            (conn_render-Faultless realloc calloc fl sha256 cfg.pay job plain c.payer) o)

    numbered-Answered :
        (q : Submission) (version : ℕ) (c : Conn fl) (s : Server) (n : Option (ℕ × ℕ))
        → IsOrdered s
        → Answered
            (submit_numbered realloc calloc malloc fl sha256 on_block cfg now job q version c s n)
    unfolding submit_numbered
    numbered-Answered q version c s none o = refuse-Answered Reason.bad_numbers c s o
    numbered-Answered q version c s (some (ntime, nonce)) o =
        let e : Option (List ℕ) = hex_to_bytes_alloc q.extranonce2 in
        if-Answered (outside_roll job.ntime ntime) (reject Reason.ntime_out_of_range c s)
          (submit_extended realloc calloc malloc fl sha256 on_block cfg now job version ntime nonce
            c s e)
          (reject-Answered Reason.ntime_out_of_range c s o)
          (extended-Answered version ntime nonce c s e o)

    versioned-Answered :
        (q : Submission) (c : Conn fl) (s : Server) (v : Option ℕ)
        → IsOrdered s
        → Answered (submit_versioned realloc calloc malloc fl sha256 on_block cfg now job q c s v)
    unfolding submit_versioned
    versioned-Answered q c s none o = refuse-Answered Reason.bad_version c s o
    versioned-Answered q c s (some version) o =
        let step =
          dedupe_check_and_add c.dedupe (some job.job_id) q.extranonce2 q.ntime q.nonce version in
        let c' : Conn fl = record c { dedupe = step.1 } in
        if-Answered step.0 (reject Reason.duplicate c' s)
          (submit_numbered realloc calloc malloc fl sha256 on_block cfg now job q version c' s
            (read_numbers q))
          (reject-Answered Reason.duplicate c' s o)
          (numbered-Answered q version c' s (read_numbers q) o)

  found-Answered :
      (q : Submission) (c : Conn fl) (s : Server) (j : Option StratumJob)
      → ((job : StratumJob) → j ≡ some job → job.coinbasetxn_hex ≡ none)
      → IsOrdered s
      → Answered (submit_found realloc calloc malloc fl sha256 on_block cfg now q c s j)
  unfolding submit_found submit_with_job
  found-Answered q c s none plain o = reject-Answered Reason.stale_job c s o
  found-Answered q c s (some job) plain o =
      versioned-Answered job (plain job refl) q c s
        (rolled_version job.version c.version_mask q.version) o

  report-Answered :
      (mono : ℕ) (c : Conn fl) (s : Server) → IsOrdered s → Answered (submit_rate_report mono c s)
  unfolding submit_rate_report
  report-Answered mono c s o =
      let c' : Conn fl = record c {
        limiter = record c.limiter { limited = 0 };
        rl_reported_ms = mono;
      } in
      if-Answered
        (c.limiter.limited == 0
          || (not (c.rl_reported_ms == 0)
              && ltb ((mono + 2 ^ 64 - c.rl_reported_ms) % 2 ^ 64) rl_report_interval_ms))
        (refuse Reason.too_fast c s) (reject Reason.too_fast c' s)
        (refuse-Answered Reason.too_fast c s o) (reject-Answered Reason.too_fast c' s o)

  -- The job that a request names; one with too few parameters names none.
  abbrev pub named_job : Jobs → Option Submission → Option StratumJob
  named_job jobs none = none
  named_job jobs (some q) = find_named jobs q.job_id

  limited-Answered :
      (q : Option Submission) (c : Conn fl) (s : Server)
      → ((job : StratumJob) → named_job s.jobs q ≡ some job → job.coinbasetxn_hex ≡ none)
      → IsOrdered s
      → Answered (submit_limited realloc calloc malloc fl sha256 on_block cfg now q c s)
  unfolding submit_limited
  limited-Answered none c s plain o = refuse-Answered Reason.bad_params c s o
  limited-Answered (some q) c s plain o =
      let j : Option StratumJob = find_named s.jobs q.job_id in
      if-Answered cfg.gated (reject Reason.gated c s)
        (submit_found realloc calloc malloc fl sha256 on_block cfg now q c s j)
        (reject-Answered Reason.gated c s o) (found-Answered q c s j plain o)

  -- Every request to submit comes to an answer, whatever its parameters and also with too few of
  -- them, when the buffer of the coinbase is allocated, the set of credited hashes is in order and
  -- the job that the request names is not built from a coinbase of the node's template; the set is
  -- in order afterwards.
  pub handle_submit-Answered :
      (mono : ℕ) (q : Option Submission) (c : Conn fl) (s : Server)
      → ((job : StratumJob) → named_job s.jobs q ≡ some job → job.coinbasetxn_hex ≡ none)
      → IsOrdered s
      → Answered (handle_submit realloc calloc malloc fl sha256 on_block cfg now mono q c s)
  unfolding handle_submit
  handle_submit-Answered mono q c s plain o =
      let step = submit_rate_exceeded cfg.max_submits_per_sec mono c.limiter in
      let c' : Conn fl = record c { limiter = step.1 } in
      let limited : Outcome (Turn fl) =
        submit_limited realloc calloc malloc fl sha256 on_block cfg now q c' s in
      if-Answered (not c.payer.authorized) (refuse Reason.unauthorized c s)
        (if step.0 then submit_rate_report mono c' s else limited)
        (refuse-Answered Reason.unauthorized c s o)
        (if-Answered step.0 (submit_rate_report mono c' s) limited (report-Answered mono c' s o)
          (limited-Answered q c' s plain o))
