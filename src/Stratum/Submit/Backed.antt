-- ===== src/Stratum/Submit/Backed.antt =====
-- Every credit that `handle_submit` of src/stratum.c gives stands for work on one of its jobs.
use simplepool.Prelude.{
  ℕ, ◌≡◌, refl, inl, inr, Bool, true, false, not, ◌&&◌, Option, none, some, List, ◌==◌, length,
  Bool-cases, ==_iff,
}
use simplepool.Double.{DoubleOps}
use simplepool.Template.{Outcome}
use simplepool.Stratum.Dedupe.{dedupe_check_and_add}
use simplepool.Stratum.ShareDedupe.{ShareDedupe, share_dedupe_check_and_add}
use simplepool.Stratum.Jobs.{StratumJob}
use simplepool.Stratum.Render.{Payer, conn_render_coinbase}
use simplepool.Stratum.Block.{hex_to_bytes_alloc}
use simplepool.Stratum.Submit.Judge.{Judgement, judge}
use simplepool.Stratum.Submit.{
  Submission, Reason, SubmitConfig, Conn, Server, Work, outside_roll, reject, work_of, coinbase_len,
  submit_judged, submit_checked, submit_hashed, submit_rendered, submit_extended, submit_numbered,
  submit_versioned, read_numbers,
}
use simplepool.Stratum.Submit.Credit.{
  Holds, if-Holds, judge-Earned, AllBacked, refuse-Backed, reject-Backed, credit-Backed,
}

module _ (realloc calloc malloc : ℕ → Bool) (fl : DoubleOps) (sha256 : List ℕ → List ℕ)
    (on_block : List ℕ → Bool) (cfg : SubmitConfig fl) (now : ℕ) (job : StratumJob) where
  submit_checked-Backed :
      (payer : Payer) (extranonce1 extranonce2 : List ℕ) (version ntime nonce : ℕ) (c : Conn fl)
      (s : Server) (o : Option (Bool × ShareDedupe))
      → length extranonce2 ≡ job.en2_size
      → outside_roll job.ntime ntime ≡ false
      → Holds (AllBacked fl sha256 job extranonce1) (
          submit_checked realloc calloc malloc fl sha256 on_block cfg now job
            (work_of sha256 job payer extranonce1 extranonce2 version ntime nonce)
            c
            s
            o)
  unfolding submit_checked submit_judged
  submit_checked-Backed payer extranonce1 extranonce2 version ntime nonce c s none width timely = tt
  submit_checked-Backed payer extranonce1 extranonce2 version ntime nonce c s (some (true, d)) width
        timely =
      reject-Backed fl sha256 job extranonce1 Reason.credited c (record s { share_dedupe = d })
  submit_checked-Backed payer extranonce1 extranonce2 version ntime nonce c s (some (false, d))
        width timely =
      let w : Work = work_of sha256 job payer extranonce1 extranonce2 version ntime nonce in
      let j : Judgement fl = judge fl job w.hash_be c.job_diffs c.vardiff in
      let s' : Server = record s { share_dedupe = d } in
      elim (Bool-cases (not j.is_block && not j.meets_worker)) [
        | inl low ↦ rw low (reject-Backed fl sha256 job extranonce1 Reason.low_difficulty c s')
        | inr good ↦ rw good (
            credit-Backed realloc calloc malloc fl sha256 on_block cfg now job w j extranonce1 c s'
              record {
                payer = payer;
                extranonce2 = extranonce2;
                version = version;
                ntime = ntime;
                nonce = nonce;
                width = width;
                timely = timely;
                hash_shown = refl;
                earned = judge-Earned fl job w.hash_be c.job_diffs c.vardiff good;
              })
      ]

  submit_rendered-Backed :
      (extranonce2 : List ℕ) (version ntime nonce : ℕ) (c : Conn fl) (s : Server)
      (o : Outcome Payer)
      → length extranonce2 ≡ job.en2_size
      → outside_roll job.ntime ntime ≡ false
      → Holds (AllBacked fl sha256 job c.extranonce1) (
          submit_rendered realloc calloc malloc fl sha256 on_block cfg now job extranonce2 version
            ntime nonce c s o)
  unfolding submit_rendered submit_hashed
  submit_rendered-Backed extranonce2 version ntime nonce c s Outcome.refused width timely =
      reject-Backed fl sha256 job c.extranonce1 Reason.render_failed c s
  submit_rendered-Backed extranonce2 version ntime nonce c s Outcome.fault width timely = tt
  submit_rendered-Backed extranonce2 version ntime nonce c s (Outcome.ok payer) width timely =
      let w : Work = work_of sha256 job payer c.extranonce1 extranonce2 version ntime nonce in
      let c' : Conn fl = record c { payer = payer } in
      if-Holds (AllBacked fl sha256 job c.extranonce1)
        (malloc (coinbase_len payer c.extranonce1 extranonce2))
        (submit_hashed realloc calloc malloc fl sha256 on_block cfg now job w c' s) Outcome.refused
        (submit_checked-Backed payer c.extranonce1 extranonce2 version ntime nonce c' s
          (share_dedupe_check_and_add s.share_dedupe w.hash_be) width timely)
        tt

  submit_extended-Backed :
      (version ntime nonce : ℕ) (c : Conn fl) (s : Server) (o : Option (List ℕ))
      → outside_roll job.ntime ntime ≡ false
      → Holds (AllBacked fl sha256 job c.extranonce1) (
          submit_extended realloc calloc malloc fl sha256 on_block cfg now job version ntime nonce c
            s o)
  unfolding submit_extended
  submit_extended-Backed version ntime nonce c s none timely =
      refuse-Backed fl sha256 job c.extranonce1 Reason.bad_extranonce2 c s
  submit_extended-Backed version ntime nonce c s (some extranonce2) timely =
      elim (Bool-cases (length extranonce2 == job.en2_size)) [
        | inl e ↦ rw e (
            submit_rendered-Backed extranonce2 version ntime nonce c s
              (conn_render_coinbase realloc calloc fl sha256 cfg.pay job c.payer)
              ((==_iff (length extranonce2) job.en2_size).0 e) timely)
        | inr e ↦ rw e (reject-Backed fl sha256 job c.extranonce1 Reason.extranonce2_size c s)
      ]

  submit_numbered-Backed :
      (q : Submission) (version : ℕ) (c : Conn fl) (s : Server) (o : Option (ℕ × ℕ))
      → Holds
          (AllBacked fl sha256 job c.extranonce1)
          (submit_numbered realloc calloc malloc fl sha256 on_block cfg now job q version c s o)
  unfolding submit_numbered
  submit_numbered-Backed q version c s none =
      refuse-Backed fl sha256 job c.extranonce1 Reason.bad_numbers c s
  submit_numbered-Backed q version c s (some (ntime, nonce)) =
      elim (Bool-cases (outside_roll job.ntime ntime)) [
        | inl e ↦ rw e (reject-Backed fl sha256 job c.extranonce1 Reason.ntime_out_of_range c s)
        | inr e ↦
            rw e
              (submit_extended-Backed version ntime nonce c s (hex_to_bytes_alloc q.extranonce2) e)
      ]

  pub submit_versioned-Backed :
      (q : Submission) (c : Conn fl) (s : Server) (o : Option ℕ)
      → Holds
          (AllBacked fl sha256 job c.extranonce1)
          (submit_versioned realloc calloc malloc fl sha256 on_block cfg now job q c s o)
  unfolding submit_versioned
  submit_versioned-Backed q c s none =
      refuse-Backed fl sha256 job c.extranonce1 Reason.bad_version c s
  submit_versioned-Backed q c s (some version) =
      let step =
        dedupe_check_and_add c.dedupe (some job.job_id) q.extranonce2 q.ntime q.nonce version in
      let c' : Conn fl = record c { dedupe = step.1 } in
      if-Holds (AllBacked fl sha256 job c.extranonce1) step.0 (reject Reason.duplicate c' s)
        (submit_numbered realloc calloc malloc fl sha256 on_block cfg now job q version c' s
          (read_numbers q))
        (reject-Backed fl sha256 job c.extranonce1 Reason.duplicate c' s)
        (submit_numbered-Backed q version c' s (read_numbers q))
