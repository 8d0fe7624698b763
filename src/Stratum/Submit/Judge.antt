-- ===== src/Stratum/Submit/Judge.antt =====
-- How `submit_with_job` of src/stratum.c judges a hash: against the difficulty under which the job
-- went out, the difficulty in force now, and the network's target.
use simplepool.Prelude.{ℕ, ◌+◌, ◌%◌, ◌^◌, Bool, true, false, not, ◌&&◌, ◌||◌, List, if◌then◌else◌}
use simplepool.Prelude.Int.{pos}
use simplepool.Double.{DoubleOps}
use simplepool.Share.{Order, be32_cmp}
use simplepool.Share.Difficulty.{target_to_diff, worker_diff_to_target}
use simplepool.Stratum.JobDiff.{DiffRing, conn_job_difficulty}
use simplepool.Stratum.Vardiff.{Vardiff}
use simplepool.Stratum.Jobs.{StratumJob}

pub record Judgement (fl : DoubleOps) : Type 0 where
  pub assigned_diff : fl.Double
  pub share_diff : fl.Double
  pub is_block : Bool
  pub meets_worker : Bool

-- `be32_cmp(a, b) < 0` and `<= 0`
unfoldable pub is_below : Order → Bool
is_below Order.below = true
is_below Order.same = false
is_below Order.above = false

unfoldable pub is_at_most : Order → Bool
is_at_most Order.below = true
is_at_most Order.same = true
is_at_most Order.above = false

module _ (fl : DoubleOps) where
  open fl use {Double, of_ℤ, lt, le}

  -- The hash clears the target of the difficulty.
  unfoldable pub clears : List ℕ → Double → Bool
  clears hash diff = is_below (be32_cmp hash (worker_diff_to_target fl diff))

  unfoldable pub assigned_for : StratumJob → DiffRing fl → Vardiff fl → Double
  assigned_for job ring c =
      let recorded = conn_job_difficulty fl ring job.job_id in
      if le recorded (of_ℤ (pos 0)) then c.difficulty else recorded

  -- The difficulty that is credited where only the network's target is met.
  unfoldable pub judge : StratumJob → List ℕ → DiffRing fl → Vardiff fl → Judgement fl
  judge job hash ring c =
      let assigned = assigned_for job ring c in
      let is_block = is_at_most (be32_cmp hash job.network_target_be) in
      let first = clears hash assigned in
      let lowered = not first && lt c.difficulty assigned && clears hash c.difficulty in
      record {
        assigned_diff = assigned;
        share_diff =
            if lowered
            then c.difficulty
            else if is_block && not first
            then target_to_diff fl job.network_target_be
            else assigned;
        is_block = is_block;
        meets_worker = first || lowered;
      }

  -- The share in the vardiff window.
  unfoldable pub count_share : Judgement fl → List ℕ → Vardiff fl → Vardiff fl
  count_share j hash c =
      let achieved = target_to_diff fl hash in
      record c {
        window_shares = (c.window_shares + 1) % 2 ^ 32;
        window_min_achieved =
            if lt achieved c.window_min_achieved then achieved else c.window_min_achieved;
        window_max_assigned =
            if lt c.window_max_assigned j.assigned_diff
            then j.assigned_diff
            else c.window_max_assigned;
      }
