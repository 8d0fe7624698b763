-- ===== src/Stratum/Submit.antt =====
-- `handle_submit` and `submit_with_job` of src/stratum.c. The JSON of the request and of the reply,
-- the log lines and the error texts are left out: a request comes as its parameters and a reply is
-- a reason. What the handler tells the rest of the pool (`on_reject`, `on_block`, `on_share`,
-- `on_block_found`) is a list of events, and the node's answer to a block is a parameter.
pub mod Judge
mod Credit
mod Backed
pub mod OnJob
pub mod Block
mod Faultless
mod Answered
pub mod Answer
mod Tests
use Prim.Native.Nat.{bit_and, bit_or}
use simplepool.Prelude.{
  ℕ, ◌+◌, ◌-◌, ◌*◌, ◌/◌, ◌%◌, ◌^◌, Bool, true, false, not, ◌&&◌, ◌||◌, Option, none, some, List, [],
  ◌∷◌, ◌++◌, ltb, ◌==◌, if◌then◌else◌, length,
}
use simplepool.Prelude.Int.{ℤ, pos, ltb_ℤ, ◌-ℤ◌}
use simplepool.Double.{DoubleOps}
use simplepool.Hex.{parse_u32_hex, bytes_to_hex}
use simplepool.Window.{dust_sats, is_blank, fee_share}
use simplepool.Share.{dsha256, merkle_root_from_branches, build_header, hash_header}
use simplepool.Template.{Outcome}
use simplepool.Stratum.Limiter.{Limiter, submit_rate_exceeded}
use simplepool.Stratum.Dedupe.{Dedupe, dedupe_check_and_add}
use simplepool.Stratum.ShareDedupe.{ShareDedupe, share_dedupe_check_and_add}
use simplepool.Stratum.JobDiff.{DiffRing}
use simplepool.Stratum.Vardiff.{
  VardiffConfig, Policy, Vardiff, current_net_diff, vardiff_maybe_retarget,
}
use simplepool.Stratum.Jobs.{StratumJob, Jobs, find_job}
use simplepool.Stratum.Render.{PayConfig, Payer, conn_render_coinbase}
use simplepool.Stratum.Block.{hex_to_bytes_alloc, assemble_block_hex}
use simplepool.Stratum.Submit.Judge.{Judgement, judge, count_share}

-- VERSION_ROLLING_MASK, NTIME_MAX_FORWARD_ROLL and NTIME_MAX_BACKWARD_ROLL
abbrev pub version_rolling_mask : ℕ
version_rolling_mask = 0x1fffe000

abbrev pub ntime_max_forward_roll : ℕ
ntime_max_forward_roll = 7200

abbrev pub ntime_max_backward_roll : ℕ
ntime_max_backward_roll = 600

-- RL_REPORT_INTERVAL_MS
abbrev pub rl_report_interval_ms : ℕ
rl_report_interval_ms = 10000

-- The parameters of `mining.submit`; a text is `none` where the parameter is no string, and
-- `version` where there is no sixth parameter.
pub record Submission : Type 0 where
  pub job_id : Option (List ℕ)
  pub extranonce2 : Option (List ℕ)
  pub ntime : Option (List ℕ)
  pub nonce : Option (List ℕ)
  pub version : Option (Option (List ℕ))

pub data Reason : Type 0 where
  unauthorized too_fast bad_params gated stale_job bad_version duplicate bad_numbers : Reason
  ntime_out_of_range bad_extranonce2 extranonce2_size render_failed credited low_difficulty : Reason

pub record SubmitConfig (fl : DoubleOps) : Type 0 where
  pub vardiff : VardiffConfig fl
  pub pay : PayConfig
  pub max_submits_per_sec : ℤ
  -- `pps_gated`: shares earn nothing at the moment.
  pub gated : Bool

pub record Conn (fl : DoubleOps) : Type 0 where
  pub extranonce1 : List ℕ
  pub version_mask : ℕ
  pub payer : Payer
  pub limiter : Limiter
  pub rl_reported_ms : ℕ
  pub dedupe : Dedupe
  pub job_diffs : DiffRing fl
  pub policy : Policy fl
  pub vardiff : Vardiff fl

pub record Server : Type 0 where
  pub jobs : Jobs
  pub share_dedupe : ShareDedupe

-- `block_submitted` is the call of `on_block`; `share` has the credited difficulty, whether it is a
-- block, and the hash; `block_found` has the reward, the fee and whether the node took the block.
pub data Event (fl : DoubleOps) : Type 0 where
  rejected : Reason → Event fl
  block_submitted : List ℕ → Event fl
  share : fl.Double → Bool → List ℕ → Event fl
  block_found : ℕ → List ℕ → ℤ → ℤ → Bool → Event fl
  set_difficulty : fl.Double → Event fl

-- What a request leaves: `none` is the reply `true`.
pub record Turn (fl : DoubleOps) : Type 0 where
  pub reply : Option Reason
  pub conn : Conn fl
  pub server : Server
  pub events : List (Event fl)

-- The version that the miner hashed; `none` for a sixth parameter that is no number.
unfoldable pub rolled_version : ℕ → ℕ → Option (Option (List ℕ)) → Option ℕ
rolled_version version mask none = some version
rolled_version version mask (some none) = none
rolled_version version mask (some (some text)) =
    let m = if mask == 0 then version_rolling_mask else mask in
    elim (parse_u32_hex text) [
      | none ↦ none
      | some rolled ↦ some (bit_or (bit_and version (2 ^ 32 - 1 - m)) (bit_and rolled m))
    ]

unfoldable pub number_of : Option (List ℕ) → Option ℕ
number_of none = none
number_of (some text) = parse_u32_hex text

unfoldable pub read_numbers : Submission → Option (ℕ × ℕ)
read_numbers q = elim (number_of q.ntime) [
  | none ↦ none
  | some ntime ↦ elim (number_of q.nonce) [ none ↦ none | some nonce ↦ some (ntime, nonce) ]
]

unfoldable pub outside_roll : ℕ → ℕ → Bool
outside_roll base ntime =
    ltb (base + ntime_max_forward_roll) ntime || ltb (ntime + ntime_max_backward_roll) base

-- The operator's fee and what is left, as `on_block_found` reports them.
unfoldable pub found_fee : PayConfig → ℤ → ℤ
found_fee pay value_sats =
    let fee = fee_share value_sats pay.fee_bps in
    if ltb_ℤ (pos 0) pay.fee_bps && not (is_blank pay.operator_address)
    then (if ltb_ℤ fee (pos dust_sats) then pos 0 else fee)
    else pos 0

module _ {fl : DoubleOps} where
  unfoldable pub refuse : Reason → Conn fl → Server → Outcome (Turn fl)
  refuse why c s = Outcome.ok (record { reply = some why; conn = c; server = s; events = [] })

  unfoldable pub reject : Reason → Conn fl → Server → Outcome (Turn fl)
  reject why c s =
      Outcome.ok (record { reply = some why; conn = c; server = s; events = rejected why ∷ [] })

  -- The refusal of a submit over the ceiling, told to the pool once in each interval.
  unfoldable pub submit_rate_report : ℕ → Conn fl → Server → Outcome (Turn fl)
  submit_rate_report mono c s =
      if c.limiter.limited == 0
        || (not (c.rl_reported_ms == 0)
            && ltb ((mono + 2 ^ 64 - c.rl_reported_ms) % 2 ^ 64) rl_report_interval_ms)
      then refuse too_fast c s
      else reject too_fast
          (record c { limiter = record c.limiter { limited = 0 }; rl_reported_ms = mono }) s

  unfoldable pub announced : Option fl.Double → List (Event fl)
  announced none = []
  announced (some d) = set_difficulty d ∷ []

unfoldable pub current_target : Option StratumJob → Option (List ℕ)
current_target none = none
current_target (some j) = some j.network_target_be

unfoldable pub find_named : Jobs → Option (List ℕ) → Option StratumJob
find_named s none = none
find_named s (some job_id) = find_job s job_id

-- The coinbase that the miner hashed, the header and the hash.
pub record Work : Type 0 where
  pub coinbase : List ℕ
  pub header : List ℕ
  pub hash_be : List ℕ

module _ (sha256 : List ℕ → List ℕ) where
  unfoldable pub work_of : StratumJob → Payer → List ℕ → List ℕ → ℕ → ℕ → ℕ → Work
  work_of job payer extranonce1 extranonce2 version ntime nonce =
      let tx = payer.parts.cb1 ++ extranonce1 ++ extranonce2 ++ payer.parts.cb2 in
      let root = merkle_root_from_branches sha256 (dsha256 sha256 tx) job.merkle_branches in
      let header = build_header version job.prev_hash_le root ntime job.nbits nonce in
      record { coinbase = tx; header = header; hash_be = hash_header sha256 header }

-- `cb_len`
unfoldable pub coinbase_len : Payer → List ℕ → List ℕ → ℕ
coinbase_len payer extranonce1 extranonce2 =
    length payer.parts.cb1 + length extranonce1 + length extranonce2 + length payer.parts.cb2

-- `on_block` is the node's answer to a block, and `now` the clock.
module _ (realloc calloc malloc : ℕ → Bool) (fl : DoubleOps) (sha256 : List ℕ → List ℕ)
    (on_block : List ℕ → Bool) (cfg : SubmitConfig fl) (now : ℕ) where
  -- Whether the node took the block, and the call that asked it; a block that could not be
  -- assembled is not shown to the node.
  unfoldable pub submit_hex : Option (List ℕ) → Bool × List (Event fl)
  submit_hex none = (false, [])
  submit_hex (some hex) = (on_block hex, block_submitted hex ∷ [])

  unfoldable pub submit_block : Bool → StratumJob → Work → Bool × List (Event fl)
  submit_block false job w = (true, [])
  submit_block true job w = submit_hex (assemble_block_hex job w.coinbase w.header)

  unfoldable pub found_event : Bool → StratumJob → Work → Bool → List (Event fl)
  found_event false job w accepted = []
  found_event true job w accepted =
      let fee = found_fee cfg.pay job.value_sats in
      block_found job.height (bytes_to_hex w.hash_be) (job.value_sats -ℤ fee) fee accepted ∷ []

  -- A share that counts: the block first, then the credit, then vardiff.
  unfoldable pub credit : StratumJob → Work → Judgement fl → Conn fl → Server → Turn fl
  credit job w j c s =
      let (accepted, asked) = submit_block j.is_block job w in
      let counted = count_share fl j w.hash_be c.vardiff in
      let net = current_net_diff fl (current_target s.jobs.current_job) in
      let (vd, sent) = vardiff_maybe_retarget fl cfg.vardiff net c.policy now counted in
      record {
        reply = none;
        conn = record c { vardiff = vd };
        server = s;
        events =
            asked
            ++ (share j.share_diff j.is_block (bytes_to_hex w.hash_be) ∷ announced sent)
            ++ found_event j.is_block job w accepted;
      }

  unfoldable pub submit_judged :
      StratumJob → Work → Judgement fl → Conn fl → Server → Outcome (Turn fl)
  submit_judged job w j c s =
      if not j.is_block && not j.meets_worker
      then reject low_difficulty c s
      else Outcome.ok (credit job w j c s)

  -- After the look-up of the hash; `none` is a look-up without an end.
  unfoldable pub submit_checked :
      StratumJob → Work → Conn fl → Server → Option (Bool × ShareDedupe) → Outcome (Turn fl)
  submit_checked job w c s none = Outcome.fault
  submit_checked job w c s (some (true, d)) = reject credited c (record s { share_dedupe = d })
  submit_checked job w c s (some (false, d)) =
      submit_judged job w (judge fl job w.hash_be c.job_diffs c.vardiff) c
        (record s { share_dedupe = d })

  unfoldable pub submit_hashed : StratumJob → Work → Conn fl → Server → Outcome (Turn fl)
  submit_hashed job w c s =
      submit_checked job w c s (share_dedupe_check_and_add s.share_dedupe w.hash_be)

  -- After the coinbase has been rendered, or could not be. `refused` is the return of -1 without a
  -- reply, which closes the connection.
  unfoldable pub submit_rendered :
      StratumJob → List ℕ → ℕ → ℕ → ℕ → Conn fl → Server → Outcome Payer → Outcome (Turn fl)
  submit_rendered job extranonce2 version ntime nonce c s Outcome.refused = reject render_failed c s
  submit_rendered job extranonce2 version ntime nonce c s Outcome.fault = Outcome.fault
  submit_rendered job extranonce2 version ntime nonce c s (Outcome.ok payer) =
      if malloc (coinbase_len payer c.extranonce1 extranonce2)
      then submit_hashed job
          (work_of sha256 job payer c.extranonce1 extranonce2 version ntime nonce)
          (record c { payer = payer }) s
      else Outcome.refused

  unfoldable pub submit_extended :
      StratumJob → ℕ → ℕ → ℕ → Conn fl → Server → Option (List ℕ) → Outcome (Turn fl)
  submit_extended job version ntime nonce c s none = refuse bad_extranonce2 c s
  submit_extended job version ntime nonce c s (some extranonce2) =
      if not (length extranonce2 == job.en2_size)
      then reject extranonce2_size c s
      else submit_rendered job extranonce2 version ntime nonce c s
          (conn_render_coinbase realloc calloc fl sha256 cfg.pay job c.payer)

  unfoldable pub submit_numbered :
      StratumJob → Submission → ℕ → Conn fl → Server → Option (ℕ × ℕ) → Outcome (Turn fl)
  submit_numbered job q version c s none = refuse bad_numbers c s
  submit_numbered job q version c s (some (ntime, nonce)) =
      if outside_roll job.ntime ntime
      then reject ntime_out_of_range c s
      else submit_extended job version ntime nonce c s (hex_to_bytes_alloc q.extranonce2)

  unfoldable pub submit_versioned :
      StratumJob → Submission → Conn fl → Server → Option ℕ → Outcome (Turn fl)
  submit_versioned job q c s none = refuse bad_version c s
  submit_versioned job q c s (some version) =
      let (dup, d) =
        dedupe_check_and_add c.dedupe (some job.job_id) q.extranonce2 q.ntime q.nonce version in
      let c' = record c { dedupe = d } in
      if dup then reject duplicate c' s else submit_numbered job q version c' s (read_numbers q)

  unfoldable pub submit_with_job : StratumJob → Submission → Conn fl → Server → Outcome (Turn fl)
  submit_with_job job q c s =
      submit_versioned job q c s (rolled_version job.version c.version_mask q.version)

  unfoldable pub submit_found :
      Submission → Conn fl → Server → Option StratumJob → Outcome (Turn fl)
  submit_found q c s none = reject stale_job c s
  submit_found q c s (some job) = submit_with_job job q c s

  -- A request within the ceiling; `none` is one with too few parameters.
  unfoldable pub submit_limited : Option Submission → Conn fl → Server → Outcome (Turn fl)
  submit_limited none c s = refuse bad_params c s
  submit_limited (some q) c s =
      if cfg.gated then reject gated c s else submit_found q c s (find_named s.jobs q.job_id)

  -- `mono` is the monotonic clock.
  unfoldable pub handle_submit : ℕ → Option Submission → Conn fl → Server → Outcome (Turn fl)
  handle_submit mono q c s =
      let (refused, limiter) = submit_rate_exceeded cfg.max_submits_per_sec mono c.limiter in
      let c' = record c { limiter = limiter } in
      if not c.payer.authorized
      then refuse unauthorized c s
      else if refused
      then submit_rate_report mono c' s
      else submit_limited q c' s
