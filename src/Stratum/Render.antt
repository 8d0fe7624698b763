-- ===== src/Stratum/Render.antt =====
-- `conn_render_coinbase` of src/stratum.c, with `j_payees_missing`, `conn_coinbase_budget` and
-- `render_finder_coinbase`: which builder of src/coinbase.c makes the coinbase of a connection.
use simplepool.Prelude.{
  ℕ, Bool, not, ◌&&◌, ◌||◌, Option, none, some, List, ◌==◌, if◌then◌else◌, length, take,
}
use simplepool.Prelude.Int.{ℤ, pos, pos_part, ltb_ℤ}
use simplepool.Prelude.Text.{same_text}
use simplepool.Double.{DoubleOps}
use simplepool.Window.{WindowResult}
use simplepool.Window.Resolve.{Request}
use simplepool.Coinbase
use simplepool.Coinbase.{coinbase_build_split, coinbase_build_window}
use simplepool.Coinbase.{Parts}
use simplepool.Template.{Outcome, on_ok, read}
use simplepool.Template.Build.{
  Extra, coinbase_build_from_template, coinbase_build_window_from_template,
}
use simplepool.Stratum.Jobs.{StratumJob}

-- The fields of the configuration that the coinbase depends on.
pub record PayConfig : Type 0 where
  pub coinbase_pays_window : Bool
  pub coinbase_pays_pool : Bool
  pub pool_btc_address : Option (List ℕ)
  pub operator_address : Option (List ℕ)
  pub fee_bps : ℤ
  pub coinbase_tag : Option (List ℕ)
  pub max_coinbase_bytes : ℕ
  pub payout_floor_sats : ℤ

-- The fields of a connection: whom it pays, and the coinbase that it holds.
pub record Payer : Type 0 where
  pub authorized : Bool
  pub payout_address : List ℕ
  pub max_coinbase_bytes : ℤ
  pub parts : Parts
  pub cb_for_job_id : List ℕ

unfoldable pub j_payees_missing : StratumJob → Bool
j_payees_missing job = length job.payees == 0

unfoldable pub conn_coinbase_budget : PayConfig → Payer → ℕ
conn_coinbase_budget cfg c =
    if ltb_ℤ (pos 0) c.max_coinbase_bytes
    then pos_part c.max_coinbase_bytes
    else cfg.max_coinbase_bytes

-- The arguments of the builders that come from the job.
abbrev pub build_job : PayConfig → StratumJob → Coinbase.Job
build_job cfg job = record {
  height = job.height;
  witness_commitment_hex = job.wc_hex;
  coinbase_tag = cfg.coinbase_tag;
  job_salt = job.cb_salt;
  extranonce1_size = job.en1_size;
  extranonce2_size = job.en2_size;
}

abbrev pub build_extra : PayConfig → StratumJob → Extra
build_extra cfg job = record {
  coinbase_tag = cfg.coinbase_tag;
  job_salt = job.cb_salt;
  extranonce1_size = job.en1_size;
  extranonce2_size = job.en2_size;
}

abbrev pub build_request : PayConfig → Payer → StratumJob → Request
build_request cfg c job = record {
  value_sats = job.value_sats;
  payees = job.payees;
  operator_address = cfg.operator_address;
  fee_bps = cfg.fee_bps;
  max_coinbase_bytes = conn_coinbase_budget cfg c;
  fixed_bytes = 0;
  payout_floor_sats = cfg.payout_floor_sats;
}

unfoldable pub parts_of : Option (Parts × WindowResult) → Outcome Parts
parts_of none = Outcome.refused
parts_of (some (parts, res)) = Outcome.ok parts

module _ (realloc calloc : ℕ → Bool) (fl : DoubleOps) (sha256 : List ℕ → List ℕ) where
  -- A coinbase with one payee: the connection's miner, or the pool.
  unfoldable pub render_single : PayConfig → StratumJob → Option (List ℕ) → Outcome Parts
  render_single cfg job address = elim job.coinbasetxn_hex [
    | some tx ↦
        on_ok
          (coinbase_build_from_template realloc calloc sha256 (build_extra cfg job) tx address
            cfg.operator_address cfg.fee_bps)
          (λ (r : Parts × Bool). Outcome.ok r.0)
    | none ↦ read (
        coinbase_build_split realloc sha256 (build_job cfg job) job.value_sats address
          cfg.operator_address cfg.fee_bps)
  ]

  unfoldable pub render_window : PayConfig → Payer → StratumJob → Outcome Parts
  render_window cfg c job = elim job.coinbasetxn_hex [
    | some tx ↦
        on_ok
          (coinbase_build_window_from_template realloc calloc sha256 fl (build_extra cfg job) tx
            (build_request cfg c job))
          (λ (r : Parts × Bool). Outcome.ok r.0)
    | none ↦
        parts_of
          (coinbase_build_window realloc fl sha256 (build_job cfg job) (build_request cfg c job))
  ]

  unfoldable pub render : PayConfig → Payer → StratumJob → Outcome Parts
  render cfg c job =
      if cfg.coinbase_pays_window && not (j_payees_missing job)
      then render_window cfg c job
      else if cfg.coinbase_pays_pool
      then render_single cfg job cfg.pool_btc_address
      else render_single cfg job (some c.payout_address)

  unfoldable pub conn_render_coinbase : PayConfig → StratumJob → Payer → Outcome Payer
  conn_render_coinbase cfg job c =
      if not c.authorized || length c.payout_address == 0
      then Outcome.refused
      else if not (length c.cb_for_job_id == 0) && same_text c.cb_for_job_id job.job_id
      then Outcome.ok c
      else on_ok (render cfg c job) (λ (parts : Parts).
        Outcome.ok (record c { parts = parts; cb_for_job_id = take 31 job.job_id }))
