-- ===== src/Stratum/Submit/Faultless.antt =====
-- `conn_render_coinbase` of src/stratum.c reads nothing outside its buffers where the coinbase does
-- not come from a template of the node.
use simplepool.Prelude.{
  ℕ, ◌≡◌, Bool, true, false, not, ◌&&◌, ◌||◌, Option, none, some, List, ◌==◌, if◌then◌else◌, length,
}
use simplepool.Prelude.Text.{same_text}
use simplepool.Double.{DoubleOps}
use simplepool.Window.{WindowResult}
use simplepool.Coinbase.{coinbase_build_split, coinbase_build_window}
use simplepool.Coinbase.{Parts}
use simplepool.Template.{Outcome, on_ok, read}
use simplepool.Stratum.Jobs.{StratumJob}
use simplepool.Stratum.Render.{
  PayConfig, Payer, render, render_single, render_window, conn_render_coinbase, build_job,
  build_request, parts_of, j_payees_missing,
}

abbrev pub Faultless {ℓ} : {A : Type ℓ} → Outcome A → Type 0
Faultless Outcome.refused = Unit {0}
Faultless Outcome.fault = ⊥
Faultless (Outcome.ok a) = Unit {0}

if-Faultless {ℓ} :
    {A : Type ℓ} (b : Bool) (o o' : Outcome A)
    → Faultless o
    → Faultless o'
    → Faultless (if b then o else o')
if-Faultless true o o' h h' = h
if-Faultless false o o' h h' = h'

read-Faultless {ℓ} : {A : Type ℓ} (o : Option A) → Faultless (read o)
unfolding read
read-Faultless none = tt
read-Faultless (some a) = tt

parts_of-Faultless : (o : Option (Parts × WindowResult)) → Faultless (parts_of o)
unfolding parts_of
parts_of-Faultless none = tt
parts_of-Faultless (some (parts, res)) = tt

on_ok-Faultless {ℓ κ} :
    {A : Type ℓ} {B : Type κ} (o : Outcome A) (k : A → Outcome B)
    → Faultless o
    → ((a : A) → Faultless (k a))
    → Faultless (on_ok o k)
unfolding on_ok
on_ok-Faultless Outcome.refused k h g = tt
on_ok-Faultless Outcome.fault k h g = h
on_ok-Faultless (Outcome.ok a) k h g = g a

-- A coinbase that is built from scratch, and not from a template of the node, is made or refused.
module _ (realloc calloc : ℕ → Bool) (fl : DoubleOps) (sha256 : List ℕ → List ℕ) (cfg : PayConfig)
    (job : StratumJob) (plain : job.coinbasetxn_hex ≡ none) where
  render_single-Faultless :
      (address : Option (List ℕ))
      → Faultless (render_single realloc calloc fl sha256 cfg job address)
  unfolding render_single
  render_single-Faultless address = rw plain (
      read-Faultless (
        coinbase_build_split realloc sha256 (build_job cfg job) job.value_sats address
          cfg.operator_address cfg.fee_bps))

  render_window-Faultless :
      (c : Payer) → Faultless (render_window realloc calloc fl sha256 cfg c job)
  unfolding render_window
  render_window-Faultless c = rw plain (
      parts_of-Faultless
        (coinbase_build_window realloc fl sha256 (build_job cfg job) (build_request cfg c job)))

  pub conn_render-Faultless :
      (c : Payer) → Faultless (conn_render_coinbase realloc calloc fl sha256 cfg job c)
  unfolding conn_render_coinbase render
  conn_render-Faultless c =
      if-Faultless (not c.authorized || length c.payout_address == 0) Outcome.refused _ tt (
        if-Faultless (not (length c.cb_for_job_id == 0) && same_text c.cb_for_job_id job.job_id)
          (Outcome.ok c) _ tt
          (on_ok-Faultless (render realloc calloc fl sha256 cfg c job) _
            (if-Faultless (cfg.coinbase_pays_window && not (j_payees_missing job)) _ _
              (render_window-Faultless c)
              (if-Faultless cfg.coinbase_pays_pool _ _
                (render_single-Faultless cfg.pool_btc_address)
                (render_single-Faultless (some c.payout_address))))
            (λ parts. tt)))
