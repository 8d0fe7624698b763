-- ===== src/Stratum/Vardiff.antt =====
-- The difficulty of a connection in src/stratum.c: `clamp_assigned_difficulty`,
-- `vardiff_maybe_retarget` and `apply_requested_diff`, over the interface of `double`. The log
-- lines are left out; the message `mining.set_difficulty` is the second part of the result.
pub mod Bounds
mod Tests
use simplepool.Prelude.{
  ℕ, ◌+◌, ◌-◌, ◌*◌, ◌%◌, ◌^◌, Bool, true, false, not, ◌&&◌, ◌||◌, Option, none, some, List, ltb,
  leb, ◌==◌, if◌then◌else◌,
}
use simplepool.Prelude.Int.{ℤ, pos, pos_part, ltb_ℤ}
use simplepool.Double.{DoubleOps}
use simplepool.Share.Difficulty.{target_to_diff}

-- VD_FLOOR_MIN_SAMPLES
abbrev pub vd_floor_min_samples : ℕ
vd_floor_min_samples = 5

-- The `vardiff_` fields and `max_suggested_diff` of the configuration.
pub record VardiffConfig (fl : DoubleOps) : Type 0 where
  pub vardiff_enabled : Bool
  pub vardiff_window_sec : ℕ
  pub vardiff_min_samples : ℤ
  pub vardiff_max_window_mult : ℤ
  pub vardiff_target_spm : fl.Double
  pub vardiff_idle_step : fl.Double
  pub max_suggested_diff : fl.Double

-- The policy of the listener that a connection came in on.
pub record Policy (fl : DoubleOps) : Type 0 where
  pub vardiff_min : fl.Double
  pub vardiff_max : fl.Double
  pub min_diff : fl.Double

-- The fields of a connection that vardiff reads and writes.
pub record Vardiff (fl : DoubleOps) : Type 0 where
  pub difficulty : fl.Double
  pub requested_min_diff : fl.Double
  pub window_start_ms : ℕ
  pub window_shares : ℕ
  pub window_min_achieved : fl.Double
  pub window_max_assigned : fl.Double

module _ (fl : DoubleOps) where
  open fl use {Double, of_ℤ, mul, div, lt, le, infinity, is_finite}

  abbrev pub number : ℕ → Double
  number n = of_ℤ (pos n)

  -- `current_net_diff`: the difficulty of the current job's network target, 0 without a job.
  unfoldable pub current_net_diff : Option (List ℕ) → Double
  current_net_diff none = number 0
  current_net_diff (some network_target) = target_to_diff fl network_target

  unfoldable pub ceiling_of : Double → Double → Double
  ceiling_of net_diff diff = if lt (number 0) net_diff && lt net_diff diff then net_diff else diff

  unfoldable pub floor_of : Double → Double → Double
  floor_of min_diff diff = if lt (number 0) min_diff && lt diff min_diff then min_diff else diff

  unfoldable pub clamp_assigned_difficulty : Double → Policy fl → Double → Double
  clamp_assigned_difficulty net_diff pol diff =
      let d = floor_of pol.min_diff (ceiling_of net_diff diff) in
      if le d (number 0) then number 1 else d

  -- `s->cfg.vardiff_min_samples > 0 && c->vd_window_shares < (uint32_t)s->cfg.vardiff_min_samples`
  unfoldable pub too_few : VardiffConfig fl → ℕ → Bool
  too_few cfg shares =
      ltb_ℤ (pos 0) cfg.vardiff_min_samples && ltb shares (pos_part cfg.vardiff_min_samples)

  -- Whether the window stays open after `elapsed` milliseconds.
  unfoldable pub window_open : VardiffConfig fl → ℕ → ℕ → Bool
  window_open cfg shares elapsed =
      let window_ms = cfg.vardiff_window_sec * 1000 % 2 ^ 64 in
      let mult =
        if ltb_ℤ (pos 0) cfg.vardiff_max_window_mult
        then pos_part cfg.vardiff_max_window_mult
        else 8 in
      ltb elapsed window_ms || (too_few cfg shares && ltb elapsed (window_ms * mult % 2 ^ 64))

  unfoldable pub max_step_of : VardiffConfig fl → ℕ → Double
  max_step_of cfg shares =
      if too_few cfg shares
      then (if lt (number 1) cfg.vardiff_idle_step then cfg.vardiff_idle_step else number 2)
      else number 4

  -- The proposal of the rate loop, at most one step away.
  unfoldable pub rate_step : VardiffConfig fl → ℕ → ℕ → Double → Double
  rate_step cfg shares elapsed old_diff =
      let observed = div (mul (number shares) (number 60000)) (number elapsed) in
      let ratio = div observed cfg.vardiff_target_spm in
      let step = max_step_of cfg shares in
      let wanted = mul old_diff ratio in
      let capped = if lt (mul old_diff step) wanted then mul old_diff step else wanted in
      if lt (number 2) ratio || lt ratio (div (number 1) (number 2))
      then (if lt capped (div old_diff step) then div old_diff step else capped)
      else old_diff

  -- The floor that a miner keeps by itself, 0.95 of the least that a share of the window achieved.
  unfoldable pub raise_to_floor : Vardiff fl → Double → Double
  raise_to_floor c new_diff =
      let basis =
        if lt c.difficulty c.window_max_assigned then c.window_max_assigned else c.difficulty in
      let floor_diff = mul c.window_min_achieved (div (number 95) (number 100)) in
      if leb vd_floor_min_samples c.window_shares
        && is_finite c.window_min_achieved
        && lt (mul basis (number 4)) c.window_min_achieved
        && lt new_diff floor_diff
      then floor_diff
      else new_diff

  -- The miner's request and the listener's bounds on the rate loop.
  unfoldable pub within_policy : Policy fl → Double → Double → Double
  within_policy pol requested new_diff =
      let asked =
        if lt (number 0) requested && lt new_diff requested then requested else new_diff in
      let low = if lt asked pol.vardiff_min then pol.vardiff_min else asked in
      if lt (number 0) pol.vardiff_max && lt pol.vardiff_max low then pol.vardiff_max else low

  -- `a != b`, which holds where an operand is no number.
  unfoldable pub differ : Double → Double → Bool
  differ a b = not (le a b && le b a)

  unfoldable pub reset_window : ℕ → Vardiff fl → Vardiff fl
  reset_window now c = record c {
    window_start_ms = now;
    window_shares = 0;
    window_min_achieved = infinity;
    window_max_assigned = number 0;
  }

  -- The difficulty at the end of a window.
  unfoldable pub proposed : VardiffConfig fl → Double → Policy fl → ℕ → Vardiff fl → Double
  proposed cfg net_diff pol elapsed c = clamp_assigned_difficulty net_diff pol (
      within_policy pol c.requested_min_diff
        (raise_to_floor c (rate_step cfg c.window_shares elapsed c.difficulty)))

  unfoldable pub end_window : ℕ → Vardiff fl → Double → Vardiff fl × Option Double
  end_window now c new_diff =
      if differ new_diff c.difficulty
      then (record (reset_window now c) { difficulty = new_diff }, some new_diff)
      else (reset_window now c, none)

  unfoldable pub vardiff_maybe_retarget :
      VardiffConfig fl → Double → Policy fl → ℕ → Vardiff fl → Vardiff fl × Option Double
  vardiff_maybe_retarget cfg net_diff pol now c =
      let elapsed = (now + 2 ^ 64 - c.window_start_ms) % 2 ^ 64 in
      let new_diff = proposed cfg net_diff pol elapsed c in
      if not cfg.vardiff_enabled
      then (c, none)
      else if c.window_start_ms == 0
      then (reset_window now c, none)
      else if window_open cfg c.window_shares elapsed
      then (c, none)
      else end_window now c new_diff

  -- A request of the miner, by `d=` in its password or `mining.suggest_difficulty`.
  unfoldable pub apply_requested_diff :
      VardiffConfig fl → Double → Policy fl → Double → Vardiff fl → Vardiff fl
  apply_requested_diff cfg net_diff pol req c =
      let capped = if lt cfg.max_suggested_diff req then cfg.max_suggested_diff else req in
      let clamped = clamp_assigned_difficulty net_diff pol capped in
      let wanted =
        if lt (number 0) pol.vardiff_max && lt pol.vardiff_max clamped
        then pol.vardiff_max
        else clamped in
      if not (lt (number 0) req) || le cfg.max_suggested_diff (number 0) then c else record c {
        requested_min_diff = wanted;
        difficulty = if lt c.difficulty wanted then wanted else c.difficulty;
      }
