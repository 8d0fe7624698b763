-- ===== src/Window.antt =====
-- `resolve_window_outputs` of src/coinbase.c, the split of a block over a PPLNS window, with the
-- types and constants of coinbase.h that it uses. Byte counts (`size_t`) stay far below 2 ^ 64,
-- and amounts (`int64_t`) far below 2 ^ 63: both are unbounded here.
pub mod Resolve
pub mod Fill
pub mod Spend
pub mod Trace
pub mod Settle
pub mod Whole
pub mod Marked
pub mod Marks
pub mod Tests
use simplepool.Prelude.{
  ℕ, zero, suc, ◌+◌, ◌-◌, ◌*◌, ◌/◌, Bool, true, false, ◌&&◌, ◌||◌, not, Option, none, some, List,
  [], ◌∷◌, ◌++◌, map, ltb, leb, ◌==◌, if◌then◌else◌, length, set, replicate, get_or,
}
use simplepool.Prelude.Int.{ℤ, pos, pos_part, ◌+ℤ◌, ◌-ℤ◌, ltb_ℤ, sum_ℤ}
use simplepool.Double.{DoubleOps}
use simplepool.Address.Script.{coinbase_address_to_script}

abbrev pub dust_sats : ℕ
dust_sats = 546

abbrev pub default_max_bytes : ℕ
default_max_bytes = 1000

abbrev pub max_payout_outputs : ℕ
max_payout_outputs = 200

-- CB_MAX_REPL_OUTS: payees plus the operator.
abbrev pub max_repl_outs : ℕ
max_repl_outs = max_payout_outputs + 1

-- `coinbase_payee_t`; the address may be NULL.
pub record Payee : Type 0 where
  pub address : Option (List ℕ)
  pub sats : ℤ

-- `cb_repl_out_t`: one output that the reward is replaced with.
pub record ReplOut : Type 0 where
  pub spk : List ℕ
  pub sats : ℤ

-- `coinbase_window_result_t`.
pub record WindowResult : Type 0 where
  pub paid_count : ℕ
  pub paid_sats : ℤ
  pub dropped_below_floor : ℕ
  pub dropped_capped : ℕ
  pub redistributed_sats : ℤ
  pub fee_sats : ℤ
  pub paid_payee : List Bool

abbrev pub no_result : WindowResult
no_result = record {
  paid_count = 0;
  paid_sats = pos 0;
  dropped_below_floor = 0;
  dropped_capped = 0;
  redistributed_sats = pos 0;
  fee_sats = pos 0;
  paid_payee = replicate max_payout_outputs false;
}

unfoldable pub out_ser_size : ℕ → ℕ
out_ser_size spk_len =
    8 + (if ltb spk_len 253 then 1 else if leb spk_len 0xffff then 3 else 5) + spk_len

-- `!address || !address[0]`.
unfoldable pub is_blank : Option (List ℕ) → Bool
is_blank none = true
is_blank (some []) = true
is_blank (some (c ∷ cs)) = false

-- `(value_sats * (int64_t)fee_bps) / 10000`, where both are positive.
unfoldable pub fee_share : ℤ → ℤ → ℤ
fee_share value_sats fee_bps = pos (pos_part value_sats * pos_part fee_bps / 10000)

-- The floor, never below the relay dust limit.
unfoldable pub clamp_floor : ℤ → ℤ
clamp_floor floor = if ltb_ℤ floor (pos dust_sats) then pos dust_sats else floor

unfoldable pub sum_sats : List ReplOut → ℤ
unfolding sum_ℤ
sum_sats outs = sum_ℤ (map (λ o. o.sats) outs)

-- The check of the payees: `none` for a blank address or a negative amount, else their sum.
unfoldable pub claimed : List Payee → ℤ → Option ℤ
claimed [] total = some total
claimed (pe ∷ pes) total =
    let rest = claimed pes (total +ℤ pe.sats) in
    if is_blank pe.address then none else if ltb_ℤ pe.sats (pos 0) then none else rest

-- The variables of the payment loop. `outs` are the first `n` entries of `out`.
pub record Filling : Type 0 where
  pub outs : List ReplOut
  pub payout_bytes : ℕ
  pub dropped : ℤ
  pub res : WindowResult

module _ (sha256 : List ℕ → List ℕ) where
  -- The address of a payee as a script; a NULL has been refused before.
  unfoldable pub script_of : Option (List ℕ) → Option (List ℕ)
  script_of none = none
  script_of (some addr) = coinbase_address_to_script sha256 addr 64

  -- One payee of the loop: too small, out of slots, out of bytes, or paid.
  unfoldable pub fill_step : ℤ → ℕ → ℕ → ℕ → Payee → Filling → Option Filling
  fill_step floor budget slots k pe st =
      let res = st.res in
      let capped : Filling = record st {
        dropped = st.dropped +ℤ pe.sats;
        res = record res { dropped_capped = res.dropped_capped + 1 };
      } in
      if ltb_ℤ pe.sats floor
      then some (record st {
        dropped = st.dropped +ℤ pe.sats;
        res = record res { dropped_below_floor = res.dropped_below_floor + 1 };
      })
      else if leb slots (length st.outs + 1)
      then some capped
      else elim (script_of pe.address) [
        | none ↦ none
        | some spk ↦
            let cost = out_ser_size (length spk) in
            if ltb budget (st.payout_bytes + cost)
            then some capped
            else some (record {
              outs = st.outs ++ (record { spk = spk; sats = pe.sats } ∷ []);
              payout_bytes = st.payout_bytes + cost;
              dropped = st.dropped;
              res = record res {
                paid_count = res.paid_count + 1;
                paid_sats = res.paid_sats +ℤ pe.sats;
                paid_payee =
                    if ltb k max_payout_outputs then set res.paid_payee k true else res.paid_payee;
              };
            })
      ]

  unfoldable pub fill : ℤ → ℕ → ℕ → ℕ → List Payee → Filling → Option Filling
  fill floor budget slots k [] st = some st
  fill floor budget slots k (pe ∷ pes) st = elim (fill_step floor budget slots k pe st) [
    | none ↦ none
    | some st' ↦ fill floor budget slots (k + 1) pes st'
  ]

-- `for (i = 1; i < n; ++i) if (out[i].sats > out[big].sats) big = i;` from index `i` on.
unfoldable pub biggest_from : List ReplOut → ℕ → ℕ → ℤ → ℕ
biggest_from [] i big best = big
biggest_from (o ∷ os) i big best =
    biggest_from os (i + 1) (if ltb_ℤ best o.sats then i else big)
      (if ltb_ℤ best o.sats then o.sats else best)

unfoldable pub biggest : List ReplOut → ℕ
unfolding biggest_from
biggest [] = 0
biggest (o ∷ os) = biggest_from os 1 0 o.sats

-- `out[i].sats += extra;`
unfoldable pub add_at : List ReplOut → ℕ → ℤ → List ReplOut
add_at [] i extra = []
add_at (o ∷ os) zero extra = record o { sats = o.sats +ℤ extra } ∷ os
add_at (o ∷ os) (suc i) extra = o ∷ add_at os i extra

module _ (fl : DoubleOps) where
  open fl use {of_ℤ, to_ℤ, mul, div}

  -- `(int64_t)((double)payable * ((double)sats / (double)paid_sats))`.
  unfoldable pub scaled : ℤ → ℤ → ReplOut → ReplOut
  scaled payable paid o = record o {
    sats = to_ℤ (mul (of_ℤ payable) (div (of_ℤ o.sats) (of_ℤ paid)));
  }

  -- What was dropped, spread over the outputs: `none` where the scaling overshoots.
  unfoldable pub redistribute : ℤ → ℤ → List ReplOut → Option (List ReplOut)
  redistribute payable paid outs =
      let outs' = map (scaled payable paid) outs in
      let assigned = sum_sats outs' in
      if ltb_ℤ assigned payable
      then some (add_at outs' (biggest outs') (payable -ℤ assigned))
      else if ltb_ℤ payable assigned
      then none
      else some outs'
