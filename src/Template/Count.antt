-- ===== src/Template/Count.antt =====
-- `coinbase_count_outputs` of src/coinbase.c.
use simplepool.Prelude.{ℕ, zero, suc, ◌+◌, ◌/◌, ◌%◌, not, List, ltb, ◌==◌, if◌then◌else◌, length}
use simplepool.Bytes.{add_size, rd_varint, rd_u32, rd_u64}
use simplepool.Hex.{hex_decode}
use simplepool.Template.{Outcome, on_ok, read}
use simplepool.Template.Parse.{has_marker, op_return_at}

-- The inputs: previous output, script and sequence of each.
unfoldable pub skip_inputs : List ℕ → ℕ → ℕ → Outcome ℕ
skip_inputs tx zero off = Outcome.ok off
skip_inputs tx (suc vin) off =
    if ltb (length tx) (add_size off 36)
    then Outcome.refused
    else on_ok (read (rd_varint tx (add_size off 36))) (λ ss.
      if ltb (length tx) (add_size (add_size ss.1 ss.0) 4)
      then Outcome.refused
      else skip_inputs tx vin (add_size ss.1 (add_size ss.0 4)))

-- The spendable outputs and the OP_RETURNs, counted from `n` and `m` on.
unfoldable pub count_outs : List ℕ → ℕ → ℕ → ℕ → ℕ → Outcome (ℕ × ℕ)
count_outs tx zero off n m = Outcome.ok (n, m)
count_outs tx (suc vout) off n m = on_ok (read (rd_u64 tx off)) (λ val.
    on_ok (read (rd_varint tx val.1)) (λ spk.
      if ltb (length tx) (add_size spk.1 spk.0)
      then Outcome.refused
      else on_ok (op_return_at tx spk.1 spk.0) (λ op_return.
        if op_return
        then count_outs tx vout (add_size spk.1 spk.0) n (m + 1)
        else count_outs tx vout (add_size spk.1 spk.0) (n + 1) m)))

unfoldable pub count_tx : List ℕ → Outcome (ℕ × ℕ)
count_tx tx = on_ok (read (rd_u32 tx 0)) (λ version.
    let off = if has_marker tx version.1 then add_size version.1 2 else version.1 in
    on_ok (read (rd_varint tx off)) (λ vin.
      on_ok (skip_inputs tx vin.0 vin.1)
        (λ outputs. on_ok (read (rd_varint tx outputs)) (λ vout. count_outs tx vout.0 vout.1 0 0))))

-- The hex of a transaction, whose buffer is taken to be allocated.
unfoldable pub coinbase_count_outputs : List ℕ → Outcome (ℕ × ℕ)
coinbase_count_outputs tx_hex =
    if not (length tx_hex % 2 == 0)
    then Outcome.refused
    else on_ok (read (hex_decode tx_hex (length tx_hex / 2))) (λ tx. count_tx tx)
