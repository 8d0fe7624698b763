-- ===== src/Template/Build.antt =====
-- `build_from_template_impl` of src/coinbase.c after its parser, its two resolvers and the public
-- builders over them.
use simplepool.Prelude.{
  ℕ, ◌+◌, ◌-◌, ◌/◌, ◌%◌, ◌^◌, Bool, ◌||◌, not, Option, none, some, List, [], ◌∷◌, ◌++◌, ltb, leb,
  ◌==◌, if◌then◌else◌, length, take, drop,
}
use simplepool.Prelude.Int.{ℤ, pos, negsuc, ltb_ℤ}
use simplepool.Bytes.{bbuf_init, u32_le, u64_le, varint}
use simplepool.Double.{DoubleOps}
use simplepool.Hex.{hex_decode}
use simplepool.Window.{ReplOut, WindowResult, max_repl_outs, out_ser_size, sum_sats}
use simplepool.Window.Resolve.{Request, resolve_window_outputs}
use simplepool.Coinbase.{Parts, out_pieces, push_all, solo_outs}
use simplepool.ScriptSig.{cb_tag_push, cb_tag_push_len}
use simplepool.Template.{Outcome, on_ok, read}
use simplepool.Template.Parse.{TxOut, Parsed, parse_coinbase}

-- The bytes `tx + off` of a push of `n`: a fault where they are not all there.
unfoldable pub slice : List ℕ → ℕ → ℕ → Outcome (List ℕ)
slice tx off n =
    if leb (off + n) (length tx) then Outcome.ok (take n (drop off tx)) else Outcome.fault

-- The values of the outputs that are no OP_RETURN.
unfoldable pub spendable : List TxOut → List ℕ
spendable [] = []
spendable (o ∷ os) = if o.op_return then spendable os else o.value ∷ spendable os

-- `(int64_t)value`.
unfoldable pub as_i64 : ℕ → ℤ
as_i64 v = if ltb v (2 ^ 63) then pos v else negsuc (2 ^ 64 - 1 - v)

-- The reward, where exactly one output is spendable.
unfoldable pub reward_of : List ℕ → Outcome ℤ
reward_of [] = Outcome.refused
reward_of (v ∷ []) = Outcome.ok (as_i64 v)
reward_of (v ∷ w ∷ vs) = Outcome.refused

-- The outputs that stay, as bytes of the new coinbase.
unfoldable pub kept_bytes : List TxOut → ℕ
kept_bytes [] = 0
kept_bytes (o ∷ os) = (if o.op_return then out_ser_size o.spk_len else 0) + kept_bytes os

-- What the builder's caller asks for.
pub record Extra : Type 0 where
  pub coinbase_tag : Option (List ℕ)
  pub job_salt : ℕ
  pub extranonce1_size : ℕ
  pub extranonce2_size : ℕ

unfoldable pub template_fixed_bytes : Extra → Parsed → ℕ
template_fixed_bytes x t =
    let ss =
      (t.ss_len
        + cb_tag_push_len x.coinbase_tag x.job_salt
        + x.extranonce1_size
        + x.extranonce2_size)
      % 2 ^ 64 in
    (4 + 1 + 36 + (if ltb ss 253 then 1 else 3) + ss + 4 + 3 + 4 + kept_bytes t.outs) % 2 ^ 64

-- The pushes of the outputs, with the reward's output replaced. It is the only one that is no
-- OP_RETURN when this runs.
unfoldable pub replaced_pieces : List ℕ → List ReplOut → List TxOut → Outcome (List (List ℕ))
replaced_pieces tx repl [] = Outcome.ok []
replaced_pieces tx repl (o ∷ os) = on_ok (replaced_pieces tx repl os) (λ rest.
    if o.op_return
    then on_ok (slice tx o.spk_off o.spk_len)
        (λ spk. Outcome.ok (u64_le o.value ∷ varint o.spk_len ∷ spk ∷ rest))
    else Outcome.ok (out_pieces repl ++ rest))

module _ (realloc : ℕ → Bool) where
  -- cb1 and cb2 of a parsed template. Sums that take a length from the transaction wrap. Where one
  -- run both reads outside the bytes and fails to allocate, the outcome is the fault.
  unfoldable pub emit_template : Extra → List ℕ → Parsed → List ReplOut → Outcome Parts
  emit_template x tx t repl =
      let tag = cb_tag_push x.coinbase_tag x.job_salt in
      let new_ss_len =
        (t.ss_len + length tag + (x.extranonce1_size + x.extranonce2_size)) % 2 ^ 64 in
      if ltb new_ss_len 2 || ltb 100 new_ss_len
      then Outcome.refused
      else on_ok (slice tx t.prevout_off 36) (λ prevout. on_ok (slice tx t.ss_off t.ss_len) (λ ss.
        on_ok
          (read (
            push_all realloc bbuf_init
              (u32_le t.version ∷ varint 1 ∷ prevout ∷ varint new_ss_len ∷ ss ∷ tag ∷ [])))
          (λ c1. on_ok (replaced_pieces tx repl t.outs) (λ pieces.
            on_ok (read (push_all realloc bbuf_init pieces)) (λ ob.
              on_ok
                (read (
                  push_all realloc bbuf_init (
                    u32_le t.sequence
                    ∷ varint (length t.outs - 1 + length repl)
                    ∷ ob.bytes
                    ∷ u32_le t.locktime
                    ∷ [])))
                (λ c2. Outcome.ok (record { cb1 = c1.bytes; cb2 = c2.bytes })))))))

  -- `repl_fn` is the caller's resolver, given the reward and the fixed bytes.
  unfoldable pub build_parsed :
      (ℤ → ℕ → Option (List ReplOut)) → Extra → List ℕ → Parsed → Outcome Parts
  build_parsed repl_fn x tx t = on_ok (reward_of (spendable t.outs)) (λ reward.
      on_ok (read (repl_fn reward (template_fixed_bytes x t))) (λ repl.
        if length repl == 0
        then Outcome.refused
        else if ltb_ℤ (sum_sats repl) reward || ltb_ℤ reward (sum_sats repl)
        then Outcome.refused
        else emit_template x tx t repl))

  -- With `out_has_witness`.
  unfoldable pub build_from_template_impl :
      (ℕ → Bool) → (ℤ → ℕ → Option (List ReplOut)) → Extra → List ℕ → Outcome (Parts × Bool)
  build_from_template_impl calloc repl_fn x coinbase_tx_hex =
      if not (length coinbase_tx_hex % 2 == 0)
      then Outcome.refused
      else on_ok (read (hex_decode coinbase_tx_hex (length coinbase_tx_hex / 2))) (λ tx.
        on_ok (parse_coinbase calloc tx)
          (λ t. on_ok (build_parsed repl_fn x tx t) (λ parts. Outcome.ok (parts, t.has_witness))))

module _ (sha256 : List ℕ → List ℕ) where
  -- One miner and an optional operator fee.
  unfoldable pub repl_single : Option (List ℕ) → Option (List ℕ) → ℤ → ℤ → ℕ → Option (List ReplOut)
  repl_single miner_address operator_address fee_bps reward fixed_bytes =
      solo_outs sha256 reward miner_address operator_address fee_bps

  unfoldable pub outs_only : Option (List ReplOut × WindowResult) → Option (List ReplOut)
  outs_only none = none
  outs_only (some (outs, res)) = some outs

  -- A whole window: the request's own value and fixed bytes are not read.
  unfoldable pub repl_window : DoubleOps → Request → ℤ → ℕ → Option (List ReplOut)
  repl_window fl q reward fixed_bytes = outs_only (
      resolve_window_outputs fl sha256 (record q { value_sats = reward; fixed_bytes = fixed_bytes })
        max_repl_outs)

module _ (realloc calloc : ℕ → Bool) (sha256 : List ℕ → List ℕ) where
  unfoldable pub coinbase_build_from_template :
      Extra → List ℕ → Option (List ℕ) → Option (List ℕ) → ℤ → Outcome (Parts × Bool)
  coinbase_build_from_template x coinbase_tx_hex miner_address operator_address fee_bps =
      build_from_template_impl realloc calloc
        (repl_single sha256 miner_address operator_address fee_bps) x coinbase_tx_hex

  unfoldable pub coinbase_build_window_from_template :
      DoubleOps → Extra → List ℕ → Request → Outcome (Parts × Bool)
  coinbase_build_window_from_template fl x coinbase_tx_hex q =
      if length q.payees == 0
      then Outcome.refused
      else build_from_template_impl realloc calloc (repl_window sha256 fl q) x coinbase_tx_hex
