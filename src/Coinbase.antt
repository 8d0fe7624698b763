-- ===== src/Coinbase.antt =====
-- The coinbase builders of src/coinbase.c: the one-miner coinbase and the coinbase of a PPLNS
-- window. A NULL pointer is `none`; on a failure the outputs of the C functions are not modelled.
pub mod Serialize
pub mod Solo
pub mod Window
pub mod Lengths
pub mod Size
mod Tests
pub mod Height
use simplepool.ScriptSig.{bip34_height_push, cb_tag_push, cb_tag_push_len}
use simplepool.Prelude.{
  ℕ, zero, suc, ◌+◌, ◌-◌, ◌*◌, ◌/◌, ◌%◌, ◌^◌, min, Bool, true, false, ◌&&◌, ◌||◌, not, Option, none,
  some, List, [], ◌∷◌, ◌++◌, ltb, leb, ◌==◌, if◌then◌else◌, length, get_or, take, replicate,
}
use simplepool.Prelude.Int.{ℤ, pos, negsuc, ◌-ℤ◌, ltb_ℤ}
use simplepool.Bytes.{Bbuf, bbuf_init, bbuf_push, u32_le, u64_le, varint}
use simplepool.Double.{DoubleOps}
use simplepool.Hex.{hex_decode}
use simplepool.Address.Script.{coinbase_address_to_script}
use simplepool.Window.{
  Payee, ReplOut, WindowResult, dust_sats, max_repl_outs, out_ser_size, is_blank, fee_share,
  script_of, sum_sats,
}
use simplepool.Window.Resolve.{Request, resolve_window_outputs}

-- ---------- outputs ----------

-- `(uint64_t)sats`.
unfoldable pub as_u64 : ℤ → ℕ
as_u64 (pos n) = n % 2 ^ 64
as_u64 (negsuc n) = 2 ^ 64 - 1 - n % 2 ^ 64

-- The three pushes of each output.
unfoldable pub out_pieces : List ReplOut → List (List ℕ)
out_pieces [] = []
out_pieces (o ∷ os) = u64_le (as_u64 o.sats) ∷ varint (length o.spk) ∷ o.spk ∷ out_pieces os

-- The commitment: no output where there is no hex, `none` for hex that does not decode.
unfoldable pub commitment : Option (List ℕ) → Option (List ReplOut)
commitment none = some []
commitment (some []) = some []
commitment (some (c ∷ cs)) = elim (hex_decode (c ∷ cs) 256) [
  | none ↦ none
  | some wc ↦ some (record { spk = wc; sats = pos 0 } ∷ [])
]

-- `coinbase_parts_t`: what goes before and after the extranonces.
pub record Parts : Type 0 where
  pub cb1 : List ℕ
  pub cb2 : List ℕ

module _ (realloc : ℕ → Bool) where
  -- A run of pushes into one buffer; `none` is the jump to the out-of-memory label.
  unfoldable pub push_all : Bbuf → List (List ℕ) → Option Bbuf
  push_all b [] = some b
  push_all b (p ∷ ps) = elim (bbuf_push realloc b p) [ none ↦ none | some b' ↦ push_all b' ps ]

  -- The two buffers around the extranonces, for the outputs and a scriptSig that begins with
  -- `sig` and is `script_sig_len` bytes long.
  unfoldable pub emit_parts : ℕ → ℕ → List ℕ → List ℕ → List ReplOut → Option Parts
  emit_parts version script_sig_len height_push tag_push outs =
      elim (push_all bbuf_init (out_pieces outs)) [
        | none ↦ none
        | some ob ↦
            elim (push_all bbuf_init (
              u32_le version
              ∷ varint 1
              ∷ replicate 32 0
              ∷ u32_le 0xffffffff
              ∷ varint script_sig_len
              ∷ height_push
              ∷ tag_push
              ∷ [])) [
                | none ↦ none
                | some c1 ↦
                    elim (push_all bbuf_init
                      (u32_le 0xffffffff ∷ varint (length outs) ∷ ob.bytes ∷ u32_le 0 ∷ [])) [
                        | none ↦ none
                        | some c2 ↦ some (record { cb1 = c1.bytes; cb2 = c2.bytes })
                      ]
              ]
      ]

  -- The scriptSig within its 2 to 100 bytes, then the parts.
  unfoldable pub with_script_sig : ℕ → ℕ → Option (List ℕ) → ℕ → ℕ → List ReplOut → Option Parts
  with_script_sig version height coinbase_tag job_salt en_total outs =
      let height_push = bip34_height_push height in
      let tag_push = cb_tag_push coinbase_tag job_salt in
      let script_sig_len = length height_push + length tag_push + en_total in
      if ltb script_sig_len 2 || ltb 100 script_sig_len
      then none
      else emit_parts version script_sig_len height_push tag_push outs

-- ---------- one miner ----------

-- The arguments that every builder takes.
pub record Job : Type 0 where
  pub height : ℕ
  pub witness_commitment_hex : Option (List ℕ)
  pub coinbase_tag : Option (List ℕ)
  pub job_salt : ℕ
  pub extranonce1_size : ℕ
  pub extranonce2_size : ℕ

module _ (sha256 : List ℕ → List ℕ) where
  -- The operator's output, unless it would be zero, dust, or there is no operator; `none` where
  -- the address does not resolve.
  unfoldable pub solo_fee : ℤ → Option (List ℕ) → ℤ → Option (List ReplOut)
  solo_fee value_sats operator_address fee_bps =
      let fee = fee_share value_sats fee_bps in
      if is_blank operator_address
        || not (ltb_ℤ (pos 0) fee_bps)
        || not (ltb_ℤ (pos 0) value_sats)
        || ltb_ℤ fee (pos dust_sats)
      then some []
      else elim (script_of sha256 operator_address) [
        | none ↦ none
        | some spk ↦ some (record { spk = spk; sats = fee } ∷ [])
      ]

  -- The miner's output, then the operator's.
  unfoldable pub solo_outs : ℤ → Option (List ℕ) → Option (List ℕ) → ℤ → Option (List ReplOut)
  solo_outs value_sats miner_address operator_address fee_bps =
      elim (script_of sha256 miner_address) [
        | none ↦ none
        | some spk ↦ elim (solo_fee value_sats operator_address fee_bps) [
          | none ↦ none
          | some op ↦ some (record { spk = spk; sats = value_sats -ℤ sum_sats op } ∷ op)
        ]
      ]

module _ (realloc : ℕ → Bool) (sha256 : List ℕ → List ℕ) where
  -- The parts; the miner's and the operator's amounts are those of the outputs.
  unfoldable pub coinbase_build_split :
      Job → ℤ → Option (List ℕ) → Option (List ℕ) → ℤ → Option Parts
  coinbase_build_split j value_sats miner_address operator_address fee_bps =
      elim (solo_outs sha256 value_sats miner_address operator_address fee_bps) [
        | none ↦ none
        | some outs ↦ elim (commitment j.witness_commitment_hex) [
          | none ↦ none
          | some wc ↦
              with_script_sig realloc 1 j.height j.coinbase_tag j.job_salt
                (j.extranonce1_size + j.extranonce2_size) (outs ++ wc)
        ]
      ]

-- ---------- a window ----------

unfoldable pub text_len : Option (List ℕ) → ℕ
text_len none = 0
text_len (some text) = length text

-- `strlen(hex) / 2` bytes, where there are any, as an output.
unfoldable pub commitment_cost : Option (List ℕ) → ℕ
commitment_cost hex =
    let wc_len = text_len hex / 2 in if wc_len == 0 then 0 else out_ser_size wc_len

-- Everything the coinbase costs before a single miner is paid.
unfoldable pub window_fixed_bytes : Job → Option (List ℕ) → ℕ
window_fixed_bytes j operator_address =
    let ss =
      length (bip34_height_push j.height)
      + cb_tag_push_len j.coinbase_tag j.job_salt
      + j.extranonce1_size
      + j.extranonce2_size in
    4
    + 1
    + 36
    + (if ltb ss 253 then 1 else 3)
    + ss
    + 4
    + 3
    + 4
    + commitment_cost j.witness_commitment_hex
    + (if is_blank operator_address then 0 else out_ser_size 34)

module _ (realloc : ℕ → Bool) (fl : DoubleOps) (sha256 : List ℕ → List ℕ) where
  -- `q.fixed_bytes` is computed here, so the request's own is not read.
  unfoldable pub coinbase_build_window : Job → Request → Option (Parts × WindowResult)
  coinbase_build_window j q =
      let q' = record q { fixed_bytes = window_fixed_bytes j q.operator_address } in
      elim (resolve_window_outputs fl sha256 q' max_repl_outs) [
        | none ↦ none
        | some (outs, res) ↦ elim (commitment j.witness_commitment_hex) [
          | none ↦ none
          | some wc ↦
              if ltb_ℤ (sum_sats outs) q.value_sats || ltb_ℤ q.value_sats (sum_sats outs)
              then none
              else elim (with_script_sig realloc 2 j.height j.coinbase_tag j.job_salt
                  (j.extranonce1_size + j.extranonce2_size) (outs ++ wc)) [
                    | none ↦ none
                    | some parts ↦ some (parts, res)
                  ]
        ]
      ]
