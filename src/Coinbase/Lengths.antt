-- ===== src/Coinbase/Lengths.antt =====
-- How long the serialized parts of a coinbase of src/coinbase.c are.
use simplepool.Prelude.{ℕ, ◌+◌, ◌^◌, ◌≤◌, ◌<◌, ◌≡◌, refl, List, [], ◌∷◌, arith, length, replicate}
use simplepool.Bytes.{u32_le, u64_le, varint, le_bytes}
use simplepool.Bytes.Ints.{length-le_bytes}
use simplepool.Window.{ReplOut, out_ser_size}
use simplepool.Window.Fill.{sum_bytes}
use simplepool.Coinbase.{as_u64}
use simplepool.Coinbase.Serialize.{length-fields, outs_bytes, coinbase_tx}

pub length-u64_le : (v : ℕ) → length (u64_le v) ≡ 8
unfolding u64_le
length-u64_le v = length-le_bytes 8 0 v

pub length-varint : (n : ℕ) → n < 2 ^ 32 → 8 + length (varint n) + n ≡ out_ser_size n
unfolding varint out_ser_size u32_le u64_le le_bytes
length-varint n h = ground arith

pub out_ser_size-ge : (n : ℕ) → n + 9 ≤ out_ser_size n
unfolding out_ser_size
out_ser_size-ge n = ground arith

pub out_ser_size-le_34 : (n : ℕ) → n ≤ 34 → out_ser_size n ≤ 43
unfolding out_ser_size
out_ser_size-le_34 n h = ground arith

pub length-outs_bytes :
    (outs : List ReplOut) → sum_bytes outs < 2 ^ 32 → length (outs_bytes outs) ≡ sum_bytes outs
unfolding outs_bytes sum_bytes
length-outs_bytes [] h = refl
length-outs_bytes (o ∷ os) h =
    let small = out_ser_size-ge (length o.spk) in
    omega (
      arith,
      length-fields (u64_le (as_u64 o.sats) ∷ varint (length o.spk) ∷ o.spk ∷ outs_bytes os ∷ []),
      length-u64_le (as_u64 o.sats),
      length-varint (length o.spk) (omega arith),
      length-outs_bytes os (omega arith),
    )

pub varint_one : (n : ℕ) → n < 253 → length (varint n) ≡ 1
unfolding varint
varint_one n h = ground arith

pub length-u32_le : (v : ℕ) → length (u32_le v) ≡ 4
unfolding u32_le
length-u32_le v = length-le_bytes 4 0 v

-- All of a coinbase transaction but its outputs, when the counts are small.
pub length-coinbase_tx :
    (version : ℕ) (sig : List ℕ) (outs : List ReplOut)
    → length sig < 253
    → length outs < 253
    → length (coinbase_tx version sig outs) ≡ 51 + length sig + length (outs_bytes outs)
unfolding coinbase_tx
length-coinbase_tx version sig outs few_bytes few = omega (
  arith,
  length-fields (
      u32_le version
      ∷ varint 1
      ∷ replicate 32 0
      ∷ u32_le 0xffffffff
      ∷ varint (length sig)
      ∷ sig
      ∷ u32_le 0xffffffff
      ∷ varint (length outs)
      ∷ outs_bytes outs
      ∷ u32_le 0
      ∷ []),
  length-u32_le version,
  length-u32_le 0xffffffff,
  length-u32_le 0,
  varint_one 1 (omega arith),
  varint_one (length sig) few_bytes,
  varint_one (length outs) few,
)
