-- ===== src/Stratum/Block.antt =====
-- `assemble_block_hex` of src/stratum.c, with `hex_to_bytes_alloc`. The buffer of the block is
-- taken to be allocated.
use simplepool.Prelude.{
  ℕ, ◌-◌, ◌%◌, Bool, not, ◌&&◌, Option, none, some, List, [], ◌∷◌, ◌++◌, leb, ◌==◌, if◌then◌else◌,
  length, take, drop, replicate,
}
use simplepool.Bytes.{varint, add_size}
use simplepool.Hex.{decode_pairs, bytes_to_hex}
use simplepool.Stratum.Jobs.{StratumJob}

unfoldable pub hex_to_bytes_alloc : Option (List ℕ) → Option (List ℕ)
hex_to_bytes_alloc none = none
hex_to_bytes_alloc (some hex) = if not (length hex % 2 == 0) then none else decode_pairs hex

-- The coinbase of the block: where the template's has a witness, the marker, the flag and the
-- reserved value of 32 zero bytes are put around the legacy serialization.
unfoldable pub block_coinbase : Bool → List ℕ → List ℕ
block_coinbase has_witness tx =
    if has_witness && leb 8 (length tx)
    then take 4 tx
      ++ (0x00 ∷ 0x01 ∷ [])
      ++ take (length tx - 8) (drop 4 tx)
      ++ (0x01 ∷ 0x20 ∷ replicate 32 0)
      ++ drop (length tx - 4) tx
    else tx

unfoldable pub append_transactions : List (List ℕ) → Option (List ℕ)
append_transactions [] = some []
append_transactions (hex ∷ rest) = elim (hex_to_bytes_alloc (some hex)) [
  | none ↦ none
  | some tx ↦ elim (append_transactions rest) [ none ↦ none | some txs ↦ some (tx ++ txs) ]
]

unfoldable pub assemble_block_hex : StratumJob → List ℕ → List ℕ → Option (List ℕ)
assemble_block_hex j coinbase_tx header = elim (append_transactions j.tx_hex_list) [
  | none ↦ none
  | some txs ↦ some (
      bytes_to_hex (
        header
        ++ varint (add_size (length j.tx_hex_list) 1)
        ++ block_coinbase j.coinbase_has_witness coinbase_tx
        ++ txs))
]
