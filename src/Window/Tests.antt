-- ===== src/Window/Tests.antt =====
-- Runs of the split, and the theorems at concrete windows.
use simplepool.Prelude.{
  ℕ, ◌≡◌, refl, Option, none, some, List, [], ◌∷◌, true, false, arith, replicate, ◌++◌,
}
use simplepool.Prelude.Text.{codes, starts_with}
use simplepool.Prelude.Int.{pos, ◌+ℤ◌, ◌-ℤ◌, ltb_ℤ, sum_ℤ}
use simplepool.Double.{fractions}
use simplepool.Address.Base58.{index_of}
use simplepool.Address.Bech32.{
  bech32_charpos, mix, polymod_from, bech32_polymod, bech32_hrp_expand, last_one, any_char,
  charvalues, encoding_of, decode_parts, bech32_decode, emit, finish_bits, convert_from,
  convertbits,
}
use simplepool.Address.Script.{
  is_segwit_prefix, witness_script, segwit_script, coinbase_address_to_script,
}
use simplepool.Window.{
  ReplOut, WindowResult, out_ser_size, is_blank, fee_share, clamp_floor, claimed, script_of,
  fill_step, fill, biggest_from, biggest, add_at, scaled, redistribute, sum_sats,
}
use simplepool.Window.Resolve.{
  Request, payout_budget, operator_fee, append_operator, settle, resolve_with,
  resolve_window_outputs,
}
use simplepool.Window.Settle.{operator_list}
use simplepool.Window.Whole.{IsSplit, resolve-IsSplit}
use simplepool.Window.Marks.{resolve_marks, resolve_marks-claims}
use simplepool.Window.Marked.{selected, paid_scripts, scripts, amounts, claims}

-- Every definition that a run of the split goes through.
unfoldable pub opened : ℕ
unfolding index_of bech32_charpos mix polymod_from bech32_polymod bech32_hrp_expand last_one
    any_char charvalues encoding_of decode_parts bech32_decode emit finish_bits convert_from
    convertbits starts_with is_segwit_prefix witness_script segwit_script coinbase_address_to_script
    out_ser_size is_blank fee_share clamp_floor claimed script_of fill_step fill biggest_from
    biggest add_at scaled redistribute sum_sats payout_budget operator_fee append_operator settle
    resolve_with resolve_window_outputs ◌+ℤ◌ ◌-ℤ◌ ltb_ℤ sum_ℤ
opened = 0

abbrev pub no_hash : List ℕ → List ℕ
no_hash bytes = []

-- The P2WPKH address of BIP 173, and its key hash.
abbrev pub alice : List ℕ
alice = codes "bc1qw508d6qejxtdg4y5r3zarvary0c5xw7kv8f3t4"

abbrev pub alice_script : List ℕ
alice_script =
    0x00 ∷ 20 ∷ 0x75 ∷ 0x1e ∷ 0x76 ∷ 0xe8 ∷ 0x19 ∷ 0x91 ∷ 0x96 ∷ 0xd4 ∷ 0x54 ∷ 0x94 ∷ 0x1c ∷ 0x45
    ∷ 0xd1 ∷ 0xb3 ∷ 0xa3 ∷ 0x23 ∷ 0xf1 ∷ 0x43 ∷ 0x3b ∷ 0xd6 ∷ []

pub alice_resolves : coinbase_address_to_script no_hash alice 64 ≡ some alice_script
unfolding opened
alice_resolves = refl

-- A miner that clears the floor, one that does not, and an operator at two percent.
abbrev pub window : Request
window = record {
  value_sats = pos 100000;
  payees =
      record { address = some alice; sats = pos 97500 }
      ∷ record { address = some alice; sats = pos 500 }
      ∷ [];
  operator_address = some alice;
  fee_bps = pos 200;
  max_coinbase_bytes = 0;
  fixed_bytes = 120;
  payout_floor_sats = pos 0;
}

abbrev the_outs : List ReplOut
the_outs =
    record { spk = alice_script; sats = pos 98000 }
    ∷ record { spk = alice_script; sats = pos 2000 }
    ∷ []

abbrev pub the_result : WindowResult
the_result = record {
  paid_count = 1;
  paid_sats = pos 98000;
  dropped_below_floor = 1;
  dropped_capped = 0;
  redistributed_sats = pos 500;
  fee_sats = pos 2000;
  paid_payee = true ∷ replicate 199 false;
}

abbrev Result : Type 0
Result = Option (List ReplOut × WindowResult)

the_split : resolve_window_outputs fractions no_hash window 201 ≡ some (the_outs, the_result)
unfolding opened
the_split = refl

-- Refused: the window claims less than the block pays.
short_window :
    resolve_window_outputs fractions no_hash (record window { value_sats = pos 100001 }) 201 ≡ none
unfolding opened
short_window = refl

resolve-IsSplit_example : IsSplit no_hash window 201 the_outs the_result
resolve-IsSplit_example = resolve-IsSplit fractions no_hash window 201 the_outs the_result the_split

resolve_marks_example :
    (payouts : List ReplOut) × (op : Option ReplOut) × (the_outs ≡ payouts ++ operator_list op)
    × (paid_scripts payouts ≡ scripts no_hash (selected window.payees the_result.paid_payee))
resolve_marks_example =
    resolve_marks fractions no_hash window 201 the_outs the_result (omega arith) the_split

-- Both miners clear the floor, so nothing is redistributed.
abbrev fair_window : Request
fair_window = record window {
  payees =
      record { address = some alice; sats = pos 97000 }
      ∷ record { address = some alice; sats = pos 1000 }
      ∷ [];
}

abbrev fair_outs : List ReplOut
fair_outs =
    record { spk = alice_script; sats = pos 97000 }
    ∷ record { spk = alice_script; sats = pos 1000 }
    ∷ record { spk = alice_script; sats = pos 2000 }
    ∷ []

abbrev fair_result : WindowResult
fair_result = record {
  paid_count = 2;
  paid_sats = pos 98000;
  dropped_below_floor = 0;
  dropped_capped = 0;
  redistributed_sats = pos 0;
  fee_sats = pos 2000;
  paid_payee = true ∷ true ∷ replicate 198 false;
}

fair_split :
    resolve_window_outputs fractions no_hash fair_window 201 ≡ some (fair_outs, fair_result)
unfolding opened
fair_split = refl

resolve_marks-claims_example :
    (payouts : List ReplOut) × (op : Option ReplOut) × (fair_outs ≡ payouts ++ operator_list op)
    × (amounts payouts ≡ claims (selected fair_window.payees fair_result.paid_payee))
resolve_marks-claims_example =
    resolve_marks-claims fractions no_hash fair_window 201 fair_outs fair_result (omega arith)
      fair_split refl
