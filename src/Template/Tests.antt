-- ===== src/Template/Tests.antt =====
-- Runs of the parser over a small coinbase, and the theorems at it.
use simplepool.Prelude.{
  ℕ, ◌≡◌, refl, Bool, true, false, Option, some, List, [], ◌∷◌, ◌++◌, arith, length, replicate,
}
use simplepool.Prelude.Int.{ℤ, ltb_ℤ, sum_ℤ, ◌+ℤ◌}
use simplepool.Bytes.{
  bbuf_init, grow, bbuf_reserve, bbuf_push, le_bytes, u32_le, u64_le, varint, rd_le, rd_varint,
  rd_u32, rd_u64,
}
use simplepool.Window.{ReplOut, out_ser_size, sum_sats}
use simplepool.Coinbase.{Parts, as_u64, out_pieces, push_all}
use simplepool.ScriptSig.{cb_tag_push, cb_tag_push_len, tag_bytes, tag_len, salt_bytes}
use simplepool.Template.{Outcome, on_ok, read}
use simplepool.Template.Parse.{
  Parsed, op_return_at, read_out, read_outs, skip_items, skip_witness, has_marker, parse_tail,
  parse_input, parse_coinbase,
}
use simplepool.Template.Build.{
  slice, spendable, as_i64, reward_of, kept_bytes, Extra, template_fixed_bytes, replaced_pieces,
  emit_template, build_parsed,
}
use simplepool.Template.Count.{count_tx}
use simplepool.Template.Agreement.{op_returns, parse_coinbase-count}
use simplepool.Template.Splice.{IsSpliced, build_parsed-IsSpliced}

-- Every definition that a run over a template goes through.
opened : ℕ
unfolding on_ok read op_return_at read_out read_outs skip_items skip_witness has_marker parse_tail
    parse_input parse_coinbase rd_le rd_varint rd_u32 rd_u64 slice spendable as_i64 reward_of
    kept_bytes template_fixed_bytes replaced_pieces emit_template build_parsed bbuf_init grow
    bbuf_reserve bbuf_push le_bytes u32_le u64_le varint cb_tag_push cb_tag_push_len tag_bytes
    tag_len salt_bytes as_u64 out_pieces push_all out_ser_size sum_sats sum_ℤ ltb_ℤ ◌+ℤ◌
opened = 0

abbrev always : ℕ → Bool
always n = true

-- One spendable output and one OP_RETURN.
abbrev dictated : List ℕ
dictated =
    (1 ∷ 0 ∷ 0 ∷ 0 ∷ 1 ∷ [])
    ++ replicate 36 0
    ++ (4 ∷ 3 ∷ 0 ∷ 53 ∷ 12 ∷ [])
    ++ replicate 4 255
    ++ (2 ∷ 0xa0 ∷ 0x86 ∷ 1 ∷ 0 ∷ 0 ∷ 0 ∷ 0 ∷ 0 ∷ 1 ∷ 0x51 ∷ [])
    ++ (0 ∷ 0 ∷ 0 ∷ 0 ∷ 0 ∷ 0 ∷ 0 ∷ 0 ∷ 3 ∷ 0x6a ∷ 1 ∷ 0xaa ∷ [])
    ++ (0 ∷ 0 ∷ 0 ∷ 0 ∷ [])

abbrev parsed : Parsed
parsed = record {
  version = 1;
  has_witness = false;
  prevout_off = 5;
  ss_off = 42;
  ss_len = 4;
  sequence = 0xffffffff;
  outs =
      record { value = 100000; spk_off = 60; spk_len = 1; op_return = false }
      ∷ record { value = 0; spk_off = 70; spk_len = 3; op_return = true }
      ∷ [];
  locktime = 0;
}

parses : parse_coinbase always dictated ≡ Outcome.ok parsed
unfolding opened
parses = refl

parse_coinbase-count_example :
    count_tx dictated ≡ Outcome.ok (length (spendable parsed.outs), op_returns parsed.outs)
parse_coinbase-count_example = parse_coinbase-count always dictated parsed parses

-- The script length 2 ^ 64 - 4 of the last output wraps past the check of `off + spk_len`, and the
-- byte after the transaction is read.
abbrev wrapping : List ℕ
wrapping =
    (1 ∷ 0 ∷ 0 ∷ 0 ∷ 1 ∷ [])
    ++ replicate 36 0
    ++ (4 ∷ 3 ∷ 0 ∷ 53 ∷ 12 ∷ [])
    ++ replicate 4 255
    ++ (1 ∷ 0 ∷ 0 ∷ 0 ∷ 0 ∷ 0 ∷ 0 ∷ 0 ∷ 0 ∷ 0xff ∷ 0xfc ∷ [])
    ++ replicate 7 0xff

wrapping_read : parse_coinbase always wrapping ≡ Outcome.fault
unfolding opened
wrapping_read = refl

abbrev extra : Extra
extra = record {
  coinbase_tag = some (47 ∷ 112 ∷ 47 ∷ []);
  job_salt = 7;
  extranonce1_size = 4;
  extranonce2_size = 4;
}

abbrev same_reward : ℤ → ℕ → Option (List ReplOut)
same_reward reward fixed_bytes = some (record { spk = 0x51 ∷ []; sats = reward } ∷ [])

abbrev built : Parts
built = record {
  cb1 =
      (1 ∷ 0 ∷ 0 ∷ 0 ∷ 1 ∷ [])
      ++ replicate 36 0
      ++ (21 ∷ 3 ∷ 0 ∷ 53 ∷ 12 ∷ 3 ∷ 47 ∷ 112 ∷ 47 ∷ 4 ∷ 7 ∷ 0 ∷ 0 ∷ 0 ∷ []);
  cb2 =
      replicate 4 255
      ++ (2 ∷ 0xa0 ∷ 0x86 ∷ 1 ∷ 0 ∷ 0 ∷ 0 ∷ 0 ∷ 0 ∷ 1 ∷ 0x51 ∷ [])
      ++ (0 ∷ 0 ∷ 0 ∷ 0 ∷ 0 ∷ 0 ∷ 0 ∷ 0 ∷ 3 ∷ 0x6a ∷ 1 ∷ 0xaa ∷ [])
      ++ (0 ∷ 0 ∷ 0 ∷ 0 ∷ []);
}

run : build_parsed always same_reward extra dictated parsed ≡ Outcome.ok built
unfolding opened
run = refl

build_parsed-IsSpliced_example :
    (v : ℕ) × (repl : List ReplOut) × (spendable parsed.outs ≡ v ∷ [])
    × (same_reward (as_i64 v) (template_fixed_bytes extra parsed) ≡ some repl)
    × (sum_sats repl ≡ as_i64 v)
    × IsSpliced extra dictated parsed repl built (replicate 8 0xee)
unfolding cb_tag_push tag_bytes salt_bytes u32_le
build_parsed-IsSpliced_example =
    build_parsed-IsSpliced always same_reward extra dictated parsed built (replicate 8 0xee) run
      (omega arith) (omega arith)
