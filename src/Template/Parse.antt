-- ===== src/Template/Parse.antt =====
-- The parser of `build_from_template_impl` in src/coinbase.c, with the offsets of the source.
use simplepool.Prelude.{
  ℕ, zero, suc, Bool, true, false, ◌&&◌, ◌||◌, not, List, [], ◌∷◌, ltb, leb, ◌==◌, if◌then◌else◌,
  length, get_or,
}
use simplepool.Bytes.{add_size, rd_varint, rd_u32, rd_u64}
use simplepool.Template.{Outcome, on_ok, read}

-- `struct cb_out`.
pub record TxOut : Type 0 where
  pub value : ℕ
  pub spk_off : ℕ
  pub spk_len : ℕ
  pub op_return : Bool

-- What the parser leaves in its variables.
pub record Parsed : Type 0 where
  pub version : ℕ
  pub has_witness : Bool
  pub prevout_off : ℕ
  pub ss_off : ℕ
  pub ss_len : ℕ
  pub sequence : ℕ
  pub outs : List TxOut
  pub locktime : ℕ

-- `spk_len >= 1 && tx[off] == 0x6a`.
unfoldable pub op_return_at : List ℕ → ℕ → ℕ → Outcome Bool
op_return_at tx off spk_len =
    if spk_len == 0
    then Outcome.ok false
    else if ltb off (length tx)
    then Outcome.ok (get_or tx off 0 == 0x6a)
    else Outcome.fault

-- One output, and the offset behind it. The sum of offset and length wraps, as in the source.
unfoldable pub read_out : List ℕ → ℕ → Outcome (TxOut × ℕ)
read_out tx off = on_ok (read (rd_u64 tx off)) (λ val. on_ok (read (rd_varint tx val.1)) (λ spk.
    if ltb (length tx) (add_size spk.1 spk.0)
    then Outcome.refused
    else on_ok (op_return_at tx spk.1 spk.0) (λ op_return. Outcome.ok (
      record { value = val.0; spk_off = spk.1; spk_len = spk.0; op_return = op_return },
      add_size spk.1 spk.0,
    ))))

unfoldable pub read_outs : List ℕ → ℕ → ℕ → Outcome (List TxOut × ℕ)
read_outs tx zero off = Outcome.ok ([], off)
read_outs tx (suc vout) off =
    on_ok (read_out tx off)
      (λ o. on_ok (read_outs tx vout o.1) (λ rest. Outcome.ok (o.0 ∷ rest.0, rest.1)))

-- The witness items, skipped.
unfoldable pub skip_items : List ℕ → ℕ → ℕ → Outcome ℕ
skip_items tx zero off = Outcome.ok off
skip_items tx (suc stack) off = on_ok (read (rd_varint tx off)) (λ item.
    if ltb (length tx) (add_size item.1 item.0)
    then Outcome.refused
    else skip_items tx stack (add_size item.1 item.0))

unfoldable pub skip_witness : Bool → List ℕ → ℕ → Outcome ℕ
skip_witness false tx off = Outcome.ok off
skip_witness true tx off = on_ok (read (rd_varint tx off)) (λ stack. skip_items tx stack.0 stack.1)

-- A segwit marker (0x00) and flag (not zero).
unfoldable pub has_marker : List ℕ → ℕ → Bool
has_marker tx off =
    leb (add_size off 2) (length tx)
    && get_or tx off 0 == 0x00
    && not (get_or tx (add_size off 1) 0 == 0x00)

-- The outputs and the end of the transaction, from the output count on.
unfoldable pub parse_tail : (ℕ → Bool) → List ℕ → Bool → ℕ → Outcome (List TxOut × ℕ)
parse_tail calloc tx has_witness off = on_ok (read (rd_varint tx off)) (λ vout.
    if vout.0 == 0 || not (calloc vout.0)
    then Outcome.refused
    else on_ok (read_outs tx vout.0 vout.1) (λ walked.
      on_ok (skip_witness has_witness tx walked.1) (λ end.
        on_ok (read (rd_u32 tx end)) (λ lock.
          if lock.1 == length tx then Outcome.ok (walked.0, lock.0) else Outcome.refused))))

-- From behind the room for the previous output on. `off` is `prevout_off`.
unfoldable pub parse_input : (ℕ → Bool) → List ℕ → ℕ → Bool → ℕ → Outcome Parsed
parse_input calloc tx version has_witness off = on_ok (read (rd_varint tx (add_size off 36))) (λ ss.
    if ltb (length tx) (add_size ss.1 ss.0)
    then Outcome.refused
    else on_ok (read (rd_u32 tx (add_size ss.1 ss.0))) (λ sequence.
      on_ok (parse_tail calloc tx has_witness sequence.1) (λ tail. Outcome.ok (record {
        version = version;
        has_witness = has_witness;
        prevout_off = off;
        ss_off = ss.1;
        ss_len = ss.0;
        sequence = sequence.0;
        outs = tail.0;
        locktime = tail.1;
      }))))

-- `calloc` says whether an array of so many outputs can be allocated.
unfoldable pub parse_coinbase : (ℕ → Bool) → List ℕ → Outcome Parsed
parse_coinbase calloc tx = on_ok (read (rd_u32 tx 0)) (λ version.
    let has_witness = has_marker tx version.1 in
    let off = if has_witness then add_size version.1 2 else version.1 in
    on_ok (read (rd_varint tx off)) (λ vin.
      if not (vin.0 == 1)
      then Outcome.refused
      else if ltb (length tx) (add_size vin.1 36)
      then Outcome.refused
      else parse_input calloc tx version.0 has_witness vin.1))
