-- ===== src/Template/Agreement.antt =====
-- The parser behind the builder and `coinbase_count_outputs`, two walks over the same bytes.
use simplepool.Template.Chain.Chain.{step}
use simplepool.Template.Chain.{on_ok-Chain, read-inverted, guard-inverted, ok_injective}
use simplepool.Prelude.{
  ℕ, zero, suc, ◌+◌, ◌≡◌, refl, sym, ap, ap₂, subst, ◌∙◌, inl, inr, Bool, true, false, ◌||◌, not,
  some, List, [], ◌∷◌, arith, ltb, ◌==◌, if◌then◌else◌, length, Bool-cases,
}
use simplepool.Bytes.{add_size, rd_varint, rd_u32, rd_u64}
use simplepool.Template.{Outcome, on_ok, read}
use simplepool.Template.Parse.{
  TxOut, Parsed, op_return_at, read_out, read_outs, skip_witness, has_marker, parse_tail,
  parse_input, parse_coinbase,
}
use simplepool.Template.Build.{spendable}
use simplepool.Template.Count.{skip_inputs, count_outs, count_tx}

-- How many outputs are OP_RETURNs.
unfoldable pub op_returns : List TxOut → ℕ
op_returns [] = 0
op_returns (o ∷ os) = (if o.op_return then 1 else 0) + op_returns os

-- One output: the counter makes the step that the parser makes.
count_step : List ℕ → ℕ → ℕ → ℕ → TxOut × ℕ → Outcome (ℕ × ℕ)
count_step tx vout n m o =
    if (o.0).op_return then count_outs tx vout o.1 n (m + 1) else count_outs tx vout o.1 (n + 1) m

count_outs-read_out :
    (tx : List ℕ) (vout off n m : ℕ) (o : TxOut × ℕ)
    → read_out tx off ≡ Outcome.ok o
    → count_outs tx (suc vout) off n m ≡ count_step tx vout n m o
unfolding count_outs read_out count_step on_ok
count_outs-read_out tx vout off n m o e = elim (on_ok-Chain (read (rd_u64 tx off)) _ o e) [
  | step val e1 r1 ↦ elim (on_ok-Chain (read (rd_varint tx val.1)) _ o r1) [
    | step spk e2 r2 ↦
        let (inside, r3) = guard-inverted (ltb (length tx) (add_size spk.1 spk.0)) _ o r2 in
        elim (on_ok-Chain (op_return_at tx spk.1 spk.0) _ o r3) [
          | step op e3 r4 ↦
              rw (e1, e2, inside, e3) (ap (count_step tx vout n m) (ok_injective _ o r4))
        ]
  ]
]

pair :
    {a b c d : ℕ}
    → a ≡ c
    → b ≡ d
    → ◌≡◌ {A = Outcome (ℕ × ℕ)} (Outcome.ok (a, b)) (Outcome.ok (c, d))
pair p q = ap₂ (λ (x y : ℕ). Outcome.ok (x, y)) p q

-- The counts of the outputs that the parser has read.
Counted : List ℕ → ℕ → ℕ → ℕ → ℕ → List TxOut × ℕ → Type 0
Counted tx vout off n m walked =
    count_outs tx vout off n m
    ≡ Outcome.ok (n + length (spendable walked.0), m + op_returns walked.0)

read_outs-count :
    (tx : List ℕ) (vout off n m : ℕ) (walked : List TxOut × ℕ)
    → read_outs tx vout off ≡ Outcome.ok walked
    → Counted tx vout off n m walked
unfolding Counted read_outs count_outs spendable op_returns count_step
read_outs-count tx zero off n m walked e =
    subst (Counted tx zero off n m) (ok_injective ([], off) walked e)
      (pair (omega arith) (omega arith))
read_outs-count tx (suc vout) off n m walked e = elim (on_ok-Chain (read_out tx off) _ walked e) [
  | step o one tail ↦ elim (on_ok-Chain (read_outs tx vout o.1) _ walked tail) [
    | step rest more made ↦
        subst (Counted tx (suc vout) off n m) (ok_injective (o.0 ∷ rest.0, rest.1) walked made) (
          count_outs-read_out tx vout off n m o one ∙ elim (Bool-cases (o.0).op_return) [
            | inl h ↦
                rw h (read_outs-count tx vout o.1 n (m + 1) rest more ∙ pair refl (omega arith))
            | inr h ↦
                rw h (
                  read_outs-count tx vout o.1 (n + 1) m rest more
                  ∙ pair (omega arith) (omega arith))
          ])
  ]
]

-- The counter's one input is the parser's.
skip_one_input :
    (tx : List ℕ) (off : ℕ) (ss : ℕ × ℕ) (sequence : ℕ × ℕ)
    → ltb (length tx) (add_size off 36) ≡ false
    → rd_varint tx (add_size off 36) ≡ some ss
    → rd_u32 tx (add_size ss.1 ss.0) ≡ some sequence
    → skip_inputs tx 1 off ≡ Outcome.ok sequence.1
unfolding skip_inputs on_ok read rd_u32
skip_one_input tx off ss sequence room script seq =
    let sum : add_size ss.1 (add_size ss.0 4) ≡ add_size (add_size ss.1 ss.0) 4 = omega arith in
    let fits : ltb (length tx) (add_size (add_size ss.1 ss.0) 4) ≡ false = ground arith in
    let end : sequence.1 ≡ add_size (add_size ss.1 ss.0) 4 = ground arith in
    rw (room, script, fits) (ap Outcome.ok (sum ∙ sym end))

-- What follows the outputs does not change them.
after_outs :
    (tx : List ℕ) (has_witness : Bool) (walked tail : List TxOut × ℕ)
    → on_ok (skip_witness has_witness tx walked.1) (λ end.
      on_ok
        (read (rd_u32 tx end))
        (λ lock. if lock.1 == length tx then Outcome.ok (walked.0, lock.0) else Outcome.refused))
      ≡ Outcome.ok tail
    → walked.0 ≡ tail.0
after_outs tx has_witness walked tail e =
    elim (on_ok-Chain (skip_witness has_witness tx walked.1) _ tail e) [
      | step end e1 r1 ↦ elim (on_ok-Chain (read (rd_u32 tx end)) _ tail r1) [
        | step lock e2 r2 ↦
            ap (λ (w : List TxOut × ℕ). w.0)
              (accepted (lock.1 == length tx) (walked.0, lock.0) tail r2)
      ]
    ]
  where
    accepted :
        (b : Bool) (x y : List TxOut × ℕ)
        → (if b then Outcome.ok x else Outcome.refused) ≡ Outcome.ok y
        → x ≡ y
    accepted true x y h = ok_injective x y h
    accepted false x y h = cc

-- From the output count on, with what the parser makes of the rest left aside.
parse_tail-count :
    (calloc : ℕ → Bool) (tx : List ℕ) (has_witness : Bool) (off : ℕ) (tail : List TxOut × ℕ)
    → parse_tail calloc tx has_witness off ≡ Outcome.ok tail
    → on_ok (read (rd_varint tx off)) (λ vout. count_outs tx vout.0 vout.1 0 0)
      ≡ Outcome.ok (length (spendable tail.0), op_returns tail.0)
unfolding parse_tail on_ok Counted
parse_tail-count calloc tx has_witness off tail e =
    elim (on_ok-Chain (read (rd_varint tx off)) _ tail e) [
      | step vout e1 r1 ↦
          let r2 = (guard-inverted (vout.0 == 0 || not (calloc vout.0)) _ tail r1).1 in
          elim (on_ok-Chain (read_outs tx vout.0 vout.1) _ tail r2) [
            | step walked e2 r3 ↦ rw e1 (
                read_outs-count tx vout.0 vout.1 0 0 walked e2
                ∙ pair (omega arith) (omega arith)
                ∙ ap (λ (os : List TxOut). Outcome.ok (length (spendable os), op_returns os))
                    (after_outs tx has_witness walked tail r3))
          ]
    ]

-- The same from the input on.
after_count :
    (calloc : ℕ → Bool) (tx : List ℕ) (has_witness : Bool) (version off : ℕ) (t : Parsed)
    → ltb (length tx) (add_size off 36) ≡ false
    → parse_input calloc tx version has_witness off ≡ Outcome.ok t
    → on_ok
        (skip_inputs tx 1 off)
        (λ outputs. on_ok (read (rd_varint tx outputs)) (λ vout. count_outs tx vout.0 vout.1 0 0))
      ≡ Outcome.ok (length (spendable t.outs), op_returns t.outs)
unfolding parse_input on_ok
after_count calloc tx has_witness version off t room e =
    elim (on_ok-Chain (read (rd_varint tx (add_size off 36))) _ t e) [
      | step ss e1 r1 ↦
          let r2 = (guard-inverted (ltb (length tx) (add_size ss.1 ss.0)) _ t r1).1 in
          elim (on_ok-Chain (read (rd_u32 tx (add_size ss.1 ss.0))) _ t r2) [
            | step seq e2 r3 ↦ elim (on_ok-Chain (parse_tail calloc tx has_witness seq.1) _ t r3) [
              | step tail e3 made ↦
                  let inputs =
                    skip_one_input tx off ss seq room (read-inverted _ ss e1)
                      (read-inverted _ seq e2) in
                  rw inputs (
                    parse_tail-count calloc tx has_witness seq.1 tail e3
                    ∙ ap (λ (p : Parsed). Outcome.ok (length (spendable p.outs), op_returns p.outs))
                        (ok_injective _ t made))
            ]
          ]
    ]

-- Whatever the bytes are: where the builder's parser accepts a coinbase, the counter finds the
-- same outputs, as many spendable ones and as many OP_RETURNs.
pub parse_coinbase-count :
    (calloc : ℕ → Bool) (tx : List ℕ) (t : Parsed)
    → parse_coinbase calloc tx ≡ Outcome.ok t
    → count_tx tx ≡ Outcome.ok (length (spendable t.outs), op_returns t.outs)
unfolding parse_coinbase count_tx on_ok
parse_coinbase-count calloc tx t e = elim (on_ok-Chain (read (rd_u32 tx 0)) _ t e) [
  | step version e1 r1 ↦
      let marked : Bool = has_marker tx version.1 in
      let off : ℕ = if marked then add_size version.1 2 else version.1 in
      elim (on_ok-Chain (read (rd_varint tx off)) _ t r1) [
        | step vin e2 r2 ↦
            let (single, r3) = guard-inverted (not (vin.0 == 1)) _ t r2 in
            let (room, r4) = guard-inverted (ltb (length tx) (add_size vin.1 36)) _ t r3 in
            rw (e1, e2, one_input vin.0 single)
              (after_count calloc tx marked version.0 vin.1 t room r4)
      ]
]
  where
    one_input : (n : ℕ) → not (n == 1) ≡ false → n ≡ 1
    one_input n h = ground arith
