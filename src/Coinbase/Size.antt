-- ===== src/Coinbase/Size.antt =====
-- The size of a window's coinbase against the byte budget it was given.
use simplepool.Coinbase.Lengths.{
  out_ser_size-ge, out_ser_size-le_34, length-outs_bytes, length-coinbase_tx,
}
use simplepool.Prelude.{
  ℕ, ◌+◌, ◌/◌, ◌^◌, min, ◌≤◌, ◌<◌, ◌≡◌, refl, ap, subst, ◌∙◌, inl, inr, Bool, true, false, Option,
  none, some, List, [], ◌∷◌, ◌++◌, arith, length, length-append, length-take, ltb, ◌==◌,
  if◌then◌else◌, Option-cases, lt→ltb,
}
use simplepool.Prelude.Int.{pos}
use simplepool.Bytes.{u32_le, le_bytes}
use simplepool.Double.{DoubleOps}
use simplepool.Hex.{hex_decode, decode_pairs}
use simplepool.Hex.RoundTrip.{decode_pairs-length}
use simplepool.Address.Shapes.{IsStandard, address_to_script-IsStandard}
use simplepool.Window.{ReplOut, WindowResult, out_ser_size, is_blank, script_of}
use simplepool.Window.Resolve.{Request, payout_budget, operator_fee}
use simplepool.Window.Fill.{sum_bytes}
use simplepool.Window.Settle.{operator_list}
use simplepool.Coinbase.{
  Job, Parts, commitment, text_len, commitment_cost, window_fixed_bytes, coinbase_build_window,
}
use simplepool.ScriptSig.{
  tag_bytes, tag_len, salt_bytes, cb_tag_push, cb_tag_push_len, bip34_height_push,
  job_salt_push_bytes,
}
use simplepool.Coinbase.Window.{byte_limit, with_fixed, coinbase_build_window-IsWindow}

length-tag_bytes : (t : Option (List ℕ)) → length (tag_bytes t) ≡ tag_len t
unfolding tag_bytes tag_len
length-tag_bytes none = refl
length-tag_bytes (some []) = refl
length-tag_bytes (some (c ∷ cs)) = ground (arith, length-take (min (length (c ∷ cs)) 75) (c ∷ cs))

length-salt_bytes : (s : ℕ) → length (salt_bytes s) ≡ (if s == 0 then 0 else job_salt_push_bytes)
unfolding salt_bytes u32_le le_bytes
length-salt_bytes s = ground arith

-- The probe's length is the length of the push, whatever the tag and the salt.
pub cb_tag_push_len_lem :
    (tag : Option (List ℕ)) (salt : ℕ) → length (cb_tag_push tag salt) ≡ cb_tag_push_len tag salt
unfolding cb_tag_push cb_tag_push_len
cb_tag_push_len_lem tag salt = omega (
  arith,
  length-append (tag_bytes tag) (salt_bytes salt),
  length-tag_bytes tag,
  length-salt_bytes salt,
)

IsStandard-length : (spk : List ℕ) → IsStandard spk → length spk ≤ 34
IsStandard-length spk (IsStandard.p2wpkh h n e) = omega (arith, ap length e, n)
IsStandard-length spk (IsStandard.p2wsh h n e) = omega (arith, ap length e, n)
IsStandard-length spk (IsStandard.p2tr h n e) = omega (arith, ap length e, n)
IsStandard-length spk (IsStandard.p2pkh h n e) =
    omega (arith, ap length e, length-append h (0x88 ∷ 0xac ∷ []), n)
IsStandard-length spk (IsStandard.p2sh h n e) =
    omega (arith, ap length e, length-append h (0x87 ∷ []), n)

script_of-length :
    (sha256 : List ℕ → List ℕ) (addr : Option (List ℕ)) (spk : List ℕ)
    → script_of sha256 addr ≡ some spk
    → length spk ≤ 34
unfolding script_of
script_of-length sha256 none spk e = absurd (ground arith)
script_of-length sha256 (some addr) spk e =
    IsStandard-length spk (address_to_script-IsStandard sha256 addr 64 spk e).0

-- The operator's output takes no more than what was set aside for it.
operator_bytes :
    (sha256 : List ℕ → List ℕ) (q : Request) (op : Option ReplOut)
    → operator_fee sha256 q ≡ some op
    → sum_bytes (operator_list op) ≤ (if is_blank q.operator_address then 0 else out_ser_size 34)
unfolding operator_fee sum_bytes out_ser_size script_of
operator_bytes sha256 q none e = omega arith
operator_bytes sha256 q (some op) e = elim (Option-cases (script_of sha256 q.operator_address)) [
  | inl f ↦ absurd (ground arith)
  | inr (spk, f) ↦
      let there : is_blank q.operator_address ≡ false = ground arith in
      let same : spk ≡ op.spk = ground arith in
      let short = script_of-length sha256 q.operator_address spk f in
      rw there (
        omega (
          arith,
          ap length same,
          out_ser_size-le_34 (length op.spk) (omega (arith, ap length same)),
        ))
]

-- Nor does the commitment.
commitment_bytes :
    (hex : Option (List ℕ)) (wc : List ReplOut)
    → commitment hex ≡ some wc
    → (sum_bytes wc ≤ commitment_cost hex) × (length wc ≤ 1)
unfolding commitment sum_bytes hex_decode commitment_cost text_len
commitment_bytes none [] e = (omega arith, omega arith)
commitment_bytes none (o ∷ os) e = absurd (ground arith)
commitment_bytes (some []) [] e = (omega arith, omega arith)
commitment_bytes (some []) (o ∷ os) e = absurd (ground arith)
commitment_bytes (some (c ∷ cs)) wc e = elim (Option-cases (hex_decode (c ∷ cs) 256)) [
  | inl f ↦ absurd (ground arith)
  | inr (bs, f) ↦
      let one : record { spk = bs; sats = pos 0 } ∷ [] ≡ wc = ground arith in
      let decoded : decode_pairs (c ∷ cs) ≡ some bs = ground arith in
      let pairs = (decode_pairs-length (c ∷ cs) bs decoded).0 in
      let half : length (c ∷ cs) / 2 ≡ length bs = omega arith in
      let positive : (length bs == 0) ≡ false = ground arith in
      subst
        (λ (os : List ReplOut). (sum_bytes os ≤ commitment_cost (some (c ∷ cs))) × (length os ≤ 1))
        one (rw (commitment_cost, text_len, half, positive) (omega arith), omega arith)
]

sum_bytes-append : (xs ys : List ReplOut) → sum_bytes (xs ++ ys) ≡ sum_bytes xs + sum_bytes ys
unfolding sum_bytes
sum_bytes-append [] ys = omega arith
sum_bytes-append (x ∷ xs) ys = omega (arith, sum_bytes-append xs ys)

-- Payouts cost something.
sum_bytes-positive : (outs : List ReplOut) → 0 < length outs → 0 < sum_bytes outs
unfolding sum_bytes
sum_bytes-positive [] h = absurd (omega arith)
sum_bytes-positive (o ∷ os) h = omega (arith, out_ser_size-ge (length o.spk))

-- A budget that paid somebody is what the limit leaves over the fixed bytes.
payout_budget-room :
    (q : Request) → 0 < payout_budget q → payout_budget q + q.fixed_bytes ≡ byte_limit q
unfolding payout_budget
payout_budget-room q h = ground arith

-- What the builder sets aside, when the scriptSig is a legal one.
small_fixed :
    (j : Job) (operator : Option (List ℕ))
    → length (bip34_height_push j.height)
        + cb_tag_push_len j.coinbase_tag j.job_salt
        + j.extranonce1_size
        + j.extranonce2_size
      ≤ 100
    → window_fixed_bytes j operator
      ≡ 53
        + (length (bip34_height_push j.height)
            + cb_tag_push_len j.coinbase_tag j.job_salt
            + j.extranonce1_size
            + j.extranonce2_size)
        + commitment_cost j.witness_commitment_hex
        + (if is_blank operator then 0 else out_ser_size 34)
unfolding window_fixed_bytes
small_fixed j operator h =
    let ss : ℕ =
      length (bip34_height_push j.height)
      + cb_tag_push_len j.coinbase_tag j.job_salt
      + j.extranonce1_size
      + j.extranonce2_size in
    let few : ltb ss 253 ≡ true = lt→ltb ss 253 (omega arith) in rw few (omega arith)

-- The transaction that a window's coinbase becomes, with any extranonces of the announced size,
-- is never longer than the byte limit, where this is below 2 ^ 32: what does not fit is not paid.
pub coinbase_build_window-fits :
    (realloc : ℕ → Bool) (fl : DoubleOps) (sha256 : List ℕ → List ℕ) (j : Job) (q : Request)
    (parts : Parts) (res : WindowResult) (en : List ℕ)
    → coinbase_build_window realloc fl sha256 j q ≡ some (parts, res)
    → length en ≡ j.extranonce1_size + j.extranonce2_size
    → byte_limit q < 2 ^ 32
    → length (parts.cb1 ++ (en ++ parts.cb2)) ≤ byte_limit q
coinbase_build_window-fits realloc fl sha256 j q parts res en e len small =
    let w = coinbase_build_window-IsWindow realloc fl sha256 j q parts res en e len in
    let s = w.split in
    let hp : List ℕ = bip34_height_push j.height in
    let tp : List ℕ = cb_tag_push j.coinbase_tag j.job_salt in
    let sig : List ℕ = hp ++ (tp ++ en) in
    let ops : List ReplOut = operator_list s.operator in
    let op_bytes = operator_bytes sha256 (with_fixed j q) s.operator s.operator_found in
    let wc_bytes = commitment_bytes j.witness_commitment_hex w.wc w.commits in
    let paid : 0 < length s.payouts = omega (arith, s.counted, s.somebody) in
    let room =
      payout_budget-room (with_fixed j q)
        (omega (arith, s.fits, sum_bytes-positive s.payouts paid)) in
    let few : length (w.outs ++ w.wc) < 253 =
      omega (arith, length-append w.outs w.wc, s.room, wc_bytes.1) in
    let sig_size : length sig
        ≡ length hp
          + cb_tag_push_len j.coinbase_tag j.job_salt
          + j.extranonce1_size
          + j.extranonce2_size =
      omega (
        arith,
        length-append hp (tp ++ en),
        length-append tp en,
        cb_tag_push_len_lem j.coinbase_tag j.job_salt,
        len,
      ) in
    let all_bytes : sum_bytes (w.outs ++ w.wc)
        ≡ sum_bytes s.payouts + sum_bytes ops + sum_bytes w.wc =
      sum_bytes-append w.outs w.wc
      ∙ ap (λ (n : ℕ). n + sum_bytes w.wc)
          (ap sum_bytes s.parts ∙ sum_bytes-append s.payouts ops) in
    let fixed = small_fixed j q.operator_address (omega (arith, sig_size, w.script_sig)) in
    let total : 51 + length sig + sum_bytes (w.outs ++ w.wc) ≤ byte_limit q =
      omega (arith, all_bytes, s.fits, op_bytes, wc_bytes.0, fixed, room, sig_size) in
    omega (
      arith,
      ap length w.whole,
      length-coinbase_tx 2 sig (w.outs ++ w.wc) (omega (arith, w.script_sig)) few,
      length-outs_bytes (w.outs ++ w.wc) (omega (arith, total, small)),
      total,
    )
