-- ===== src/Template/Splice.antt =====
-- What the builder over a template makes of a parsed coinbase.
use simplepool.Template.Slices.{spliced, slice-length, slice-inverted, replaced_pieces-spliced}
use simplepool.Prelude.{
  ℕ, ◌+◌, ◌-◌, ◌%◌, ◌^◌, ◌≤◌, ◌<◌, ◌≡◌, refl, sym, ap, ap₂, ◌∙◌, Bool, false, ◌||◌, Option, some,
  List, [], ◌∷◌, ◌++◌, arith, ltb, ◌==◌, length, length-append,
}
use simplepool.Prelude.Int.{ℤ, ltb_ℤ, ltb_ℤ→ge, eq_of_parts}
use simplepool.Bytes.{bbuf_init, u32_le, varint}
use simplepool.Window.{ReplOut, sum_sats}
use simplepool.Coinbase.{Parts, push_all}
use simplepool.ScriptSig.{cb_tag_push}
use simplepool.Coinbase.Serialize.{fields, fields-append, regroup, start_bytes}
use simplepool.Template.{Outcome, read}
use simplepool.Template.Parse.{Parsed}
use simplepool.Template.Build.{
  slice, spendable, as_i64, reward_of, Extra, template_fixed_bytes, replaced_pieces, emit_template,
  build_parsed,
}
use simplepool.Template.Chain.{on_ok-Chain, read-inverted, guard-inverted, ok_injective}
use simplepool.Template.Chain.Chain.{step}

reward_of-inverted :
    (vs : List ℕ) (reward : ℤ)
    → reward_of vs ≡ Outcome.ok reward
    → (v : ℕ) × (vs ≡ v ∷ []) × (as_i64 v ≡ reward)
unfolding reward_of
reward_of-inverted [] reward e = cc
reward_of-inverted (v ∷ []) reward e = (v, refl, ok_injective _ reward e)
reward_of-inverted (v ∷ w ∷ vs) reward e = cc

neither : (a b : ℤ) → ltb_ℤ a b || ltb_ℤ b a ≡ false → a ≡ b
neither a b h =
    let one : ltb_ℤ a b ≡ false = ground arith in
    let two : ltb_ℤ b a ≡ false = ground arith in
    eq_of_parts a b (omega (arith, ltb_ℤ→ge a b one, ltb_ℤ→ge b a two))

-- What comes before the extranonces, and after them.
abbrev front : ℕ → List ℕ → ℕ → List ℕ → List ℕ → List (List ℕ)
front version prevout n ss tag = u32_le version ∷ varint 1 ∷ prevout ∷ varint n ∷ ss ∷ tag ∷ []

abbrev back : ℕ → ℕ → List ℕ → ℕ → List (List ℕ)
back sequence count outs locktime = u32_le sequence ∷ varint count ∷ outs ∷ u32_le locktime ∷ []

abbrev frame : ℕ → List ℕ → ℕ → List ℕ → List ℕ
frame version prevout n s = u32_le version ++ (varint 1 ++ (prevout ++ (varint n ++ s)))

-- A coinbase that a template dictated, with another scriptSig and with other outputs.
unfoldable pub spliced_tx : Parsed → List ℕ → List ℕ → ℕ → List ℕ → List ℕ
spliced_tx t prevout sig count outs = fields (
    u32_le t.version
    ∷ varint 1
    ∷ prevout
    ∷ varint (length sig)
    ∷ sig
    ∷ u32_le t.sequence
    ∷ varint count
    ∷ outs
    ∷ u32_le t.locktime
    ∷ [])

pub record IsSpliced (x : Extra) (tx : List ℕ) (t : Parsed) (repl : List ReplOut) (parts : Parts)
    (en : List ℕ) : Type 0 where
  pub prevout : List ℕ
  pub ss : List ℕ
  pub from_prevout : slice tx t.prevout_off 36 ≡ Outcome.ok prevout
  pub from_ss : slice tx t.ss_off t.ss_len ≡ Outcome.ok ss
  pub whole :
      parts.cb1 ++ (en ++ parts.cb2)
      ≡ spliced_tx t prevout
          (ss ++ (cb_tag_push x.coinbase_tag x.job_salt ++ en))
          (length t.outs - 1 + length repl)
          (spliced tx repl t.outs)
  pub script_sig : length (ss ++ (cb_tag_push x.coinbase_tag x.job_salt ++ en)) ≤ 100

-- The two parts around the extranonces.
put_together :
    (x : Extra) (tx : List ℕ) (t : Parsed) (repl : List ReplOut) (parts : Parts)
    (en prevout ss : List ℕ)
    → let tag : List ℕ = cb_tag_push x.coinbase_tag x.job_salt in
      let n : ℕ = (t.ss_len + length tag + (x.extranonce1_size + x.extranonce2_size)) % 2 ^ 64 in
      slice tx t.prevout_off 36 ≡ Outcome.ok prevout
      → slice tx t.ss_off t.ss_len ≡ Outcome.ok ss
      → ltb n 2 || ltb 100 n ≡ false
      → length en ≡ x.extranonce1_size + x.extranonce2_size
      → length tx + length (cb_tag_push x.coinbase_tag x.job_salt) + length en < 2 ^ 64
      → parts.cb1 ≡ fields (front t.version prevout n ss tag)
      → parts.cb2
        ≡ fields
            (back t.sequence (length t.outs - 1 + length repl) (spliced tx repl t.outs) t.locktime)
      → IsSpliced x tx t repl parts en
unfolding spliced_tx
put_together x tx t repl parts en prevout ss e1 e2 bounds len sizes one two =
    let tag : List ℕ = cb_tag_push x.coinbase_tag x.job_salt in
    let n : ℕ = (t.ss_len + length tag + (x.extranonce1_size + x.extranonce2_size)) % 2 ^ 64 in
    let count : ℕ = length t.outs - 1 + length repl in
    let after : List (List ℕ) = back t.sequence count (spliced tx repl t.outs) t.locktime in
    let (inside, _) = slice-inverted tx t.ss_off t.ss_len ss e2 in
    let size : length (ss ++ (tag ++ en)) ≡ n = omega (
      arith,
      length-append ss (tag ++ en),
      length-append tag en,
      len,
      slice-length tx t.ss_off t.ss_len ss e2,
    ) in
    let short : n ≤ 100 = ground arith in
    record {
      prevout = prevout;
      ss = ss;
      from_prevout = e1;
      from_ss = e2;
      whole =
          ap₂ (λ a b. a ++ (en ++ b)) one two
          ∙ sym (fields-append (front t.version prevout n ss tag) (en ∷ after))
          ∙ ap₂ (frame t.version prevout) (sym size) (regroup ss tag en (fields after));
      script_sig = omega (arith, size, short);
    }

module _ (realloc : ℕ → Bool) where
  emit_template-IsSpliced :
      (x : Extra) (tx : List ℕ) (t : Parsed) (repl : List ReplOut) (parts : Parts) (en : List ℕ)
      → emit_template realloc x tx t repl ≡ Outcome.ok parts
      → length en ≡ x.extranonce1_size + x.extranonce2_size
      → length tx + length (cb_tag_push x.coinbase_tag x.job_salt) + length en < 2 ^ 64
      → IsSpliced x tx t repl parts en
  unfolding emit_template spliced_tx
  emit_template-IsSpliced x tx t repl parts en e len sizes =
      let tag : List ℕ = cb_tag_push x.coinbase_tag x.job_salt in
      let n : ℕ = (t.ss_len + length tag + (x.extranonce1_size + x.extranonce2_size)) % 2 ^ 64 in
      let count : ℕ = length t.outs - 1 + length repl in
      let (bounds, r0) = guard-inverted (ltb n 2 || ltb 100 n) _ parts e in
      elim (on_ok-Chain (slice tx t.prevout_off 36) _ parts r0) [
        | step prevout e1 r1 ↦ elim (on_ok-Chain (slice tx t.ss_off t.ss_len) _ parts r1) [
          | step ss e2 r2 ↦
              elim (on_ok-Chain
                (read (push_all realloc bbuf_init (front t.version prevout n ss tag))) _ parts r2) [
                  | step c1 e3 r3 ↦ elim (on_ok-Chain (replaced_pieces tx repl t.outs) _ parts r3) [
                    | step pieces e4 r4 ↦
                        elim (on_ok-Chain (read (push_all realloc bbuf_init pieces)) _ parts r4) [
                          | step ob e5 r5 ↦
                              elim (on_ok-Chain
                                (read (
                                  push_all realloc bbuf_init
                                    (back t.sequence count ob.bytes t.locktime)))
                                _ parts r5) [
                                  | step c2 e6 r6 ↦
                                      let one =
                                        sym (ap (λ (p : Parts). p.cb1) (ok_injective _ parts r6))
                                        ∙ start_bytes realloc c1 _ (read-inverted _ c1 e3) in
                                      let two =
                                        sym (ap (λ (p : Parts). p.cb2) (ok_injective _ parts r6))
                                        ∙ start_bytes realloc c2 _ (read-inverted _ c2 e6)
                                        ∙ ap (λ b. fields (back t.sequence count b t.locktime))
                                            (start_bytes realloc ob _ (read-inverted _ ob e5)
                                              ∙ replaced_pieces-spliced tx repl t.outs pieces e4) in
                                      put_together x tx t repl parts en prevout ss e1 e2 bounds len
                                        sizes one two
                                ]
                        ]
                  ]
                ]
        ]
      ]

  -- A template's coinbase, once parsed: if the builder accepts it, exactly one output was spendable
  -- and the resolver's outputs sum to its value to the satoshi. With any extranonces of the
  -- announced size between the parts, and sizes that fit a `size_t`, they are one whole
  -- transaction: the template's own, with the tag and the extranonces behind its scriptSig, which
  -- stays within 100 bytes, with the resolver's outputs in the place of the spendable one, and every
  -- OP_RETURN byte for byte where it was.
  pub build_parsed-IsSpliced :
      (repl_fn : ℤ → ℕ → Option (List ReplOut)) (x : Extra) (tx : List ℕ) (t : Parsed)
      (parts : Parts) (en : List ℕ)
      → build_parsed realloc repl_fn x tx t ≡ Outcome.ok parts
      → length en ≡ x.extranonce1_size + x.extranonce2_size
      → length tx + length (cb_tag_push x.coinbase_tag x.job_salt) + length en < 2 ^ 64
      → (v : ℕ) × (repl : List ReplOut) × (spendable t.outs ≡ v ∷ [])
        × (repl_fn (as_i64 v) (template_fixed_bytes x t) ≡ some repl)
        × (sum_sats repl ≡ as_i64 v)
        × IsSpliced x tx t repl parts en
  unfolding build_parsed
  build_parsed-IsSpliced repl_fn x tx t parts en e len sizes =
      elim (on_ok-Chain (reward_of (spendable t.outs)) _ parts e) [
        | step reward e1 r1 ↦
            let (v, only, value) = reward_of-inverted (spendable t.outs) reward e1 in
            elim (on_ok-Chain (read (repl_fn reward (template_fixed_bytes x t))) _ parts r1) [
              | step repl e2 r2 ↦
                  let (some_out, r3) = guard-inverted (length repl == 0) _ parts r2 in
                  let (whole, r4) =
                    guard-inverted (ltb_ℤ (sum_sats repl) reward || ltb_ℤ reward (sum_sats repl)) _
                      parts r3 in
                  (
                    v,
                    repl,
                    only,
                    ap (λ r. repl_fn r (template_fixed_bytes x t)) value ∙ read-inverted _ repl e2,
                    neither (sum_sats repl) reward whole ∙ sym value,
                    emit_template-IsSpliced x tx t repl parts en r4 len sizes,
                  )
            ]
      ]
