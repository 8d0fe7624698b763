-- ===== src/Coinbase/Serialize.antt =====
-- The parts that the builders of src/coinbase.c emit, against the serialization of a coinbase
-- transaction without its witness.
use simplepool.Prelude.{
  ℕ, ◌+◌, ◌≤◌, ◌≡◌, refl, sym, ap, ap₂, ◌∙◌, inl, inr, Bool, Option, some, List, [], ◌∷◌, ◌++◌,
  arith, length, length-append, replicate, append_assoc, append-nil, Option-cases,
}
use simplepool.Bytes.{Bbuf, bbuf_init, bbuf_push, u32_le, u64_le, varint}
use simplepool.Bytes.Buffer.{bbuf_push_bytes}
use simplepool.Window.{ReplOut}
use simplepool.Coinbase.{as_u64, out_pieces, Parts, push_all, emit_parts, with_script_sig}
use simplepool.ScriptSig.{bip34_height_push, cb_tag_push}

-- A serialization is its fields, one after the other.
abbrev pub fields : List (List ℕ) → List ℕ
fields [] = []
fields (p ∷ ps) = p ++ fields ps

-- Value, script length and script of each output.
unfoldable pub outs_bytes : List ReplOut → List ℕ
outs_bytes [] = []
outs_bytes (o ∷ os) =
    fields (u64_le (as_u64 o.sats) ∷ varint (length o.spk) ∷ o.spk ∷ outs_bytes os ∷ [])

-- A transaction with one input, which spends nothing.
unfoldable pub coinbase_tx : ℕ → List ℕ → List ReplOut → List ℕ
coinbase_tx version script_sig outs = fields (
    u32_le version
    ∷ varint 1
    ∷ replicate 32 0
    ∷ u32_le 0xffffffff
    ∷ varint (length script_sig)
    ∷ script_sig
    ∷ u32_le 0xffffffff
    ∷ varint (length outs)
    ∷ outs_bytes outs
    ∷ u32_le 0
    ∷ [])

abbrev pub total_length : List (List ℕ) → ℕ
total_length [] = 0
total_length (p ∷ ps) = length p + total_length ps

pub length-fields : (ps : List (List ℕ)) → length (fields ps) ≡ total_length ps
length-fields [] = refl
length-fields (p ∷ ps) = length-append p (fields ps) ∙ ap (λ n. length p + n) (length-fields ps)

pub fields-out_pieces : (outs : List ReplOut) → fields (out_pieces outs) ≡ outs_bytes outs
unfolding out_pieces outs_bytes
fields-out_pieces [] = refl
fields-out_pieces (o ∷ os) =
    ap (λ s. u64_le (as_u64 o.sats) ++ (varint (length o.spk) ++ (o.spk ++ s)))
      (fields-out_pieces os ∙ sym (append-nil (outs_bytes os)))

pub fields-append : (xs ys : List (List ℕ)) → fields (xs ++ ys) ≡ fields xs ++ fields ys
fields-append [] ys = refl
fields-append (x ∷ xs) ys =
    ap (◌++◌ x) (fields-append xs ys) ∙ sym (append_assoc x (fields xs) (fields ys))

-- What comes before the extranonces, and after them.
abbrev first : ℕ → ℕ → List ℕ → List ℕ → List (List ℕ)
first version n height tag =
    u32_le version ∷ varint 1 ∷ replicate 32 0 ∷ u32_le 0xffffffff ∷ varint n ∷ height ∷ tag ∷ []

abbrev second : List ReplOut → List ℕ → List (List ℕ)
second outs ob = u32_le 0xffffffff ∷ varint (length outs) ∷ ob ∷ u32_le 0 ∷ []

abbrev frame : ℕ → ℕ → List ℕ → List ℕ
frame version n s =
    u32_le version ++ (varint 1 ++ (replicate 32 0 ++ (u32_le 0xffffffff ++ (varint n ++ s))))

pub regroup : (a b c d : List ℕ) → a ++ (b ++ (c ++ d)) ≡ (a ++ (b ++ c)) ++ d
regroup a b c d = ap (◌++◌ a) (sym (append_assoc b c d)) ∙ sym (append_assoc a (b ++ c) d)

module _ (realloc : ℕ → Bool) where
  push_all_bytes :
      (b b' : Bbuf) (ps : List (List ℕ))
      → push_all realloc b ps ≡ some b'
      → b'.bytes ≡ b.bytes ++ fields ps
  unfolding push_all
  push_all_bytes b b' [] e = ground (arith, append-nil b.bytes)
  push_all_bytes b b' (p ∷ ps) e = elim (Option-cases (bbuf_push realloc b p)) [
    | inl f ↦ absurd (ground arith)
    | inr (b1, f) ↦
        push_all_bytes b1 b' ps (ground arith)
        ∙ ap (λ s. s ++ fields ps) (bbuf_push_bytes realloc b b1 p f)
        ∙ append_assoc b.bytes p (fields ps)
  ]

  pub start_bytes :
      (b' : Bbuf) (ps : List (List ℕ))
      → push_all realloc bbuf_init ps ≡ some b'
      → b'.bytes ≡ fields ps
  unfolding bbuf_init
  start_bytes b' ps e = push_all_bytes bbuf_init b' ps e

  -- The bytes of the two parts.
  emit_parts-bytes :
      (version n : ℕ) (height tag : List ℕ) (outs : List ReplOut) (parts : Parts)
      → emit_parts realloc version n height tag outs ≡ some parts
      → (parts.cb1 ≡ fields (first version n height tag))
        × (parts.cb2 ≡ fields (second outs (outs_bytes outs)))
  unfolding emit_parts
  emit_parts-bytes version n height tag outs parts e =
      elim (Option-cases (push_all realloc bbuf_init (out_pieces outs))) [
        | inl f ↦ absurd (ground arith)
        | inr (ob, f) ↦
            elim (Option-cases (push_all realloc bbuf_init (first version n height tag))) [
              | inl g ↦ absurd (ground arith)
              | inr (c1, g) ↦
                  elim (Option-cases (push_all realloc bbuf_init (second outs ob.bytes))) [
                    | inl h ↦ absurd (ground arith)
                    | inr (c2, h) ↦
                        let one : parts.cb1 ≡ c1.bytes = ground arith in
                        let two : parts.cb2 ≡ c2.bytes = ground arith in
                        (
                          one ∙ start_bytes c1 _ g,
                          two
                              ∙ start_bytes c2 _ h
                              ∙ ap (λ b. fields (second outs b))
                                  (start_bytes ob _ f ∙ fields-out_pieces outs),
                        )
                  ]
            ]
      ]

  -- A builder that has got as far as its parts: with any extranonces of the announced size between
  -- them, they are the whole transaction, and its scriptSig is within the consensus bounds.
  pub with_script_sig-tx :
      (version height : ℕ) (tag : Option (List ℕ)) (salt en_total : ℕ) (outs : List ReplOut)
      (parts : Parts) (en : List ℕ)
      → with_script_sig realloc version height tag salt en_total outs ≡ some parts
      → length en ≡ en_total
      → let sig : List ℕ = bip34_height_push height ++ (cb_tag_push tag salt ++ en) in
        (parts.cb1 ++ (en ++ parts.cb2) ≡ coinbase_tx version sig outs)
        × (2 ≤ length sig)
        × (length sig ≤ 100)
  unfolding with_script_sig coinbase_tx
  with_script_sig-tx version height tag salt en_total outs parts en e len =
      let hp : List ℕ = bip34_height_push height in
      let tp : List ℕ = cb_tag_push tag salt in
      let size : length (hp ++ (tp ++ en)) ≡ length hp + length tp + en_total =
        omega (arith, length-append hp (tp ++ en), length-append tp en, len) in
      let built : emit_parts realloc version (length hp + length tp + en_total) hp tp outs
          ≡ some parts =
        ground arith in
      let (one, two) = emit_parts-bytes version _ hp tp outs parts built in
      let rest : List ℕ = fields (second outs (outs_bytes outs)) in
      let total : ℕ = length hp + length tp + en_total in
      let inside : (2 ≤ total) × (total ≤ 100) = ground arith in
      (
        ap₂ (λ a b. a ++ (en ++ b)) one two
            ∙ sym (fields-append (first version total hp tp) (en ∷ second outs (outs_bytes outs)))
            ∙ ap₂ (frame version) (sym size) (regroup hp tp en rest),
        omega (arith, inside.0, size),
        omega (arith, inside.1, size),
      )
