-- ===== src/Template/Slices.antt =====
-- The outputs of a template of src/coinbase.c, byte for byte, around the replaced reward.
use simplepool.Prelude.{
  ℕ, ◌+◌, ◌≤◌, ◌≡◌, sym, ap, ap₂, ◌∙◌, inl, inr, Bool, true, false, List, [], ◌∷◌, ◌++◌, arith, leb,
  if◌then◌else◌, length, length-take, length-drop, append-nil, take, drop, Bool-cases, leb→le,
}
use simplepool.Bytes.{u64_le, varint}
use simplepool.Window.{ReplOut}
use simplepool.Coinbase.{out_pieces}
use simplepool.Coinbase.Serialize.{fields, outs_bytes, fields-append, fields-out_pieces}
use simplepool.Template.{Outcome}
use simplepool.Template.Parse.{TxOut}
use simplepool.Template.Build.{slice, replaced_pieces}
use simplepool.Template.Chain.{on_ok-Chain, ok_injective}
use simplepool.Template.Chain.Chain.{step}

-- The outputs of the new coinbase: each OP_RETURN as it stands in the old one, and in the place of
-- the reward its replacement.
unfoldable pub spliced : List ℕ → List ReplOut → List TxOut → List ℕ
spliced tx repl [] = []
spliced tx repl (o ∷ os) =
    if o.op_return
    then fields (
        u64_le o.value
        ∷ varint o.spk_len
        ∷ take o.spk_len (drop o.spk_off tx)
        ∷ spliced tx repl os
        ∷ [])
    else outs_bytes repl ++ spliced tx repl os

pub then_branch {ℓ} :
    {A : Type ℓ} (b : Bool) (x y z : A) → b ≡ true → (if b then x else y) ≡ z → x ≡ z
then_branch true x y z h e = e
then_branch false x y z h e = cc

pub else_branch {ℓ} :
    {A : Type ℓ} (b : Bool) (x y z : A) → b ≡ false → (if b then x else y) ≡ z → y ≡ z
else_branch true x y z h e = cc
else_branch false x y z h e = e

pub slice-inverted :
    (tx : List ℕ) (off n : ℕ) (s : List ℕ)
    → slice tx off n ≡ Outcome.ok s
    → (off + n ≤ length tx) × (take n (drop off tx) ≡ s)
unfolding slice
slice-inverted tx off n s e = elim (Bool-cases (leb (off + n) (length tx))) [
  | inl h ↦ (leb→le _ _ h, ground arith)
  | inr h ↦ absurd (ground arith)
]

pub slice-length :
    (tx : List ℕ) (off n : ℕ) (s : List ℕ) → slice tx off n ≡ Outcome.ok s → length s ≡ n
slice-length tx off n s e =
    let (inside, same) = slice-inverted tx off n s e in
    sym (ap length same) ∙ length-take n (drop off tx) ∙ omega (arith, length-drop off tx, inside)

pub replaced_pieces-spliced :
    (tx : List ℕ) (repl : List ReplOut) (outs : List TxOut) (pieces : List (List ℕ))
    → replaced_pieces tx repl outs ≡ Outcome.ok pieces
    → fields pieces ≡ spliced tx repl outs
unfolding replaced_pieces spliced
replaced_pieces-spliced tx repl [] pieces e = ap fields (sym (ok_injective [] pieces e))
replaced_pieces-spliced tx repl (o ∷ os) pieces e =
    elim (on_ok-Chain (replaced_pieces tx repl os) _ pieces e) [
      | step rest e1 r1 ↦
          let ih = replaced_pieces-spliced tx repl os rest e1 in
          elim (Bool-cases o.op_return) [
            | inl kept ↦
                elim (on_ok-Chain (slice tx o.spk_off o.spk_len) _ pieces
                  (then_branch o.op_return _ _ (Outcome.ok pieces) kept r1)) [
                    | step spk e2 r2 ↦
                        let script = (slice-inverted tx o.spk_off o.spk_len spk e2).1 in
                        rw kept (
                          ap fields (sym (ok_injective _ pieces r2))
                          ∙ ap₂ (λ a b. u64_le o.value ++ (varint o.spk_len ++ (a ++ b)))
                              (sym script) (ih ∙ sym (append-nil (spliced tx repl os))))
                  ]
            | inr reward ↦ rw reward (
                ap fields (
                  sym (
                    ok_injective _ pieces
                      (else_branch o.op_return _ _ (Outcome.ok pieces) reward r1)))
                ∙ fields-append (out_pieces repl) rest
                ∙ ap₂ ◌++◌ (fields-out_pieces repl) ih)
          ]
    ]
