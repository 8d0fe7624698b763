-- ===== src/Coinbase/Window.antt =====
-- The coinbase of a PPLNS window, whole, and its size against the byte budget.
use simplepool.Prelude.{
  ℕ, ◌+◌, ◌≤◌, ◌≡◌, ap, ◌∙◌, inl, inr, Bool, some, List, ◌++◌, arith, length, ◌==◌, if◌then◌else◌,
  Option-cases,
}
use simplepool.Double.{DoubleOps}
use simplepool.Window.{ReplOut, WindowResult, max_repl_outs, default_max_bytes}
use simplepool.Window.Resolve.{Request, resolve_window_outputs}
use simplepool.Window.Whole.{IsSplit, resolve-IsSplit}
use simplepool.Coinbase.{
  Job, Parts, commitment, with_script_sig, window_fixed_bytes, coinbase_build_window,
}
use simplepool.ScriptSig.{cb_tag_push, bip34_height_push}
use simplepool.Coinbase.Serialize.{coinbase_tx, with_script_sig-tx}

-- The limit on the whole transaction.
abbrev pub byte_limit : Request → ℕ
byte_limit q = if q.max_coinbase_bytes == 0 then default_max_bytes else q.max_coinbase_bytes

-- The request as the builder hands it on.
abbrev pub with_fixed : Job → Request → Request
with_fixed j q = record q { fixed_bytes = window_fixed_bytes j q.operator_address }

pub record IsWindow (fl : DoubleOps) (sha256 : List ℕ → List ℕ) (j : Job) (q : Request)
    (parts : Parts) (res : WindowResult) (en : List ℕ) : Type 0 where
  pub outs : List ReplOut
  pub wc : List ReplOut
  pub resolved : resolve_window_outputs fl sha256 (with_fixed j q) max_repl_outs ≡ some (outs, res)
  pub split : IsSplit sha256 (with_fixed j q) max_repl_outs outs res
  pub commits : commitment j.witness_commitment_hex ≡ some wc
  pub whole :
      parts.cb1 ++ (en ++ parts.cb2)
      ≡ coinbase_tx 2
          (bip34_height_push j.height ++ (cb_tag_push j.coinbase_tag j.job_salt ++ en))
          (outs ++ wc)
  pub script_sig :
      length (bip34_height_push j.height ++ (cb_tag_push j.coinbase_tag j.job_salt ++ en)) ≤ 100

-- A window's coinbase, with any extranonces of the announced size between its parts, is one whole
-- transaction, whose scriptSig stays within 100 bytes and whose outputs are the resolver's, in its
-- order, followed by the commitment as it was decoded. The resolver's outputs are a split of the
-- block's value.
pub coinbase_build_window-IsWindow :
    (realloc : ℕ → Bool) (fl : DoubleOps) (sha256 : List ℕ → List ℕ) (j : Job) (q : Request)
    (parts : Parts) (res : WindowResult) (en : List ℕ)
    → coinbase_build_window realloc fl sha256 j q ≡ some (parts, res)
    → length en ≡ j.extranonce1_size + j.extranonce2_size
    → IsWindow fl sha256 j q parts res en
unfolding coinbase_build_window
coinbase_build_window-IsWindow realloc fl sha256 j q parts res en e len =
    elim (Option-cases (resolve_window_outputs fl sha256 (with_fixed j q) max_repl_outs)) [
      | inl f ↦ absurd (ground arith)
      | inr ((outs, res'), f) ↦ elim (Option-cases (commitment j.witness_commitment_hex)) [
        | inl g ↦ absurd (ground arith)
        | inr (wc, g) ↦
            elim (Option-cases (
              with_script_sig realloc 2 j.height j.coinbase_tag j.job_salt
                (j.extranonce1_size + j.extranonce2_size) (outs ++ wc))) [
                  | inl h ↦ absurd (ground arith)
                  | inr (parts', h) ↦
                      let same_parts : parts' ≡ parts = ground arith in
                      let same_res : res' ≡ res = ground arith in
                      let (whole, low, high) =
                        with_script_sig-tx realloc _ _ _ _ _ _ parts en (h ∙ ap some same_parts)
                          len in
                      record {
                        outs = outs;
                        wc = wc;
                        resolved = f ∙ ap (λ (r : WindowResult). some (outs, r)) same_res;
                        split =
                            resolve-IsSplit fl sha256 (with_fixed j q) max_repl_outs outs res
                              (f ∙ ap (λ (r : WindowResult). some (outs, r)) same_res);
                        commits = g;
                        whole = whole;
                        script_sig = high;
                      }
                ]
      ]
    ]
