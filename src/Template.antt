-- ===== src/Template.antt =====
-- The coinbase that a node's template dictates, in src/coinbase.c: its parser, the builder that
-- replaces the reward output and appends to the scriptSig, and the output counter.
pub mod Parse
pub mod Build
pub mod Count
pub mod Chain
pub mod Agreement
pub mod Slices
pub mod Splice
mod Tests
use simplepool.Prelude.{ℕ, Bool, Option, none, some}

-- What a run of the C code comes to: refused with -1, a read outside the transaction's bytes,
-- which C leaves undefined, or a result.
pub data Outcome {ℓ} (A : Type ℓ) : Type ℓ where
  refused : Outcome A
  fault : Outcome A
  ok : A → Outcome A

unfoldable pub on_ok {ℓ κ} : {A : Type ℓ} {B : Type κ} → Outcome A → (A → Outcome B) → Outcome B
on_ok Outcome.refused k = Outcome.refused
on_ok Outcome.fault k = Outcome.fault
on_ok (Outcome.ok a) k = k a

unfoldable pub read {ℓ} : {A : Type ℓ} → Option A → Outcome A
read none = Outcome.refused
read (some a) = Outcome.ok a
