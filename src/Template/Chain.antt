-- ===== src/Template/Chain.antt =====
-- Taking apart a run over a template of src/coinbase.c that came to a result.
use simplepool.Prelude.{◌≡◌, refl, Bool, true, false, Option, none, some, if◌then◌else◌}
use simplepool.Template.{Outcome, on_ok, read}

-- A chain that comes to a result has one at each step.
pub data Chain {ℓ κ} {A : Type ℓ} {B : Type κ} (o : Outcome A) (k : A → Outcome B) (b : B)
    : Type (ℓ ⊔ κ) where
  step : (a : A) → o ≡ Outcome.ok a → k a ≡ Outcome.ok b → Chain o k b

pub on_ok-Chain {ℓ κ} :
    {A : Type ℓ} {B : Type κ} (o : Outcome A) (k : A → Outcome B) (b : B)
    → on_ok o k ≡ Outcome.ok b
    → Chain o k b
unfolding on_ok
on_ok-Chain Outcome.refused k b e = cc
on_ok-Chain Outcome.fault k b e = cc
on_ok-Chain (Outcome.ok a) k b e = Chain.step a refl e

pub read-inverted {ℓ} : {A : Type ℓ} (o : Option A) (a : A) → read o ≡ Outcome.ok a → o ≡ some a
unfolding read
read-inverted none a e = cc
read-inverted (some x) a e = cc

-- Behind a check.
pub guard-inverted {ℓ} :
    {A : Type ℓ} (b : Bool) (o : Outcome A) (a : A)
    → (if b then Outcome.refused else o) ≡ Outcome.ok a
    → (b ≡ false) × (o ≡ Outcome.ok a)
guard-inverted true o a e = cc
guard-inverted false o a e = (refl, e)

pub ok_injective {ℓ} : {A : Type ℓ} (a b : A) → Outcome.ok a ≡ Outcome.ok b → a ≡ b
ok_injective a b e = cc
