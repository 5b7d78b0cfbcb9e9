-- ===== src/Exec.antt =====
-- Methods that change an object and may raise: the state comes back beside the exception too.
pub mod Keeps
pub mod Gives
pub mod Triple
pub mod Fallible
use steam_cli.Prelude.{Bool, true, false}

-- The exception classes that the broker raises or catches. `interrupt` is whatever `except
-- Exception` lets through: the process ends there, and only durable state is left.
pub data Error : Type 0 where
  ledger_error unsupported_ledger invalid_transition confirmation_rejected : Error
  integrity_error policy_error os_error adoption_error target_escaped exception interrupt : Error

pub data Result {ℓ} (A : Type ℓ) : Type ℓ where
  ok : A → Result A
  err : Error → Result A

abbrev pub Exec {ℓ} : Type ℓ → Type ℓ → Type ℓ
Exec S A = S → Result A × S

module _ {ℓ} {S A : Type ℓ} where
  unfoldable pub pure : A → Exec S A
  pure a s = (ok a, s)

  unfoldable pub raise : Error → Exec S A
  raise e s = (err e, s)

  unfoldable pub gets : (S → A) → Exec S A
  gets f s = (ok (f s), s)

module _ {S : Type 0} where
  unfoldable pub modify : (S → S) → Exec S Unit
  modify f s = (ok tt, f s)

  -- `if c: raise e`
  unfoldable pub raise_if : Bool → Error → Exec S Unit
  unfolding pure raise
  raise_if true e = raise e
  raise_if false e = pure tt

module _ {ℓ} {S A B : Type ℓ} where
  abbrev pub continue : Result A → (A → Exec S B) → Exec S B
  continue (ok a) rest s = rest a s
  continue (err e) rest s = (err e, s)

  infixl 5 ◌>>=◌ ◌>>◌
  -- Opening this opens the actions above too.
  unfoldable pub ◌>>=◌ : Exec S A → (A → Exec S B) → Exec S B
  unfolding pure raise gets modify raise_if
  ◌>>=◌ m rest s = let (r, after) = m s in continue r rest after

  abbrev pub ◌>>◌ : Exec S A → Exec S B → Exec S B
  m >> n = m >>= λ _. n

module _ {S : Type 0} where
  -- `try: m except e: handler`, the exceptions chosen by a test.
  abbrev pub handle {ℓ} : {A : Type ℓ} → Result A × S → (Error → Result A) → Result A × S
  handle (ok a, s) h = (ok a, s)
  handle (err e, s) h = (h e, s)
