-- ===== src/Ledger/History.antt =====
-- Any sequence of method calls on one ledger, whatever each returns or raises.
pub mod Terminal
pub mod Audit
pub mod Nonces
use steam_cli.Prelude.{ℕ, suc, ◌≤◌, Bool, true, false, String, List, [], ◌∷◌, ◌≡◌, refl}
use steam_cli.Exec.{Exec, ◌>>=◌, pure}
use steam_cli.Exec.Keeps.{Keeps}
use steam_cli.Ledger.Table.{Ledger}
use steam_cli.Ledger.Intake.{Request, request, confirm, expire_lapsed}
use steam_cli.Ledger.Transition.{Move, transition}
use steam_cli.Ledger.Stable.{Stable}
use steam_cli.Ledger.Stable.Methods.{
  request-Keeps, confirm-Keeps, transition-Keeps, expire_lapsed-Keeps,
}
use steam_cli.Ledger.Invariant.{IsValid, IsValid-Stable}

-- A method that writes, with its arguments.
pub data Call : Type 0 where
  request_call : Request → String → Call
  confirm_call : String → String → ℕ → Call
  transition_call : ℕ → Move → Call
  expire_call : Call

-- A ledger as `__init__` creates it.
abbrev pub empty_ledger : Ledger
empty_ledger = record { user_version = 0; rows = []; events = []; reads = 0 }

abbrev pub Mints : (String → Type 0) → List Call → Type 0
Mints Mint [] = Unit
Mints Mint (request_call q nonce ∷ calls) = Mint nonce × Mints Mint calls
Mints Mint (confirm_call _ _ _ ∷ calls) = Mints Mint calls
Mints Mint (transition_call _ _ ∷ calls) = Mints Mint calls
Mints Mint (expire_call ∷ calls) = Mints Mint calls

module _ (clock : ℕ → ℕ) where
  unfoldable pub after_call : Call → Ledger → Ledger
  after_call (request_call q nonce) s = (request clock q nonce s).1
  after_call (confirm_call nonce actor seconds) s = (confirm clock nonce actor seconds s).1
  after_call (transition_call id m) s = (transition clock id m s).1
  after_call expire_call s = (expire_lapsed clock s).1

  unfoldable pub history : List Call → Ledger → Ledger
  unfolding after_call
  history [] s = s
  history (call ∷ calls) s = history calls (after_call call s)

  pub after_call-Stable :
      {P : Ledger → Type 0} (st : Stable (λ _. Unit) P) (call : Call) (s : Ledger)
      → P s
      → P (after_call call s)
  unfolding after_call
  after_call-Stable st (request_call q nonce) s h = (request-Keeps st clock q nonce tt).at s h
  after_call-Stable st (confirm_call nonce actor seconds) s h =
      (confirm-Keeps st clock nonce actor seconds).at s h
  after_call-Stable st (transition_call id mv) s h = (transition-Keeps st clock id mv).at s h
  after_call-Stable st expire_call s h = (expire_lapsed-Keeps st clock).at s h

  pub history-Stable :
      {Mint : String → Type 0} {P : Ledger → Type 0} (st : Stable Mint P) (calls : List Call)
      (s : Ledger)
      → Mints Mint calls
      → P s
      → P (history calls s)
  unfolding history
  history-Stable st [] s m h = h
  history-Stable st (request_call q nonce ∷ calls) s m h =
      history-Stable st calls _ m.1 ((request-Keeps st clock q nonce m.0).at s h)
  history-Stable st (confirm_call nonce actor seconds ∷ calls) s m h =
      history-Stable st calls _ m ((confirm-Keeps st clock nonce actor seconds).at s h)
  history-Stable st (transition_call id mv ∷ calls) s m h =
      history-Stable st calls _ m ((transition-Keeps st clock id mv).at s h)
  history-Stable st (expire_call ∷ calls) s m h =
      history-Stable st calls _ m ((expire_lapsed-Keeps st clock).at s h)

  any_nonce : (calls : List Call) → Mints (λ _. Unit) calls
  any_nonce [] = tt
  any_nonce (request_call q nonce ∷ calls) = (tt, any_nonce calls)
  any_nonce (confirm_call _ _ _ ∷ calls) = any_nonce calls
  any_nonce (transition_call _ _ ∷ calls) = any_nonce calls
  any_nonce (expire_call ∷ calls) = any_nonce calls

  -- From valid tables, any calls in any order leave valid tables, whether they return or raise: no
  -- two rows have one key, no machine has two operations in states that are not terminal, no plan
  -- key has two rows that are not expired, and every row is one that this version reads.
  pub history-IsValid : (calls : List Call) (s : Ledger) → IsValid s → IsValid (history calls s)
  history-IsValid calls s v = history-Stable IsValid-Stable calls s (any_nonce calls) v
