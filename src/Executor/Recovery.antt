-- ===== src/Executor/Recovery.antt =====
-- Terminal rows are invisible to recovery, so `_finish_failure` of execution/executor.py puts the
-- client back before it ends the row.
use steam_cli.Prelude.{ℕ, Bool, true, false, Option, ◌≡◌, refl, ◌⊎◌, inl, inr, Bool-cases}
use steam_cli.Exec.{Result, ok, err, continue, ◌>>=◌}
use steam_cli.Ledger.Transition.{transition}
use steam_cli.Executor.World.{World, Machine, ask, on_ledger, catch, resume, is_exception}
use steam_cli.Executor.Restore.{Failure, was_running, restore_client, finish_failure, report, to}

-- No content process is left, and a client that was running has been started again.
pub record IsRestored {S : Type 0} (w : World S) (prior : Option Bool) (s : S) : Type 0 where
  pub no_writer : (w.steamcmd_running s).0 ≡ ok false
  pub started : was_running prior ≡ true → (w.start_client (w.steamcmd_running s).1).0 ≡ ok true

module _ {S : Type 0} (w : World S) (clock : ℕ → ℕ) where
  -- A restoration writes no row, and reports success only if the client is back.
  restore_client-IsRestored :
      (prior : Option Bool) (x : Machine S)
      → ((restore_client w clock prior x).1.ledger ≡ x.ledger)
        × ((restore_client w clock prior x).0 ≡ ok true → IsRestored w prior x.session)
  unfolding restore_client catch resume ask ◌>>=◌
  restore_client-IsRestored prior x =
      go (w.steamcmd_running x.session).0 refl (was_running prior) refl
    where
      go :
          (r : Result Bool)
          → (w.steamcmd_running x.session).0 ≡ r
          → (was : Bool) → was_running prior ≡ was
          → ((restore_client w clock prior x).1.ledger ≡ x.ledger)
            × ((restore_client w clock prior x).0 ≡ ok true → IsRestored w prior x.session)
      go (ok true) e was p = rw e (refl, λ h. cc)
      go (ok false) e true p = rw e (rw p (refl, λ h. record { no_writer = e; started = λ t. h }))
      go (ok false) e false p = rw e (rw p (refl, λ h. record { no_writer = e; started = λ t. cc }))
      go (err y) e was p = rw e (elim (Bool-cases (is_exception y)) [
        | inl c ↦ rw (resume, c) (refl, λ h. cc)
        | inr c ↦ rw (resume, c) (refl, λ h. cc)
      ])

  same_ledger :
      (id : ℕ) (f : Failure) (r : Result (Unit {0})) (x : Machine S)
      → (continue r (λ _. report {S = S} id f.outcome f.message) x).1.ledger ≡ x.ledger
  unfolding ◌>>=◌
  same_ledger id f (ok u) x = refl
  same_ledger id f (err e) x = refl

  -- A failure writes the terminal state only after the client was restored: either the ledger is as
  -- it was, or no content process is left, a client that was running was started again, and the
  -- ledger is the one that the transition to the terminal state leaves.
  pub finish_failure-IsRestored :
      (id : ℕ) (prior : Option Bool) (f : Failure) (x : Machine S)
      → ((finish_failure w clock id prior f x).1.ledger ≡ x.ledger)
        ⊎ (IsRestored w prior x.session
            × ((finish_failure w clock id prior f x).1.ledger
                ≡ (transition clock id (to f.to_state f.detail) x.ledger).1))
  unfolding finish_failure on_ledger ◌>>=◌
  finish_failure-IsRestored id prior f x = go (restore_client w clock prior x).0 refl
    where
      back :
          ((restore_client w clock prior x).1.ledger ≡ x.ledger)
          × ((restore_client w clock prior x).0 ≡ ok true → IsRestored w prior x.session)
      back = restore_client-IsRestored prior x

      go :
          (r : Result Bool)
          → (restore_client w clock prior x).0 ≡ r
          → ((finish_failure w clock id prior f x).1.ledger ≡ x.ledger)
            ⊎ (IsRestored w prior x.session
                × ((finish_failure w clock id prior f x).1.ledger
                    ≡ (transition clock id (to f.to_state f.detail) x.ledger).1))
      go (ok true) e = inr (back.1 e, rw e (rw back.0 (same_ledger id f _ _)))
      go (ok false) e = inl (rw e back.0)
      go (err y) e = inl (rw e back.0)
