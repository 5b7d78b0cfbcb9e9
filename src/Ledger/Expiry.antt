-- ===== src/Ledger/Expiry.antt =====
-- `expire_lapsed` of execution/ledger.py always returns on a valid ledger.
use steam_cli.Prelude.{ℕ, suc, Bool, List, [], ◌∷◌, none, some, ◌≡◌, refl, ap, sym, ◌∙◌}
use steam_cli.Exec.{Error, Result, ok, err, Exec, ◌>>=◌}
use steam_cli.Exec.Triple.{Triple, Triple-pure, Triple-bind}
use steam_cli.Ledger.State.{State, expired}
use steam_cli.Ledger.Table.{Row, Ledger, close_transaction, update_returning, utcnow, add_event}
use steam_cli.Ledger.Intake.{record_expired, expire_rows, expire_lapsed}
use steam_cli.Ledger.Invariant.{IsValid}
use steam_cli.Ledger.Outcomes.{transaction-eq, ticked}

-- An action that raises nothing.
abbrev Returns : {A : Type 0} → Exec Ledger A → Type 0
Returns m = Triple (λ _. Unit {0}) m (λ _ _. Unit {0}) (λ _ _. ⊥)

module _ (clock : ℕ → ℕ) where
  add_event-Returns :
      (from : State) (id : ℕ) → Returns (add_event clock id (some from) expired none)
  unfolding add_event ◌>>=◌
  add_event-Returns from id = record { returns = λ s u a h. tt; raises = λ s u e h. cc }

  record_expired-Returns : (from : State) (ids : List ℕ) → Returns (record_expired clock from ids)
  unfolding record_expired
  record_expired-Returns from [] = Triple-pure _ (λ s u. tt)
  record_expired-Returns from (id ∷ ids) =
      Triple-bind {R = λ _ _. Unit} _ _ (add_event-Returns from id)
        λ u. record_expired-Returns from ids

  update_returning-Returns :
      (test : Row → Bool) (change : Row → Row) → Returns (update_returning test change)
  unfolding update_returning
  update_returning-Returns test change = record { returns = λ s u a h. tt; raises = λ s u e h. cc }

  expire_rows-Returns : (now : ℕ) → Returns (expire_rows clock now)
  unfolding expire_rows update_returning
  expire_rows-Returns now =
      Triple-bind {R = λ _ _. Unit} _ _ (update_returning-Returns _ _) λ unconfirmed.
        Triple-bind {R = λ _ _. Unit} _ _ (update_returning-Returns _ _) λ lapsed.
          Triple-bind {R = λ _ _. Unit} _ _ (record_expired-Returns _ unconfirmed) λ _.
            Triple-bind {R = λ _ _. Unit} _ _ (record_expired-Returns _ lapsed)
              λ _. Triple-pure _ (λ s u. tt)

  -- On a valid ledger it raises nothing.
  pub expire_lapsed-returns : Triple IsValid (expire_lapsed clock) (λ _ _. Unit {0}) (λ _ _. ⊥)
  unfolding expire_lapsed utcnow close_transaction ◌>>=◌
  expire_lapsed-returns = record {
    returns = λ s v a h. tt;
    raises = λ s v e h.
        let t = record s { reads = suc s.reads } in
        closed t (expire_rows clock (clock s.reads) t)
          ((expire_rows-Returns (clock s.reads)).raises t tt) e
          (sym (ap (λ r. r.0) (transaction-eq (expire_rows clock (clock s.reads)) t (ticked s v)))
            ∙ h);
  }
    where
      closed :
          (t : Ledger) (r : Result (List ℕ) × Ledger)
          → ((e : Error) → r.0 ≡ err e → ⊥)
          → (e : Error) → (close_transaction t r).0 ≡ err e
          → ⊥
      closed t (ok a, u) f e h = cc
      closed t (err x, u) f e h = f x refl
