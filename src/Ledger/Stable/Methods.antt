-- ===== src/Ledger/Stable/Methods.antt =====
-- The methods of execution/ledger.py that write keep what the single writes keep.
use steam_cli.Prelude.{ℕ, true, false, String, Option, none, some, List, [], ◌∷◌, ◌≡◌, refl, arith}
use steam_cli.Exec.{Error, Result, ok, err, Exec, handle, ◌>>=◌}
use steam_cli.Exec.Keeps.{
  Keeps-pure, Keeps, Keeps-bind, Keeps-bind_value, Keeps-unless, keeps_rules,
}
use steam_cli.Ledger.State.{
  State, pending_confirmation, authorized, expired, allowed, supported_operation,
}
use steam_cli.Ledger.Table.{Ledger, transaction, utcnow}
use steam_cli.Ledger.Intake.{
  Request, or_reject, record_expired, expire_rows, expire_lapsed, record_request, request, confirm,
}
use steam_cli.Ledger.Transition.{
  LedgerOperation, Move, unexpected, or_missing, get, check_move, commit_move, transition,
}
use steam_cli.Ledger.Stable.{utcnow-Keeps, add_event-Keeps, transaction-Keeps, write_rules, Stable}

handle-state :
    {A : Type 0} (r : Result A) (s : Ledger) (h : Error → Result A) → (handle (r, s) h).1 ≡ s
handle-state (ok a) s h = refl
handle-state (err e) s h = refl

pub check_move-ok :
    (m : Move) (current : LedgerOperation) (s : Ledger) {u : Unit}
    → (check_move m current s).0 ≡ ok u
    → (unexpected m.expected_from current.state ≡ false) × (allowed current.state m.to_state ≡ true)
unfolding check_move ◌>>=◌
check_move-ok m current s h = ground arith

pending_expires : allowed pending_confirmation expired ≡ true
unfolding allowed
pending_expires = refl

authorized_expires : allowed authorized expired ≡ true
unfolding allowed
authorized_expires = refl

module _ {Mint : String → Type 0} {P : Ledger → Type 0} (st : Stable Mint P) where
  record_expired-Keeps :
      (clock : ℕ → ℕ) (from : State) (ids : List ℕ)
      → allowed from expired ≡ true
      → Keeps P (record_expired clock from ids)
  unfolding record_expired
  record_expired-Keeps clock from [] legal = search keeps_rules
  record_expired-Keeps clock from (id ∷ ids) legal =
      Keeps-bind _ _ (add_event-Keeps st clock id (some from) expired none legal)
        (λ _. record_expired-Keeps clock from ids legal)

  expire_rows-Keeps : (clock : ℕ → ℕ) (now : ℕ) → Keeps P (expire_rows clock now)
  unfolding expire_rows
  expire_rows-Keeps clock now =
      search (write_rules, record_expired-Keeps, pending_expires, authorized_expires) depth 8

  pub expire_lapsed-Keeps : (clock : ℕ → ℕ) → Keeps P (expire_lapsed clock)
  unfolding expire_lapsed
  expire_lapsed-Keeps clock = search (write_rules, expire_rows-Keeps)

  or_reject-Keeps : (ids : List ℕ) → Keeps P (or_reject ids)
  or_reject-Keeps [] = search keeps_rules
  or_reject-Keeps (id ∷ ids) = search keeps_rules

  pub confirm-Keeps :
      (clock : ℕ → ℕ) (nonce actor : String) (seconds : ℕ)
      → Keeps P (confirm clock nonce actor seconds)
  unfolding confirm
  confirm-Keeps clock nonce actor seconds = search (write_rules, or_reject-Keeps) depth 8

  record_request-Keeps :
      (clock : ℕ → ℕ) (q : Request) (nonce : String) (now : ℕ)
      → Mint nonce
      → supported_operation q.operation ≡ true
      → Keeps P (record_request clock q nonce now)
  unfolding record_request
  record_request-Keeps clock q nonce now mint listed = search write_rules depth 8

  handle-Keeps :
      {A : Type 0} (m : Exec Ledger A) (h : Error → Result A)
      → Keeps P m
      → Keeps P (λ s. handle (m s) h)
  handle-Keeps m h k = record { at = λ s p. rw (handle-state (m s).0 (m s).1 h) (k.at s p) }

  pub request-Keeps :
      (clock : ℕ → ℕ) (q : Request) (nonce : String) → Mint nonce → Keeps P (request clock q nonce)
  unfolding request
  request-Keeps clock q nonce mint = Keeps-unless _ _ _ λ unlisted.
      let listed : supported_operation q.operation ≡ true = ground arith in
      Keeps-bind _ _ (expire_lapsed-Keeps clock) λ _. Keeps-bind _ _ (utcnow-Keeps st clock) λ now.
        Keeps-bind _ _
          (handle-Keeps _ _
            (transaction-Keeps st _ (record_request-Keeps clock q nonce now mint listed)))
          λ id. Keeps-pure _

  or_missing-Keeps : {A : Type 0} (o : Option A) → Keeps P (or_missing o)
  or_missing-Keeps none = search keeps_rules
  or_missing-Keeps (some a) = search keeps_rules

  pub get-Keeps : (id : ℕ) → Keeps P (get id)
  unfolding get
  get-Keeps id = search (write_rules, or_missing-Keeps) depth 8

  check_move-Keeps : (m : Move) (current : LedgerOperation) → Keeps P (check_move m current)
  unfolding check_move
  check_move-Keeps m current = search keeps_rules

  commit_move-Keeps :
      (clock : ℕ → ℕ) (id : ℕ) (m : Move) (from : State) (now : ℕ)
      → allowed from m.to_state ≡ true
      → Keeps P (commit_move clock id m from now)
  unfolding commit_move
  commit_move-Keeps clock id m from now legal = search write_rules depth 8

  pub transition-Keeps : (clock : ℕ → ℕ) (id : ℕ) (m : Move) → Keeps P (transition clock id m)
  unfolding transition
  transition-Keeps clock id m = Keeps-bind _ _ (get-Keeps id) λ current.
      Keeps-bind_value _ _ (check_move-Keeps m current) λ s u h e.
        (write current (check_move-ok m current s e).1).at _ ((check_move-Keeps m current).at s h)
    where
      write :
          (current : LedgerOperation)
          → allowed current.state m.to_state ≡ true
          → Keeps P (utcnow clock >>= λ now. transaction (commit_move clock id m current.state now))
      write current legal =
          Keeps-bind _ _ (utcnow-Keeps st clock)
            λ now. transaction-Keeps st _ (commit_move-Keeps clock id m current.state now legal)
