-- ===== src/Ledger/RoundTrip.antt =====
-- `find_request` of execution/ledger.py finds what `request` recorded.
use mathlib.Core.Path.{subst}
use steam_cli.Prelude.{
  ℕ, Bool, true, false, not, ◌&&◌, if◌then◌else◌, is_some, String, str_eq, eq_iff, Option, none,
  some, List, [], ◌∷◌, ◌++◌, any, first, count_where, ◌≡◌, refl, ap, ◌∙◌, sym, arith, Bool-cases,
  inl, inr,
}
use steam_cli.Exec.{
  ledger_error, unsupported_ledger, integrity_error, Result, ok, err, Exec, handle, continue, ◌>>=◌,
}
use steam_cli.Exec.Fallible.{ok-injective}
use steam_cli.Exec.Triple.{
  Triple, Triple-pure, Triple-gets, Triple-bind, Triple-unless, Triple-weaken,
}
use steam_cli.Ledger.State.{
  pending_confirmation, expired, is_state, is_terminal, supported_operation,
}
use steam_cli.Ledger.Table.{
  Row, Ledger, require_supported, transaction, close_transaction, insert_row, active_on,
  unexpired_key, next_id, utcnow, add_event,
}
use steam_cli.Ledger.Intake.{
  Request, new_row, integrity_as_ledger, expire_lapsed, record_request, request,
}
use steam_cli.Ledger.Transition.{LedgerOperation, has_id}
use steam_cli.Ledger.Reads.{receipt, find_request}
use steam_cli.Ledger.Stable.Methods.{request-Keeps}
use steam_cli.Ledger.Invariant.{IsValid, IsValid-Stable, next_id-lt}
use steam_cli.Ledger.Outcomes.{get-found}

-- The row of a request, with its key and the time of the call.
abbrev pub recorded : Request → String → ℕ → ℕ → Row
recorded q nonce id now = record (new_row q nonce now) { operation_id = id }

-- The row is there, and it is the one that its plan key and its key find.
pub record IsRecorded (q : Request) (nonce : String) (id : ℕ) (s : Ledger) : Type 0 where
  pub now : ℕ
  pub by_key : first (unexpired_key q.plan_key) s.rows ≡ some (recorded q nonce id now)
  pub by_id : first (has_id id) s.rows ≡ some (recorded q nonce id now)

first-append_none :
    (p : Row → Bool) (xs ys : List Row) → first p xs ≡ none → first p (xs ++ ys) ≡ first p ys
first-append_none p [] ys h = refl
first-append_none p (x ∷ xs) ys h = ground (arith, first-append_none p xs ys)

first-none : (p : Row → Bool) (xs : List Row) → count_where p xs ≡ 0 → first p xs ≡ none
first-none p [] h = refl
first-none p (x ∷ xs) h = ground (arith, first-none p xs)

-- The row that is appended where nothing holds its plan key.
appended-IsRecorded :
    (q : Request) (nonce : String) (now : ℕ) (s : Ledger)
    → first (unexpired_key q.plan_key) s.rows ≡ none
    → IsRecorded q nonce
        (next_id s.rows)
        (record s { rows = s.rows ++ recorded q nonce (next_id s.rows) now ∷ [] })
unfolding is_state
appended-IsRecorded q nonce now s h = record {
  now = now;
  by_key =
      first-append_none (unexpired_key q.plan_key) s.rows
        (recorded q nonce (next_id s.rows) now ∷ []) h
      ∙ ground (arith, eq_iff q.plan_key q.plan_key);
  by_id =
      first-append_none (has_id (next_id s.rows)) s.rows
        (recorded q nonce (next_id s.rows) now ∷ [])
        (first-none (has_id (next_id s.rows)) s.rows
          (next_id-lt s.rows (next_id s.rows) (omega arith)))
      ∙ ground arith;
}

module _ (clock : ℕ → ℕ) (q : Request) (nonce : String) where
  add_event-IsRecorded :
      (id now : ℕ)
      → Triple
          (IsRecorded q nonce id)
          (add_event clock id none pending_confirmation none)
          (λ _. IsRecorded q nonce id)
          (λ _ _. Unit)
  unfolding add_event ◌>>=◌
  add_event-IsRecorded id now = record {
    returns = λ s r a h. record { now = r.now; by_key = r.by_key; by_id = r.by_id };
    raises = λ s r e h. tt;
  }

  insert_row-IsRecorded :
      (now : ℕ)
      → Triple
          (λ s. first (unexpired_key q.plan_key) s.rows ≡ none)
          (insert_row (new_row q nonce now))
          (IsRecorded q nonce)
          (λ _ _. Unit)
  unfolding insert_row
  insert_row-IsRecorded now = record { returns = returns; raises = λ s h e k. tt }
    where
      returns :
          (s : Ledger)
          → first (unexpired_key q.plan_key) s.rows ≡ none
          → (id : ℕ) → (insert_row (new_row q nonce now) s).0 ≡ ok id
          → IsRecorded q nonce id (insert_row (new_row q nonce now) s).1
      returns s h id k =
          split (not (is_terminal pending_confirmation) && any (active_on q.machine_id) s.rows)
            (not (is_state pending_confirmation expired) && any (unexpired_key q.plan_key) s.rows) k
        where
          inserted : Result ℕ × Ledger
          inserted = (
            ok (next_id s.rows),
            record s { rows = s.rows ++ recorded q nonce (next_id s.rows) now ∷ [] },
          )

          split :
              (a b : Bool)
              → (if a
                  then (err integrity_error, s)
                  else if b
                  then (err integrity_error, s)
                  else inserted).0
                ≡ ok id
              → IsRecorded q nonce id
                  (if a
                    then (err integrity_error, s)
                    else if b
                    then (err integrity_error, s)
                    else inserted).1
          split true b e = cc
          split false true e = cc
          split false false e =
              subst
                (λ n.
                  IsRecorded q nonce n
                    (record s { rows = s.rows ++ recorded q nonce (next_id s.rows) now ∷ [] }))
                (ok-injective e) (appended-IsRecorded q nonce now s h)

  record_request-IsRecorded :
      (now : ℕ)
      → Triple (λ _. Unit) (record_request clock q nonce now) (IsRecorded q nonce) (λ _ _. Unit)
  unfolding record_request
  record_request-IsRecorded now =
      Triple-bind {R = λ found s. found ≡ first (unexpired_key q.plan_key) s.rows} _ _
        (Triple-gets _ (λ s u. refl))
        λ found.
          Triple-unless (is_some found) ledger_error _ (λ s e b. tt)
            λ missing.
              Triple-weaken _ (λ s e. sym e ∙ none_of found missing)
                (Triple-bind {R = IsRecorded q nonce} _ _ (insert_row-IsRecorded now) λ id.
                  Triple-bind {R = λ _. IsRecorded q nonce id} _ _ (add_event-IsRecorded id now)
                    λ u. Triple-pure id (λ s r. r))
    where
      none_of : (o : Option Row) → is_some o ≡ false → o ≡ none
      none_of none h = refl
      none_of (some r) h = cc

  -- The transaction of `request`, with the exceptions that it translates.
  handled-IsRecorded :
      (now : ℕ)
      → Triple
          (λ _. Unit)
          (λ s. handle (transaction (record_request clock q nonce now) s) integrity_as_ledger)
          (IsRecorded q nonce)
          (λ _ _. Unit)
  unfolding transaction close_transaction ◌>>=◌
  handled-IsRecorded now = record { returns = returns; raises = λ s h e k. tt }
    where
      closed :
          (before : Ledger) (r : Result ℕ) (s : Ledger) (id : ℕ)
          → (r ≡ ok id → IsRecorded q nonce id s)
          → (handle (close_transaction before (r, s)) integrity_as_ledger).0 ≡ ok id
          → IsRecorded q nonce id (handle (close_transaction before (r, s)) integrity_as_ledger).1
      closed before (ok i) s id k h = k h
      closed before (err integrity_error) s id k h = cc
      closed before (err e) s id k h = cc

      supported :
          (before : Ledger) (r : Result (Unit {0})) (s : Ledger) (id : ℕ)
          → (handle
              (close_transaction before (continue r (λ _. record_request clock q nonce now) s))
              integrity_as_ledger).0
            ≡ ok id
          → IsRecorded q nonce id
              (handle
                (close_transaction before (continue r (λ _. record_request clock q nonce now) s))
                integrity_as_ledger).1
      supported before (ok u) s id h =
          closed before (record_request clock q nonce now s).0
            (record_request clock q nonce now s).1 id
            (λ e. (record_request-IsRecorded now).returns s tt id e) h
      supported before (err e) s id h = closed before (err e) s id (λ k. cc) h

      returns :
          (s : Ledger)
          → Unit {0}
          → (id : ℕ)
          → (handle (transaction (record_request clock q nonce now) s) integrity_as_ledger).0
            ≡ ok id
          → IsRecorded q nonce id
              (handle (transaction (record_request clock q nonce now) s) integrity_as_ledger).1
      returns s u id h = supported s (require_supported s).0 (require_supported s).1 id h

  -- What a caller gets: the key of the row and the nonce.
  abbrev Answered : ℕ × String → Ledger → Type 0
  Answered r s = IsRecorded q nonce r.0 s × (r.1 ≡ nonce)

  any_state :
      {A : Type 0} (m : Exec Ledger A)
      → Triple (λ _. Unit {0}) m (λ _ _. Unit {0}) (λ _ _. Unit {0})
  any_state m = record { returns = λ s u a h. tt; raises = λ s u e h. tt }

  request-Answered : Triple (λ _. Unit) (request clock q nonce) Answered (λ _ _. Unit)
  unfolding request
  request-Answered =
      Triple-unless (not (supported_operation q.operation)) unsupported_ledger _ (λ s u b. tt)
        λ listed. Triple-bind {R = λ _ _. Unit} _ _ (any_state (expire_lapsed clock)) λ ids.
          Triple-bind {R = λ _ _. Unit} _ _ (any_state (utcnow clock)) λ now.
            Triple-bind {R = IsRecorded q nonce} _ _ (handled-IsRecorded now)
              λ id. Triple-pure (id, nonce) (λ s r. (r, refl))

-- The operation that a request asks for, under its key, before anything happened to it.
abbrev pub asked : Request → ℕ → LedgerOperation
asked q id = record {
  operation_id = id;
  plan_key = q.plan_key;
  operation = q.operation;
  appid = q.appid;
  account_alias = q.account_alias;
  machine_id = q.machine_id;
  state = pending_confirmation;
  policy_version = q.policy_version;
  confirmation_actor = none;
  prior_client_running = none;
  execution_window_expires_at = none;
  detail = none;
}

-- What a document gets: the operation that was asked for, with the nonce, if it is that of the
-- request.
abbrev pub answer_for :
    Request → ℕ × String → String → Result (Option (LedgerOperation × Option String))
answer_for q (id, nonce) document =
    if str_eq q.plan_document document then ok (some (asked q id, some nonce)) else err ledger_error

recorded-receipt :
    (q : Request) (nonce : String) (id now : ℕ) (document : String) (s : Ledger)
    → IsValid s
    → first (has_id id) s.rows ≡ some (recorded q nonce id now)
    → receipt document (some (recorded q nonce id now)) s ≡ (answer_for q (id, nonce) document, s)
unfolding ◌>>=◌ is_state
recorded-receipt q nonce id now document s v h =
    elim (Bool-cases (str_eq q.plan_document document)) [
      | inl same ↦ rw same (rw (get-found id s (recorded q nonce id now) v h) refl)
      | inr other ↦ rw other refl
    ]

-- On a valid ledger, if a request is recorded, then `find_request` with its plan key and its document
-- returns the operation as it was asked for, under the key that the caller got, pending and not yet
-- confirmed, with the nonce that the caller got; with any other document it raises `LedgerError`. It
-- changes nothing.
pub find_request-request :
    (clock : ℕ → ℕ) (q : Request) (nonce document : String) (s : Ledger) (r : ℕ × String)
    → IsValid s
    → (request clock q nonce s).0 ≡ ok r
    → find_request q.plan_key document false (request clock q nonce s).1
      ≡ (answer_for q r document, (request clock q nonce s).1)
unfolding find_request ◌>>=◌
find_request-request clock q nonce document s r v h =
    let (held, same) = (request-Answered clock q nonce).returns s tt r h in
    let after = (request clock q nonce s).1 in
    let valid = (request-Keeps IsValid-Stable clock q nonce tt).at s v in
    ap (λ found. receipt document found after) held.by_key
    ∙ recorded-receipt q nonce r.0 held.now document after valid held.by_id
    ∙ ap (λ n. (answer_for q (r.0, n) document, after)) (sym same)
