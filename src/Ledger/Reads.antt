-- ===== src/Ledger/Reads.antt =====
-- The queries of execution/ledger.py.
use mathlib.Core.List.{reverse}
use steam_cli.Prelude.{
  ℕ, zero, suc, Bool, false, not, ◌&&◌, ◌||◌, if◌then◌else◌, String, str_eq, ◌==◌, Option, none,
  some, List, [], ◌∷◌, select, first,
}
use steam_cli.Exec.{ledger_error, Exec, pure, raise_if, gets, ◌>>=◌, ◌>>◌}
use steam_cli.Ledger.State.{pending_confirmation, expired, is_state, is_terminal}
use steam_cli.Ledger.Table.{Row, Event, Ledger, is_after, utcnow}
use steam_cli.Ledger.Transition.{LedgerOperation, has_id, or_missing, get}

abbrev pub get_optional : Option Row → Exec Ledger (Option LedgerOperation)
get_optional none = pure none
get_optional (some r) = do op ← get r.operation_id; pure (some op)

-- `active`: some row in a state that is not terminal.
unfoldable pub active : Exec Ledger (Option LedgerOperation)
active = do
  found ← gets (λ s. first (λ (r : Row). not (is_terminal r.state)) s.rows)
  get_optional found

abbrev pub bound_key : String → Bool → Row → Bool
bound_key key include_expired r =
    str_eq r.plan_key key && (include_expired || not (is_state r.state expired))

abbrev pub nonce_if_pending : Row → LedgerOperation → Option String
nonce_if_pending r op = if is_state op.state pending_confirmation then r.nonce else none

abbrev pub receipt : String → Option Row → Exec Ledger (Option (LedgerOperation × Option String))
receipt document none = pure none
receipt document (some r) = do
  raise_if (not (str_eq r.plan_document document)) ledger_error
  op ← get r.operation_id
  pure (some (op, nonce_if_pending r op))

unfoldable pub find_request :
    String → String → Bool → Exec Ledger (Option (LedgerOperation × Option String))
find_request key document include_expired = do
  found ← gets (λ s. first (bound_key key include_expired) s.rows)
  receipt document found

-- `sha256` is `hashlib.sha256(request_id.encode()).hexdigest()` behind "intent:".
unfoldable pub lookup_request_id : (String → String) → String → Exec Ledger (Option LedgerOperation)
lookup_request_id intent_key request_id = do
  found ← gets (λ s. first (λ (r : Row). str_eq r.plan_key (intent_key request_id)) s.rows)
  get_optional found

-- The stored text; the callers parse it.
unfoldable pub plan_document : ℕ → Exec Ledger String
plan_document id = do
  found ← gets (λ s. first (has_id id) s.rows)
  row ← or_missing found
  pure row.plan_document

abbrev take {ℓ} : {A : Type ℓ} → ℕ → List A → List A
take zero xs = []
take (suc n) [] = []
take (suc n) (x ∷ xs) = x ∷ take n xs

unfoldable pub recent : ℕ → Exec Ledger (List Row)
recent limit = gets (λ s. take limit (reverse (select (λ (r : Row). is_terminal r.state) s.rows)))

unfoldable pub events : ℕ → Exec Ledger (List Event)
events id = gets (λ s. select (λ (e : Event). e.operation_id == id) s.events)

module _ (clock : ℕ → ℕ) where
  abbrev pub later_than_now : Option ℕ → Exec Ledger Bool
  later_than_now none = pure false
  later_than_now (some t) = do now ← utcnow clock; pure (is_after (some t) now)

  unfoldable pub window_valid : ℕ → Exec Ledger Bool
  window_valid id = do op ← get id; later_than_now op.execution_window_expires_at
