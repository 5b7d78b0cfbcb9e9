-- ===== src/Requests/Held.antt =====
-- The rows of the ledger that the receipts of execution/receipts.py are read from.
use mathlib.Core.Option.{some-injective}
use steam_cli.Prelude.{
  ℕ, Bool, true, false, not, if◌then◌else◌, ◌==◌, Option, none, some, String, str_eq, any, first,
  ◌≡◌, refl, sym, ap, ◌∙◌,
}
use steam_cli.Exec.{Result, ok, err, Exec, pure, gets, ◌>>=◌, continue, unsupported_ledger}
use steam_cli.Exec.Fallible.{ok-injective}
use steam_cli.Ledger.Table.{Row, Ledger, require_supported, row_supported}
use steam_cli.Ledger.Transition.{LedgerOperation, to_operation, has_id, get, or_missing}
use steam_cli.Ledger.Reads.{lookup_request_id, get_optional}
use steam_cli.Requests.Receipts.{
  DurableReceipt, receipt_of, of_operation, of_lookup, durable_receipt,
}

-- A receipt is that of a row of the ledger.
pub record IsHeld (ledger : Option Ledger) (r : DurableReceipt) : Type 0 where
  pub tables : Ledger
  pub opened : ledger ≡ some tables
  pub id : ℕ
  pub row : Row
  pub found : first (has_id id) tables.rows ≡ some row
  pub same : r ≡ receipt_of (to_operation row)

-- The rest of `get` after the version check.
abbrev read_row : ℕ → Unit {0} → Exec Ledger LedgerOperation
read_row id u = gets (λ s. first (has_id id) s.rows) >>= λ found.
    or_missing found >>= λ row. pure (to_operation row)

abbrev checked_tables : Bool → Bool → Ledger → Result (Unit {0}) × Ledger
checked_tables a b s =
    if a then (err unsupported_ledger, s) else if b then (err unsupported_ledger, s) else (ok tt, s)

-- A row that is read is the first with its key.
abbrev IsFirst : ℕ → Ledger → LedgerOperation → Type 0
IsFirst id s op = (row : Row) × (first (has_id id) s.rows ≡ some row) × (op ≡ to_operation row)

read_row_found :
    (id : ℕ) (s : Ledger) (op : LedgerOperation) (o : Option Row)
    → first (has_id id) s.rows ≡ o
    → ((or_missing o >>= λ row. pure (to_operation row)) s).0 ≡ ok op
    → IsFirst id s op
unfolding ◌>>=◌
read_row_found id s op none e h = cc
read_row_found id s op (some row) e h = (row, e, sym (ok-injective h))

checked_found :
    (id : ℕ) (s : Ledger) (op : LedgerOperation) (a b : Bool)
    → (continue (checked_tables a b s).0 (read_row id) (checked_tables a b s).1).0 ≡ ok op
    → IsFirst id s op
unfolding ◌>>=◌
checked_found id s op true b h = cc
checked_found id s op false true h = cc
checked_found id s op false false h = read_row_found id s op (first (has_id id) s.rows) refl h

get_found : (id : ℕ) (s : Ledger) (op : LedgerOperation) → (get id s).0 ≡ ok op → IsFirst id s op
unfolding get require_supported ◌>>=◌
get_found id s op h =
    checked_found id s op (not (s.user_version == 0))
      (any (λ (r : Row). not (row_supported r)) s.rows) h

lookup_found :
    (s : Ledger) (op : LedgerOperation) (o : Option Row)
    → (get_optional o s).0 ≡ ok (some op)
    → (id : ℕ) × IsFirst id s op
unfolding ◌>>=◌
lookup_found s op none h = cc
lookup_found s op (some r) h = go (get r.operation_id s).0 refl h
  where
    go :
        (q : Result LedgerOperation)
        → (get r.operation_id s).0 ≡ q
        → (continue q (λ o. pure (some o)) (get r.operation_id s).1).0 ≡ ok (some op)
        → (id : ℕ) × IsFirst id s op
    go (err e) k h = cc
    go (ok o) k h = (
      r.operation_id,
      get_found r.operation_id s op (k ∙ ap ok (some-injective _ _ (ok-injective h))),
    )

receipt-IsHeld :
    (s : Ledger) (r : DurableReceipt) (op : LedgerOperation) (id : ℕ)
    → IsFirst id s op
    → r ≡ receipt_of op
    → IsHeld (some s) r
receipt-IsHeld s r op id f e = record {
  tables = s;
  opened = refl;
  id = id;
  row = f.0;
  found = f.1;
  same = e ∙ ap receipt_of f.2;
}

-- A receipt is never made up: it is that of a row of the ledger.
pub durable_receipt-IsHeld :
    (intent_key : String → String) (ledger : Option Ledger) (id : Option ℕ)
    (request_id : Option String) (r : DurableReceipt)
    → durable_receipt intent_key ledger id request_id ≡ some r
    → IsHeld ledger r
unfolding durable_receipt lookup_request_id ◌>>=◌
durable_receipt-IsHeld intent_key none id request_id r h = cc
durable_receipt-IsHeld intent_key (some s) none none r h = cc
durable_receipt-IsHeld intent_key (some s) (some id) request_id r h = by_id (get id s).0 refl h
  where
    by_id :
        (q : Result LedgerOperation)
        → (get id s).0 ≡ q
        → of_operation q ≡ some r
        → IsHeld (some s) r
    by_id (err e) k h = cc
    by_id (ok op) k h = receipt-IsHeld s r op id (get_found id s op k) (sym (some-injective _ _ h))
durable_receipt-IsHeld intent_key (some s) none (some request_id) r h =
    by_request (lookup_request_id intent_key request_id s).0 refl h
  where
    by_request :
        (q : Result (Option LedgerOperation))
        → (lookup_request_id intent_key request_id s).0 ≡ q
        → of_lookup q ≡ some r
        → IsHeld (some s) r
    by_request (err e) k h = cc
    by_request (ok none) k h = cc
    by_request (ok (some op)) k h =
        let (id, f) =
          lookup_found s op (first (λ (q : Row). str_eq q.plan_key (intent_key request_id)) s.rows)
            k in
        receipt-IsHeld s r op id f (sym (some-injective _ _ h))
