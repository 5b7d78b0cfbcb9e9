-- ===== src/Ledger/Table.antt =====
-- The SQLite tables of execution/ledger.py as lists in the order of their primary keys, the
-- transaction that brackets every write, and the single statements that the methods issue.
-- Times are seconds (`_utcnow` drops the microseconds): the stored texts have one format, so their
-- order as texts is the order of the times. `clock k` is the k-th reading of the system's clock.
use steam_cli.Prelude.{
  ℕ, suc, Bool, false, not, ◌&&◌, if◌then◌else◌, String, str_eq, ◌==◌, leb, ltb, Option, none, some,
  List, [], ◌∷◌, ◌++◌, map, select, any, update_where,
}
use steam_cli.Exec.{unsupported_ledger, integrity_error, Result, ok, err, Exec, modify, ◌>>=◌}
use steam_cli.Ledger.State.{
  State, expired, Operation, is_state, is_terminal, supported_state, supported_operation,
}

-- A row of `operations`.
pub record Row : Type 0 where
  pub operation_id : ℕ
  pub schema : String
  pub plan_key : String
  pub plan_document : String
  pub operation : Operation
  pub appid : ℕ
  pub account_alias : String
  pub machine_id : String
  pub state : State
  pub policy_version : String
  pub nonce : Option String
  pub nonce_expires_at : Option ℕ
  pub confirmation_actor : Option String
  pub execution_window_expires_at : Option ℕ
  pub prior_client_running : Option Bool
  pub detail : Option String
  pub created_at : ℕ
  pub updated_at : ℕ

-- A row of `events`; `none` is the text "none" that stands before the first state.
pub record Event : Type 0 where
  pub operation_id : ℕ
  pub at : ℕ
  pub from_state : Option State
  pub to_state : State
  pub detail : Option String

-- The database, and how often the clock has been read.
pub record Ledger : Type 0 where
  pub user_version : ℕ
  pub rows : List Row
  pub events : List Event
  pub reads : ℕ

-- `SCHEMA`
abbrev pub schema_text : String
schema_text = "operation-execution/0.1"

abbrev pub row_supported : Row → Bool
row_supported r =
    str_eq r.schema schema_text && (supported_state r.state && supported_operation r.operation)

-- `_require_supported`, on a ledger whose tables exist.
unfoldable pub require_supported : Exec Ledger Unit
require_supported s =
    if not (s.user_version == 0)
    then (err unsupported_ledger, s)
    else if any (λ r. not (row_supported r)) s.rows
    then (err unsupported_ledger, s)
    else (ok tt, s)

-- COMMIT, or ROLLBACK of both tables to what they were at BEGIN.
unfoldable pub close_transaction {ℓ} : {A : Type ℓ} → Ledger → Result A × Ledger → Result A × Ledger
close_transaction before (ok a, s) = (ok a, s)
close_transaction before (err e, s) = (
  err e,
  record s { user_version = before.user_version; rows = before.rows; events = before.events },
)

-- `_transaction`
unfoldable pub transaction : {A : Type 0} → Exec Ledger A → Exec Ledger A
unfolding close_transaction require_supported
transaction body s = close_transaction s ((require_supported >>= λ _. body) s)

-- `UPDATE operations SET … WHERE … RETURNING operation_id`
unfoldable pub update_returning : (Row → Bool) → (Row → Row) → Exec Ledger (List ℕ)
update_returning test change s = (
  ok (map (λ (r : Row). r.operation_id) (select test s.rows)),
  record s { rows = update_where test change s.rows },
)

-- The key that SQLite gives a row: one more than the largest.
unfoldable pub next_id : List Row → ℕ
next_id [] = 1
next_id (r ∷ rs) = let n = next_id rs in if ltb r.operation_id n then n else suc r.operation_id

-- The predicates of the two partial unique indexes.
abbrev pub active_on : String → Row → Bool
active_on machine r = str_eq r.machine_id machine && not (is_terminal r.state)

abbrev pub unexpired_key : String → Row → Bool
unexpired_key key r = str_eq r.plan_key key && not (is_state r.state expired)

-- `INSERT INTO operations`, of a row whose key is still to be given.
unfoldable pub insert_row : Row → Exec Ledger ℕ
unfolding next_id
insert_row r s =
    let key = next_id s.rows in
    if not (is_terminal r.state) && any (active_on r.machine_id) s.rows
    then (err integrity_error, s)
    else if not (is_state r.state expired) && any (unexpired_key r.plan_key) s.rows
    then (err integrity_error, s)
    else (ok key, record s { rows = s.rows ++ record r { operation_id = key } ∷ [] })

-- `nonce=?`, `… > ?` and `… <= ?`, which no NULL satisfies.
abbrev pub is_text : Option String → String → Bool
is_text none t = false
is_text (some s) t = str_eq s t

abbrev pub is_after : Option ℕ → ℕ → Bool
is_after none now = false
is_after (some t) now = ltb now t

abbrev pub is_lapsed : Option ℕ → ℕ → Bool
is_lapsed none now = false
is_lapsed (some t) now = leb t now

module _ (clock : ℕ → ℕ) where
  -- `_utcnow`
  unfoldable pub utcnow : Exec Ledger ℕ
  utcnow s = (ok (clock s.reads), record s { reads = suc s.reads })

  -- `_event`
  unfoldable pub add_event : ℕ → Option State → State → Option String → Exec Ledger Unit
  unfolding utcnow
  add_event id from to why = do
    now ← utcnow
    modify (λ s. record s {
      events =
          s.events
          ++ record { operation_id = id; at = now; from_state = from; to_state = to; detail = why }
            ∷ [];
    })
