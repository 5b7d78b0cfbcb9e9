-- ===== src/Ledger/Outcomes.antt =====
-- What the methods return and write on a valid ledger, branch by branch.
use mathlib.Core.Path.{subst}
use steam_cli.Prelude.{
  ℕ, suc, true, false, not, ◌||◌, none, some, [], ◌∷◌, ◌++◌, ◌≡◌, refl, arith, length, select,
  first, update_where, All-map, All-not_any, first-holds, first-count_where, length-select,
  length-map, count_where_mono, Bool, Option, List, ◌≢◌, map, ap, sym, first-update_where,
}
use steam_cli.Exec.{ledger_error, invalid_transition, ok, err, Exec, ◌>>=◌}
use steam_cli.Ledger.State.{State, is_state_refl, allowed}
use steam_cli.Ledger.Table.{
  Row, Event, Ledger, row_supported, require_supported, transaction, close_transaction,
  update_returning, utcnow, add_event,
}
use steam_cli.Ledger.Transition.{
  Move, to_operation, unexpected, keep_or, has_id, get, check_move, commit_move, move_row, still_in,
  transition,
}
use steam_cli.Ledger.Invariant.{RowIsValid, IsValid}

-- A valid ledger passes the version check.
pub require_supported-ok : (s : Ledger) → IsValid s → require_supported s ≡ (ok tt, s)
unfolding require_supported
require_supported-ok s v = ground (
  arith,
  v.version,
  All-not_any (λ r. not (row_supported r)) s.rows
      (All-map RowIsValid (λ r. not (row_supported r) ≡ false) (λ r h. ground (arith, h.0)) s.rows
        v.rows_valid.each),
)

-- On a valid ledger a transaction is its body, with both tables put back if the body raises.
pub transaction-eq :
    {A : Type 0} (body : Exec Ledger A) (s : Ledger)
    → IsValid s
    → transaction body s ≡ close_transaction s (body s)
unfolding transaction ◌>>=◌
transaction-eq body s v = rw (require_supported-ok s v)

pub get-found :
    (id : ℕ) (s : Ledger) (r : Row)
    → IsValid s
    → first (has_id id) s.rows ≡ some r
    → get id s ≡ (ok (to_operation r), s)
unfolding get ◌>>=◌
get-found id s r v h = rw (require_supported-ok s v) (rw h)

pub get-missing :
    (id : ℕ) (s : Ledger)
    → IsValid s
    → first (has_id id) s.rows ≡ none
    → get id s ≡ (err ledger_error, s)
unfolding get ◌>>=◌
get-missing id s v h = rw (require_supported-ok s v) (rw h)

pub ticked : (s : Ledger) → IsValid s → IsValid (record s { reads = suc s.reads })
ticked s v = record { version = v.version; rows_valid = v.rows_valid }

-- The new mark of the client: the one that is given, or the old one.
abbrev pub IsChosen : Option Bool → Option Bool → Option Bool → Type 0
IsChosen none old new = new ≡ old
IsChosen (some given) old new = new ≡ some given

-- What an accepted move of the operation `id` makes of the ledger `s`, in which its row is `r`.
pub record IsMoved (clock : ℕ → ℕ) (id : ℕ) (m : Move) (s : Ledger) (r : Row) (t : Ledger)
    : Type 0 where
  pub row : Row
  pub found : first (has_id id) t.rows ≡ some row
  pub state : row.state ≡ m.to_state
  pub detail : row.detail ≡ m.detail
  pub updated_at : row.updated_at ≡ clock s.reads
  pub prior_client_running :
      IsChosen m.prior_client_running r.prior_client_running row.prior_client_running
  -- But for those four columns the row is the old one.
  pub kept :
      record row {
        state = r.state;
        detail = r.detail;
        updated_at = r.updated_at;
        prior_client_running = r.prior_client_running;
      }
      ≡ r
  pub others : (j : ℕ) → j ≢ id → first (has_id j) t.rows ≡ first (has_id j) s.rows
  pub ids : map (λ (x : Row). x.operation_id) t.rows ≡ map (λ (x : Row). x.operation_id) s.rows
  pub events :
      t.events
      ≡ s.events
        ++ record {
          operation_id = id;
          at = clock (suc s.reads);
          from_state = some r.state;
          to_state = m.to_state;
          detail = m.detail;
        }
          ∷ []
  pub user_version : t.user_version ≡ s.user_version
  pub reads : t.reads ≡ suc (suc s.reads)

keep_or-IsChosen : (given old : Option Bool) → IsChosen given old (keep_or given old)
keep_or-IsChosen none old = refl
keep_or-IsChosen (some b) old = refl

update_where-others :
    (id j : ℕ) (m : Move) (from : State) (now : ℕ) (rows : List Row)
    → j ≢ id
    → first (has_id j) (update_where (still_in id from) (move_row m now) rows)
      ≡ first (has_id j) rows
update_where-others id j m from now [] other = refl
update_where-others id j m from now (x ∷ xs) other =
    ground (arith, update_where-others id j m from now xs other)

update_where-ids :
    (id : ℕ) (m : Move) (from : State) (now : ℕ) (rows : List Row)
    → map (λ (x : Row). x.operation_id) (update_where (still_in id from) (move_row m now) rows)
      ≡ map (λ (x : Row). x.operation_id) rows
update_where-ids id m from now [] = refl
update_where-ids id m from now (x ∷ xs) = ground (arith, update_where-ids id m from now xs)

module _ (id : ℕ) (m : Move) (s : Ledger) (r : Row) (v : IsValid s)
    (found : first (has_id id) s.rows ≡ some r) where
  one_match : length (select (still_in id r.state) s.rows) ≡ 1
  one_match = omega (
    arith,
    v.rows_valid.one_id id,
    length-select (still_in id r.state) s.rows,
    count_where_mono (still_in id r.state) (has_id id) s.rows (λ x h. ground arith),
    first-count_where (has_id id) (still_in id r.state) s.rows found
        (ground (arith, is_state_refl r.state, first-holds (has_id id) s.rows found)),
  )

  abbrev pub now : (ℕ → ℕ) → ℕ
  now clock = clock s.reads

  abbrev pub audit : (ℕ → ℕ) → Event
  audit clock = record {
    operation_id = id;
    at = clock (suc s.reads);
    from_state = some r.state;
    to_state = m.to_state;
    detail = m.detail;
  }

  -- The ledger after an accepted move.
  abbrev pub moved : (ℕ → ℕ) → Ledger
  moved clock = record {
    user_version = s.user_version;
    rows = update_where (still_in id r.state) (move_row m (now clock)) s.rows;
    events = s.events ++ audit clock ∷ [];
    reads = suc (suc s.reads);
  }

  commit_move-eq :
      (clock : ℕ → ℕ)
      → commit_move clock id m r.state (now clock) (record s { reads = suc s.reads })
        ≡ (ok tt, moved clock)
  unfolding commit_move ◌>>=◌
  commit_move-eq clock = unfold update_returning add_event utcnow in rw (length-map, one_match) refl

  pub transition-moved :
      (clock : ℕ → ℕ)
      → unexpected m.expected_from r.state ≡ false
      → allowed r.state m.to_state ≡ true
      → transition clock id m s ≡ (ok tt, moved clock)
  unfolding transition ◌>>=◌
  transition-moved clock pinned listed = rw (get-found id s r v found) (
      unfold check_move utcnow in
      rw (pinned, listed)
        (rw
          (transaction-eq (commit_move clock id m r.state (now clock))
            (record s { reads = suc s.reads }) (ticked s v))
          (unfold close_transaction in rw (commit_move-eq clock))))

  moved-IsMoved : (clock : ℕ → ℕ) → IsMoved clock id m s r (moved clock)
  moved-IsMoved clock = record {
    row = move_row m (now clock) r;
    found = ground (
      arith,
      first-update_where (has_id id) (still_in id r.state) (move_row m (now clock)) s.rows
          (λ x. refl) found,
      is_state_refl r.state,
      first-holds (has_id id) s.rows found,
    );
    state = refl;
    detail = refl;
    updated_at = refl;
    prior_client_running = keep_or-IsChosen m.prior_client_running r.prior_client_running;
    kept = refl;
    others = λ j other. update_where-others id j m r.state (now clock) s.rows other;
    ids = update_where-ids id m r.state (now clock) s.rows;
    events = refl;
    user_version = refl;
    reads = refl;
  }

  -- On a valid ledger that has a row for the operation, a move that the table lists from the row's
  -- state, and whose expected source, if it names one, is that state, returns. The row then has the
  -- state and the detail of the move, the time of the first reading of the clock, the mark of the
  -- client if the move gives one, and else its old columns; the rows of other operations are as they
  -- were; one event, with the two states, the detail and the second reading, is appended.
  pub transition-ok :
      (clock : ℕ → ℕ)
      → unexpected m.expected_from r.state ≡ false
      → allowed r.state m.to_state ≡ true
      → ((transition clock id m s).0 ≡ ok tt) × IsMoved clock id m s r (transition clock id m s).1
  transition-ok clock pinned listed =
      let same = transition-moved clock pinned listed in
      (ap (λ p. p.0) same, subst (λ p. IsMoved clock id m s r p.1) (sym same) (moved-IsMoved clock))

  -- On a valid ledger that has a row for the operation, a move that the table does not list from the
  -- row's state, or whose expected source is another state, raises and leaves the ledger as it was.
  pub transition-refused :
      (clock : ℕ → ℕ)
      → (unexpected m.expected_from r.state || not (allowed r.state m.to_state)) ≡ true
      → transition clock id m s ≡ (err invalid_transition, s)
  unfolding transition ◌>>=◌
  transition-refused clock bad = rw (get-found id s r v found) (unfold check_move in ground arith)
