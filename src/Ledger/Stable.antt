-- ===== src/Ledger/Stable.antt =====
-- A property of the ledger that the single writes keep is kept by every method, whether it returns
-- or raises.
pub mod Methods
pub mod Reads
use steam_cli.Prelude.{
  ℕ, suc, Bool, true, false, String, Option, none, some, List, [], ◌∷◌, ◌++◌, ◌≡◌, refl, arith, any,
  update_where,
}
use steam_cli.Exec.{Error, Result, ok, err, Exec, handle, ◌>>=◌}
use steam_cli.Exec.Keeps.{Keeps, Keeps-bind, Keeps-bind_value, Keeps-unless, keeps_rules}
use steam_cli.Ledger.State.{
  State, pending_confirmation, authorized, expired, is_state, is_terminal, allowed,
  supported_operation,
}
use steam_cli.Ledger.Table.{
  Event, Ledger, require_supported, transaction, close_transaction, update_returning, insert_row,
  active_on, unexpired_key, next_id, utcnow, add_event,
}
use steam_cli.Ledger.Intake.{
  Request, nonce_lapsed, window_lapsed, expire, confirmable, authorize, new_row, or_reject,
  record_expired, expire_rows, expire_lapsed, record_request, request, confirm,
}
use steam_cli.Ledger.Transition.{
  LedgerOperation, Move, unexpected, or_missing, get, check_move, commit_move, move_row, still_in,
  transition,
}

-- An audit event that the methods may write.
abbrev pub Lawful : Option State → State → Type 0
Lawful none to = to ≡ pending_confirmation
Lawful (some from) to = allowed from to ≡ true

-- `Mint` is what is known of the nonces that requests bring.
pub record Stable (Mint : String → Type 0) (P : Ledger → Type 0) : Type 0 where
  pub tick : (s : Ledger) → P s → P (record s { reads = suc s.reads })
  pub log :
      (s : Ledger) (e : Event)
      → Lawful e.from_state e.to_state
      → P s
      → P (record s { events = s.events ++ e ∷ [] })
  pub rollback :
      (before s : Ledger)
      → P before
      → P s
      → P (record s {
        user_version = before.user_version;
        rows = before.rows;
        events = before.events;
      })
  pub lapse_nonce :
      (now : ℕ) (s : Ledger)
      → P s
      → P (record s { rows = update_where (nonce_lapsed now) (expire now) s.rows })
  pub lapse_window :
      (now : ℕ) (s : Ledger)
      → P s
      → P (record s { rows = update_where (window_lapsed now) (expire now) s.rows })
  pub authorizes :
      (nonce actor : String) (window now : ℕ) (s : Ledger)
      → P s
      → P (record s {
        rows = update_where (confirmable nonce now) (authorize actor window now) s.rows;
      })
  pub moves :
      (id : ℕ) (from : State) (m : Move) (now : ℕ) (s : Ledger)
      → allowed from m.to_state ≡ true
      → P s
      → P (record s { rows = update_where (still_in id from) (move_row m now) s.rows })
  pub inserts :
      (q : Request) (nonce : String) (now : ℕ) (s : Ledger)
      → Mint nonce
      → supported_operation q.operation ≡ true
      → any (active_on q.machine_id) s.rows ≡ false
      → any (unexpired_key q.plan_key) s.rows ≡ false
      → P s
      → P (record s {
        rows = s.rows ++ record (new_row q nonce now) { operation_id = next_id s.rows } ∷ [];
      })

pub require_supported-state : (s : Ledger) → (require_supported s).1 ≡ s
unfolding require_supported
require_supported-state s = ground arith

pub pending_authorizes : allowed pending_confirmation authorized ≡ true
unfolding allowed
pending_authorizes = refl

module _ {Mint : String → Type 0} {P : Ledger → Type 0} (st : Stable Mint P) where
  pub utcnow-Keeps : (clock : ℕ → ℕ) → Keeps P (utcnow clock)
  unfolding utcnow
  utcnow-Keeps clock = record { at = λ s h. st.tick s h }

  pub add_event-Keeps :
      (clock : ℕ → ℕ) (id : ℕ) (from : Option State) (to : State) (why : Option String)
      → Lawful from to
      → Keeps P (add_event clock id from to why)
  unfolding add_event ◌>>=◌
  add_event-Keeps clock id from to why legal = record {
    at = λ s h. st.log (record s { reads = suc s.reads }) _ legal (st.tick s h);
  }

  pub require_supported-Keeps : Keeps P require_supported
  require_supported-Keeps = record { at = λ s h. rw require_supported-state h }

  pub close-Keeps :
      {A : Type 0} (before : Ledger) (r : Result A) (s : Ledger)
      → P before
      → P s
      → P (close_transaction before (r, s)).1
  unfolding close_transaction
  close-Keeps before (ok a) s b h = h
  close-Keeps before (err e) s b h = st.rollback before s b h

  pub transaction-Keeps :
      {A : Type 0} (body : Exec Ledger A) → Keeps P body → Keeps P (transaction body)
  unfolding transaction
  transaction-Keeps body k = record {
    at = λ s h.
        let whole = Keeps-bind require_supported (λ _. body) require_supported-Keeps (λ _. k) in
        let ran = (require_supported >>= λ _. body) s in close-Keeps s ran.0 ran.1 h (whole.at s h);
  }

  pub insert-Keeps :
      (q : Request) (nonce : String) (now : ℕ)
      → Mint nonce
      → supported_operation q.operation ≡ true
      → Keeps P (insert_row (new_row q nonce now))
  unfolding insert_row is_terminal is_state
  insert-Keeps q nonce now mint listed = record { at = λ s h. go s h _ _ refl refl }
    where
      go :
          (s : Ledger) (h : P s) (a b : Bool)
          → any (active_on q.machine_id) s.rows ≡ a
          → any (unexpired_key q.plan_key) s.rows ≡ b
          → P (insert_row (new_row q nonce now) s).1
      go s h true b busy e = rw busy h
      go s h false true free used = rw free (rw used h)
      go s h false false free fresh =
          rw free (rw fresh (st.inserts q nonce now s mint listed free fresh h))

  pub lapse_nonce-Keeps : (now : ℕ) → Keeps P (update_returning (nonce_lapsed now) (expire now))
  unfolding update_returning
  lapse_nonce-Keeps now = record { at = st.lapse_nonce now }

  pub lapse_window-Keeps : (now : ℕ) → Keeps P (update_returning (window_lapsed now) (expire now))
  unfolding update_returning
  lapse_window-Keeps now = record { at = st.lapse_window now }

  pub authorizes-Keeps :
      (nonce actor : String) (window now : ℕ)
      → Keeps P (update_returning (confirmable nonce now) (authorize actor window now))
  unfolding update_returning
  authorizes-Keeps nonce actor window now = record { at = st.authorizes nonce actor window now }

  pub moves-Keeps :
      (id : ℕ) (from : State) (m : Move) (now : ℕ)
      → allowed from m.to_state ≡ true
      → Keeps P (update_returning (still_in id from) (move_row m now))
  unfolding update_returning
  moves-Keeps id from m now legal = record { at = λ s h. st.moves id from m now s legal h }

  pub ruleset write_rules = (
    keeps_rules, utcnow-Keeps, add_event-Keeps, require_supported-Keeps, transaction-Keeps,
    insert-Keeps, lapse_nonce-Keeps, lapse_window-Keeps, authorizes-Keeps, moves-Keeps,
    pending_authorizes,
  )
