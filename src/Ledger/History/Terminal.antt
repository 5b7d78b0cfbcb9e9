-- ===== src/Ledger/History/Terminal.antt =====
-- Terminal rows are receipts: nothing rewrites them.
use steam_cli.Prelude.{
  ℕ, Bool, true, false, some, List, ◌≡◌, refl, arith, first, first-update_where, first-append,
  update_where,
}
use steam_cli.Ledger.State.{
  pending_confirmation, authorized, is_state, is_state-eq, is_terminal, terminal_absorbs,
}
use steam_cli.Ledger.Table.{Row, Ledger}
use steam_cli.Ledger.Transition.{has_id}
use steam_cli.Ledger.Stable.{Stable}
use steam_cli.Ledger.History.{Call, any_nonce, history, history-Stable}

module _ (id : ℕ) (r : Row) (terminal : is_terminal r.state ≡ true) where
  abbrev pub Kept : Ledger → Type 0
  Kept s = first (has_id id) s.rows ≡ some r

  not_pending : is_state r.state pending_confirmation ≡ false
  unfolding is_terminal
  not_pending = ground (arith, is_state-eq r.state pending_confirmation)

  not_authorized : is_state r.state authorized ≡ false
  unfolding is_terminal
  not_authorized = ground (arith, is_state-eq r.state authorized)

  untouched :
      (test : Row → Bool) (change : Row → Row) (rows : List Row)
      → ((x : Row) → has_id id (change x) ≡ has_id id x)
      → test r ≡ false
      → first (has_id id) rows ≡ some r
      → first (has_id id) (update_where test change rows) ≡ some r
  untouched test change rows same off h =
      rw (first-update_where (has_id id) test change rows same h) (rw off)

  pub terminal-Stable : Stable (λ _. Unit) Kept
  terminal-Stable = record {
    tick = λ s h. h;
    log = λ s e l h. h;
    rollback = λ before s b h. b;
    lapse_nonce = λ now s h. untouched _ _ s.rows (λ x. refl) (ground (arith, not_pending)) h;
    lapse_window = λ now s h. untouched _ _ s.rows (λ x. refl) (ground (arith, not_authorized)) h;
    authorizes = λ nonce actor window now s h.
        untouched _ _ s.rows (λ x. refl) (ground (arith, not_pending)) h;
    moves = λ other from m now s legal h.
        untouched _ _ s.rows (λ x. refl)
          (ground (arith, is_state-eq r.state from, terminal_absorbs from m.to_state)) h;
    inserts = λ q nonce now s _ listed free fresh h. first-append (has_id id) s.rows _ h;
  }

  -- Once the row of an operation is in a terminal state, the row stays as it is, in every column,
  -- through any calls of the methods.
  pub terminal_row_immutable :
      (clock : ℕ → ℕ) (calls : List Call) (s : Ledger)
      → first (has_id id) s.rows ≡ some r
      → first (has_id id) (history clock calls s).rows ≡ some r
  terminal_row_immutable clock calls s h =
      history-Stable clock terminal-Stable calls s (any_nonce clock calls) h
