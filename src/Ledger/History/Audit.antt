-- ===== src/Ledger/History/Audit.antt =====
-- The audit trail of execution/ledger.py.
use steam_cli.Prelude.{ℕ, List, [], ◌∷◌, All, All-append}
use steam_cli.Ledger.Table.{Event, Ledger}
use steam_cli.Ledger.Stable.{Lawful, Stable}
use steam_cli.Ledger.History.{Call, any_nonce, history, history-Stable}

abbrev pub IsLawful : Event → Type 0
IsLawful e = Lawful e.from_state e.to_state

audit-Stable : Stable (λ _. Unit) (λ s. All IsLawful s.events)
audit-Stable = record {
  tick = λ s h. h;
  log = λ s e lawful h. All-append IsLawful s.events (e ∷ []) h (lawful, tt);
  rollback = λ before s b h. b;
  lapse_nonce = λ now s h. h;
  lapse_window = λ now s h. h;
  authorizes = λ nonce actor window now s h. h;
  moves = λ id from m now s legal h. h;
  inserts = λ q nonce now s u listed free fresh h. h;
}

-- If every event of the audit trail is a first `pending_confirmation` or a move that the transition
-- table lists, that is so after any calls in any order, whether they return or raise.
pub history-IsLawful :
    (clock : ℕ → ℕ) (calls : List Call) (s : Ledger)
    → All IsLawful s.events
    → All IsLawful (history clock calls s).events
history-IsLawful clock calls s h =
    history-Stable clock audit-Stable calls s (any_nonce clock calls) h
