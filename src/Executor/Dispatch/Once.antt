-- ===== src/Executor/Dispatch/Once.antt =====
-- `_launch` of execution/executor.py keeps the invariant, so no sequence of runs sends a launch twice.
use steam_cli.Prelude.{
  Bool, ℕ, true, false, not, Option, none, some, [], ◌∷◌, ◌++◌, ◌≡◌, refl, arith, String, ◌==◌,
  if◌then◌else◌, first, first-holds, first-update_where, count_where-append, Bool-cases, inl, inr,
}
use steam_cli.Exec.{ok, err, ledger_error, Exec, modify, ◌>>=◌, ◌>>◌}
use steam_cli.Exec.Keeps.{Keeps, Keeps-bind_value}
use steam_cli.Ledger.State.{
  State, authorized, dispatch_pending, is_state, is_state-eq, is_state_refl, allowed,
}
use steam_cli.Ledger.Table.{Row, Ledger}
use steam_cli.Ledger.Transition.{LedgerOperation, Move, has_id, still_in, move_row, transition}
use steam_cli.Ledger.Stable.Reads.{active-Keeps, plan_document-Keeps, window_valid-Keeps}
use steam_cli.Ledger.Stable.Methods.{get-Keeps, expire_lapsed-Keeps, transition-Keeps}
use steam_cli.Ledger.Invariant.{IsValid}
use steam_cli.Ledger.Outcomes.{get-missing, transition-moved, transition-refused}
use steam_cli.Executor.World.{
  Effect, World, launch_sent, Machine, ask, on_ledger, emit, Report, Outcome,
}
use steam_cli.Executor.Restore.{report}
use steam_cli.Executor.Launch.{from_to, send_launch}
use steam_cli.Executor.Lease.{execute_locked}
use steam_cli.Executor.Dispatch.Invariant.{
  is_committed, is_launch, launches-quiet, Settled, Settled-Stable, AtMostOnce,
}
use steam_cli.Executor.Paths.{Quiet, Starts, path_rules, transition_on-Keeps}
use steam_cli.Executor.Paths.Launch.{execute_locked-Keeps}

module _ (clock : ℕ → ℕ) (id : ℕ) (why : String) where
  abbrev to_pending : Move
  to_pending = from_to authorized dispatch_pending why

  transition-missing :
      (s : Ledger)
      → IsValid s
      → first (has_id id) s.rows ≡ none
      → transition clock id to_pending s ≡ (err ledger_error, s)
  unfolding transition ◌>>=◌
  transition-missing s v h = rw (get-missing id s v h) refl

  authorized_dispatch : allowed authorized dispatch_pending ≡ true
  unfolding allowed
  authorized_dispatch = refl

  -- The compare-and-set succeeds on a row that no launch had left, and commits it.
  dispatch_commits :
      (s : Ledger) {u : Unit}
      → IsValid s
      → (transition clock id to_pending s).0 ≡ ok u
      → (is_committed id s ≡ false) × (is_committed id (transition clock id to_pending s).1 ≡ true)
  dispatch_commits s v h = go (first (has_id id) s.rows) refl
    where
      go :
          (o : Option Row)
          → first (has_id id) s.rows ≡ o
          → (is_committed id s ≡ false)
            × (is_committed id (transition clock id to_pending s).1 ≡ true)
      go none e = cc (transition-missing s v e)
      go (some r) e = elim (Bool-cases (is_state r.state authorized)) [
        | inl y ↦
            let same = is_state-eq r.state authorized y in
            let moved =
              transition-moved id to_pending s r v e clock (ground arith)
                (rw same authorized_dispatch) in
            rw moved (
              rw e (
                rw
                  (first-update_where (has_id id) (still_in id r.state)
                    (move_row to_pending (clock s.reads)) s.rows (λ x. refl) e)
                  (rw (is_state_refl r.state)
                    (rw (first-holds (has_id id) s.rows e) (ground (arith, same))))))
        | inr n ↦ cc (transition-refused id to_pending s r v e clock (ground arith))
      ]

module _ {S : Type 0} (i : ℕ) where
  ask-AtMostOnce : {A : Type 0} (m : Exec S A) → Keeps (AtMostOnce i) (ask m)
  unfolding ask
  ask-AtMostOnce m = record { at = λ x h. record { once = h.once; settled = h.settled } }

  on_ledger-AtMostOnce :
      {A : Type 0} (m : Exec Ledger A)
      → ((sent : Bool) → Keeps (Settled i sent) m)
      → Keeps (AtMostOnce {S = S} i) (on_ledger m)
  unfolding on_ledger
  on_ledger-AtMostOnce m k = record {
    at = λ x h. record { once = h.once; settled = (k _).at x.ledger h.settled };
  }

  emit-AtMostOnce : (e : Effect) → is_launch i e ≡ false → Keeps (AtMostOnce {S = S} i) (emit e)
  unfolding emit modify
  emit-AtMostOnce e off = record {
    at = λ x h. record {
      once = rw (launches-quiet i e x.effects off) h.once;
      settled = rw (launches-quiet i e x.effects off) h.settled;
    };
  }

  pub AtMostOnce-Quiet : Quiet (AtMostOnce {S = S} i)
  AtMostOnce-Quiet = record {
    asks = λ m. ask-AtMostOnce m;
    transitions = λ clock id m.
        on_ledger-AtMostOnce _ λ sent. transition-Keeps (Settled-Stable i sent) clock id m;
    expiries =
        λ clock. on_ledger-AtMostOnce _ λ sent. expire_lapsed-Keeps (Settled-Stable i sent) clock;
    windows = λ clock id.
        on_ledger-AtMostOnce _ λ sent. window_valid-Keeps (Settled-Stable i sent) clock id;
    lookups = λ id. on_ledger-AtMostOnce _ λ sent. get-Keeps (Settled-Stable i sent) id;
    actives = on_ledger-AtMostOnce _ λ sent. active-Keeps (Settled-Stable i sent);
    plans = λ id. on_ledger-AtMostOnce _ λ sent. plan_document-Keeps (Settled-Stable i sent) id;
  }

  pub AtMostOnce-Starts : Starts (AtMostOnce {S = S} i)
  AtMostOnce-Starts = record {
    contents = λ id. emit-AtMostOnce _ refl;
    adoptions = λ id. emit-AtMostOnce _ refl;
  }

module _ {S : Type 0} (i : ℕ) (clock : ℕ → ℕ) where
  abbrev P : Machine S → Type 0
  P = AtMostOnce i

  -- One more launch, after the row was moved to `dispatch_pending`.
  sent_once :
      (id : ℕ) (why : String) (x : Machine S) {u : Unit}
      → P x
      → (transition clock id (to_pending clock id why) x.ledger).0 ≡ ok u
      → P (record x {
        ledger = (transition clock id (to_pending clock id why) x.ledger).1;
        effects = x.effects ++ launch_sent id ∷ [];
      })
  sent_once id why x h e = elim (Bool-cases (i == id)) [
    | inl y ↦
        let same : i ≡ id = ground arith in
        let facts = dispatch_commits clock id why x.ledger h.settled.valid e in
        record {
          once =
              rw (count_where-append (is_launch i) x.effects (launch_sent id ∷ []))
                (ground (arith, h.once, h.settled.committed, facts));
          settled = record {
            valid =
                ((transition-Keeps (Settled-Stable i _) clock id _).at x.ledger h.settled).valid;
            committed = λ _. rw same facts.1;
          };
        }
    | inr n ↦ record {
      once = rw (launches-quiet i (launch_sent id) x.effects n) h.once;
      settled =
          rw (launches-quiet i (launch_sent id) x.effects n)
            ((transition-Keeps (Settled-Stable i _) clock id _).at x.ledger h.settled);
    }
  ]

  module _ (w : World S) where
    -- What follows the launch intent.
    abbrev after_intent : ℕ → LedgerOperation → Exec (Machine S) Report
    after_intent id op = do
      accepted ← ask (w.launch_app op.appid)
      if not accepted
          then (do
            on_ledger (
                transition clock id (
                  from_to dispatch_pending State.unconfirmed
                    "launch command did not acknowledge acceptance; not replayable"))
            report id Outcome.unconfirmed "launch acceptance unknown; request will not be replayed")
          else do
            on_ledger (
                transition clock id (
                  from_to dispatch_pending State.dispatched
                    "launch requested; playability not observed"))
            report id Outcome.dispatched
                "launch requested; this broker does not observe whether the game became playable"

    after_intent-Keeps : (id : ℕ) (op : LedgerOperation) → Keeps P (after_intent id op)
    after_intent-Keeps id op = let q : Quiet P = AtMostOnce-Quiet i in search path_rules depth 10

    send_launch-Keeps : (id : ℕ) (op : LedgerOperation) → Keeps P (send_launch w clock id op)
    unfolding send_launch emit modify on_ledger ◌>>=◌
    send_launch-Keeps id op =
        Keeps-bind_value _ _ (transition_on-Keeps (AtMostOnce-Quiet i) clock id _)
          λ x u h e. (after_intent-Keeps id op).at _ (sent_once id _ x h e)

    pub execute_locked-AtMostOnce : (fuel id : ℕ) → Keeps P (execute_locked w clock fuel id)
    execute_locked-AtMostOnce =
        execute_locked-Keeps (AtMostOnce-Quiet i) (AtMostOnce-Starts i) w clock send_launch-Keeps
