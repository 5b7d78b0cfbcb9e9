-- ===== src/Executor/Paths.antt =====
-- What every path of `_execute_locked` and `_reconcile_locked` in execution/executor.py is made of: a
-- property that the calls below keep is kept by each path, whatever the world answers or raises.
pub mod Content
pub mod Recovery
pub mod Lease
pub mod Launch
use steam_cli.Prelude.{ℕ, Bool, true, false, Option, none, some, String}
use steam_cli.Exec.{Error, Result, ok, err, Exec}
use steam_cli.Exec.Keeps.{Keeps, keeps_rules}
use steam_cli.Ledger.Intake.{expire_lapsed}
use steam_cli.Ledger.Transition.{LedgerOperation, Move, get, transition}
use steam_cli.Ledger.Reads.{active, plan_document, window_valid}
use steam_cli.Executor.World.{
  World, content_started, adoption_started, Machine, ask, on_ledger, emit, catch, resume,
}
use steam_cli.Executor.Restore.{
  Failure, consult, content_policy_denial, restore_client, finish_failure, abort_intake,
  defer_content_policy,
}

-- The calls that start nothing.
pub record Quiet {S : Type 0} (P : Machine S → Type 0) : Type 1 where
  pub asks : {A : Type 0} (m : Exec S A) → Keeps P (ask m)
  pub transitions :
      (clock : ℕ → ℕ) (id : ℕ) (m : Move) → Keeps P (on_ledger (transition clock id m))
  pub expiries : (clock : ℕ → ℕ) → Keeps P (on_ledger (expire_lapsed clock))
  pub windows : (clock : ℕ → ℕ) (id : ℕ) → Keeps P (on_ledger (window_valid clock id))
  pub lookups : (id : ℕ) → Keeps P (on_ledger (get id))
  pub actives : Keeps P (on_ledger active)
  pub plans : (id : ℕ) → Keeps P (on_ledger (plan_document id))

-- The starts of steamcmd and of an adoption.
pub record Starts {S : Type 0} (P : Machine S → Type 0) : Type 0 where
  pub contents : (id : ℕ) → Keeps P (emit (content_started id))
  pub adoptions : (id : ℕ) → Keeps P (emit (adoption_started id))

module _ {S : Type 0} {P : Machine S → Type 0} where
  or_again :
      {A : Type 0} (b : Bool) (e : Error) (m : Exec (Machine S) A) (y : Machine S)
      → Keeps P m
      → P y
      → P (elim b as (λ _. Result A × Machine S) [ true ↦ m y | false ↦ (err e, y) ]).1
  or_again true e m y k h = k.at y h
  or_again false e m y k h = h

  pub catch-Keeps :
      {A : Type 0} (caught : Error → Bool) (m : Exec (Machine S) A)
      (handler : Error → Exec (Machine S) A)
      → Keeps P m
      → ((e : Error) → Keeps P (handler e))
      → Keeps P (catch caught m handler)
  unfolding catch resume
  catch-Keeps {A} caught m handler km kh = record { at = λ x h. go (m x).0 (m x).1 (km.at x h) }
    where
      go : (r : Result A) (y : Machine S) → P y → P (resume caught handler (r, y)).1
      go (ok a) y h = h
      go (err e) y h = or_again (caught e) e (handler e) y (kh e) h

  pub contents-Keeps : (st : Starts P) (id : ℕ) → Keeps P (emit (content_started id))
  contents-Keeps st id = st.contents id

  pub adoptions-Keeps : (st : Starts P) (id : ℕ) → Keeps P (emit (adoption_started id))
  adoptions-Keeps st id = st.adoptions id

module _ {S : Type 0} {P : Machine S → Type 0} (q : Quiet P) where
  pub ask-Keeps : {A : Type 0} (m : Exec S A) → Keeps P (ask m)
  ask-Keeps m = q.asks m

  pub transition_on-Keeps :
      (clock : ℕ → ℕ) (id : ℕ) (m : Move) → Keeps P (on_ledger (transition clock id m))
  transition_on-Keeps clock id m = q.transitions clock id m

  pub expire_on-Keeps : (clock : ℕ → ℕ) → Keeps P (on_ledger (expire_lapsed clock))
  expire_on-Keeps clock = q.expiries clock

  pub window_on-Keeps : (clock : ℕ → ℕ) (id : ℕ) → Keeps P (on_ledger (window_valid clock id))
  window_on-Keeps clock id = q.windows clock id

  pub get_on-Keeps : (id : ℕ) → Keeps P (on_ledger (get id))
  get_on-Keeps id = q.lookups id

  pub active_on-Keeps : Keeps P (on_ledger active)
  active_on-Keeps = q.actives

  pub plan_on-Keeps : (id : ℕ) → Keeps P (on_ledger (plan_document id))
  plan_on-Keeps id = q.plans id

  pub ruleset path_rules = (
    keeps_rules, catch-Keeps, ask-Keeps, transition_on-Keeps, expire_on-Keeps, window_on-Keeps,
    get_on-Keeps, active_on-Keeps, plan_on-Keeps,
  )

  module _ (w : World S) (clock : ℕ → ℕ) where
    consult-Keeps :
        (policy : Option (LedgerOperation → Exec S (Option String))) (op : LedgerOperation)
        → Keeps P (consult w clock policy op)
    unfolding consult
    consult-Keeps none op = search path_rules
    consult-Keeps (some policy) op = search path_rules depth 8

    pub content_policy_denial-Keeps :
        (op : LedgerOperation) → Keeps P (content_policy_denial w clock op)
    unfolding content_policy_denial
    content_policy_denial-Keeps op = consult-Keeps w.dispatch_policy op

    pub restore_client-Keeps : (prior : Option Bool) → Keeps P (restore_client w clock prior)
    unfolding restore_client
    restore_client-Keeps prior = search path_rules depth 8

    pub finish_failure-Keeps :
        (id : ℕ) (prior : Option Bool) (f : Failure) → Keeps P (finish_failure w clock id prior f)
    unfolding finish_failure
    finish_failure-Keeps id prior f = search (path_rules, restore_client-Keeps) depth 8

    pub abort_intake-Keeps :
        (id : ℕ) (prior : Option Bool) (detail message : String)
        → Keeps P (abort_intake w clock id prior detail message)
    unfolding abort_intake
    abort_intake-Keeps id prior detail message = finish_failure-Keeps id prior _

    pub defer_content_policy-Keeps :
        (op : LedgerOperation) (why : String) → Keeps P (defer_content_policy w clock op why)
    unfolding defer_content_policy
    defer_content_policy-Keeps op why = search (path_rules, restore_client-Keeps) depth 8
