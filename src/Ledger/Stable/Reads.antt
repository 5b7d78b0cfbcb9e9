-- ===== src/Ledger/Stable/Reads.antt =====
-- The queries of execution/ledger.py write nothing but the clock's count.
use steam_cli.Prelude.{ℕ, Option, none, some, String}
use steam_cli.Exec.Keeps.{keeps_rules, Keeps, Keeps-bind, Keeps-pure}
use steam_cli.Ledger.Table.{Row, Ledger}
use steam_cli.Ledger.Transition.{or_missing}
use steam_cli.Ledger.Reads.{get_optional, active, plan_document, window_valid, later_than_now}
use steam_cli.Ledger.Stable.{Stable, utcnow-Keeps}
use steam_cli.Ledger.Stable.Methods.{get-Keeps}

module _ {Mint : String → Type 0} {P : Ledger → Type 0} (st : Stable Mint P) where
  get_optional-Keeps : (o : Option Row) → Keeps P (get_optional o)
  get_optional-Keeps none = search keeps_rules
  get_optional-Keeps (some r) = Keeps-bind _ _ (get-Keeps st r.operation_id) λ op. Keeps-pure _

  pub active-Keeps : Keeps P active
  unfolding active
  active-Keeps = search (keeps_rules, get_optional-Keeps)

  or_missing-Keeps : {A : Type 0} (o : Option A) → Keeps P (or_missing o)
  or_missing-Keeps none = search keeps_rules
  or_missing-Keeps (some a) = search keeps_rules

  pub plan_document-Keeps : (id : ℕ) → Keeps P (plan_document id)
  unfolding plan_document
  plan_document-Keeps id = search (keeps_rules, or_missing-Keeps) depth 8

  later-Keeps : (clock : ℕ → ℕ) (t : Option ℕ) → Keeps P (later_than_now clock t)
  later-Keeps clock none = search keeps_rules
  later-Keeps clock (some t) = Keeps-bind _ _ (utcnow-Keeps st clock) λ now. Keeps-pure _

  pub window_valid-Keeps : (clock : ℕ → ℕ) (id : ℕ) → Keeps P (window_valid clock id)
  unfolding window_valid
  window_valid-Keeps clock id = Keeps-bind _ _ (get-Keeps st id) λ op. later-Keeps clock _
