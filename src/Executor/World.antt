-- ===== src/Executor/World.antt =====
-- What the executor acts on: the ledger, and a world of processes and files behind the interface
-- that it calls. `World` gives the calls of execution/sessions.py, of execution/content_plane.py and
-- of the file system on a state `S`; nothing is assumed of them, and each may raise.
use steam_cli.Prelude.{ℕ, Bool, true, false, ◌&&◌, Option, List, [], ◌∷◌, ◌++◌, String}
use steam_cli.Exec.{Error, interrupt, Result, ok, err, Exec, modify}
use steam_cli.Ledger.Table.{Ledger}
use steam_cli.Ledger.Transition.{LedgerOperation}
use steam_cli.Requests.Intent.{Platform}

-- `GateState` and `LeaseGates` of execution/sessions.py.
pub data GateState : Type 0 where
  pass fail unknown : GateState

abbrev pub is_pass : GateState → Bool
is_pass pass = true
is_pass fail = false
is_pass unknown = false

abbrev pub is_fail : GateState → Bool
is_fail pass = false
is_fail fail = true
is_fail unknown = false

abbrev pub is_unknown : GateState → Bool
is_unknown pass = false
is_unknown fail = false
is_unknown unknown = true

pub record LeaseGates : Type 0 where
  pub game_running : GateState
  pub remote_play : GateState
  pub download_in_flight : GateState
  pub client_running : GateState

unfoldable pub all_clear : LeaseGates → Bool
all_clear g = is_pass g.game_running && (is_pass g.remote_play && is_pass g.download_in_flight)

-- `ContentOutcome` of execution/content_plane.py.
pub data ContentOutcome : Type 0 where
  installed auth_required content_failed : ContentOutcome

-- What `reconcile_adoption` returns.
pub data Verdict : Type 0 where
  completed restored clean stale : Verdict

-- `plan.get("install_dir_name")`
pub data PlanName : Type 0 where
  no_name not_text : PlanName
  plan_name : String → PlanName

-- A title is its AppID; a directory is a name below steamapps/common. `spawn_steamcmd` answers
-- whether the process could be started: the adapter catches the `OSError` of that call alone.
pub record World (S : Type 0) : Type 0 where
  pub platform : Platform
  pub content_provisioned : Bool
  pub gates : Exec S LeaseGates
  pub steamcmd_running : Exec S Bool
  pub client_possibly_running : Exec S Bool
  pub stop_client : Exec S Bool
  pub start_client : Exec S Bool
  pub launch_app : ℕ → Exec S Bool
  pub dispatch_policy : Option (LedgerOperation → Exec S (Option String))
  pub account_login : Option (String → Exec S (Option String))
  pub read_plan_name : String → PlanName
  pub casefold : String → String
  pub default_name : ℕ → String
  pub steamapps_is_dir : Exec S Bool
  pub library_identity : Exec S (Option (ℕ × ℕ))
  pub own_manifest_exists : ℕ → Exec S Bool
  pub own_appid : ℕ → Exec S (Option ℕ)
  pub own_install_dir : ℕ → Exec S (Option String)
  pub own_state_flags : ℕ → Exec S (Option ℕ)
  pub downloading : ℕ → Exec S Bool
  pub other_install_dirs : ℕ → Exec S (List (Option String))
  pub target_is_symlink : String → Exec S Bool
  pub target_in_library : String → Exec S Bool
  pub target_exists : String → Exec S Bool
  pub target_is_empty : String → Exec S Bool
  pub holds_a_nonempty_file : String → Exec S Bool
  pub nested_manifest : ℕ → String → Exec S Bool
  pub nested_appid : ℕ → String → Exec S (Option ℕ)
  pub marker_owns_target : ℕ → String → Exec S Bool
  pub record_owned_dir : ℕ → String → Exec S Unit
  pub spawn_steamcmd : String → ℕ → String → Bool → Exec S Bool
  pub wait_steamcmd : Exec S (Option ContentOutcome)
  pub terminate_steamcmd : Exec S ContentOutcome
  pub adopt_manifest : ℕ → String → ℕ → Exec S Unit
  pub reconcile_adoption : ℕ → ℕ → Exec S Verdict
  pub clear_adoption_journal : ℕ → Exec S Unit

-- The calls that change something outside, with the operation for which they were made.
pub data Effect : Type 0 where
  launch_sent content_started adoption_started : ℕ → Effect

pub record Machine (S : Type 0) : Type 0 where
  pub ledger : Ledger
  pub session : S
  pub effects : List Effect

module _ {S A : Type 0} where
  unfoldable pub ask : Exec S A → Exec (Machine S) A
  ask m x = let (r, s) = m x.session in (r, record x { session = s })

  unfoldable pub on_ledger : Exec Ledger A → Exec (Machine S) A
  on_ledger m x = let (r, l) = m x.ledger in (r, record x { ledger = l })

  -- `try: m except (…): handler`
  unfoldable pub resume :
      (Error → Bool) → (Error → Exec (Machine S) A) → Result A × Machine S → Result A × Machine S
  resume caught handler (ok a, x) = (ok a, x)
  resume caught handler (err e, x) = elim (caught e) [ true ↦ handler e x | false ↦ (err e, x) ]

  unfoldable pub catch :
      (Error → Bool) → Exec (Machine S) A → (Error → Exec (Machine S) A) → Exec (Machine S) A
  unfolding resume
  catch caught m handler x = resume caught handler (m x)

unfoldable pub emit : {S : Type 0} → Effect → Exec (Machine S) Unit
unfolding modify
emit e = modify (λ x. record x { effects = x.effects ++ e ∷ [] })

-- `except Exception`
abbrev pub is_exception : Error → Bool
is_exception interrupt = false
is_exception Error.exception = true
is_exception _ = true

-- `except OSError`; the escape error is a subclass.
abbrev pub is_os_error : Error → Bool
is_os_error Error.os_error = true
is_os_error Error.target_escaped = true
is_os_error _ = false

-- `except (AdoptionError, OSError)`
abbrev pub is_adoption_or_os : Error → Bool
is_adoption_or_os Error.os_error = true
is_adoption_or_os Error.target_escaped = true
is_adoption_or_os Error.adoption_error = true
is_adoption_or_os _ = false

-- `ExecuteOutcome` and `ExecutionReport`.
pub data Outcome : Type 0 where
  confirmed unconfirmed contradicted aborted failed needs_auth deferred dispatched : Outcome

pub record Report : Type 0 where
  pub operation_id : ℕ
  pub outcome : Outcome
  pub detail : String
