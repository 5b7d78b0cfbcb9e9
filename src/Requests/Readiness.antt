-- ===== src/Requests/Readiness.antt =====
-- `operation_preflight` of execution/readiness.py: what can be observed before a request, as advice.
-- The session's probes, the look for the library's directory and the disk floor are arguments.
use steam_cli.Prelude.{
  ℕ, Bool, true, false, not, ◌&&◌, ◌||◌, if◌then◌else◌, Option, none, some, List, [], ◌∷◌, String,
  str_eq, any, is_some,
}
use steam_cli.Ledger.State.{Operation, launch, stop, is_operation}
use steam_cli.Policy.Load.{ExecutionPolicy, Grant, grant_for}
use steam_cli.Requests.Intent.{
  DirectRequest, Config, get_or, permitted, Platform, linux, win32, other_platform, is_content,
  is_blank, is_configured,
}
use steam_cli.Executor.World.{GateState, is_fail, is_unknown, LeaseGates}

-- What the session answers.
pub record SessionView : Type 0 where
  pub gates : LeaseGates
  pub steamcmd_running : Bool

pub data Readiness : Type 0 where
  blocked undetermined ready : Readiness

pub record Preflight : Type 0 where
  pub operation : Operation
  pub appid : ℕ
  pub readiness : Readiness
  pub implemented : Bool
  pub provisioned : Bool
  pub grant : Grant
  pub policy_permitted : Bool
  pub activity : Option LeaseGates
  pub activity_clear : Option Bool
  pub content_disk_floor_clear : Option Bool
  pub content_writer_absent : Option Bool
  pub content_library_available : Option Bool

abbrev pub is_implemented : Operation → Platform → Bool
is_implemented op linux = true
is_implemented op win32 = not (is_content op)
is_implemented op other_platform = false

-- `request.account_alias or config.get("account_alias", "desktop")`
abbrev pub alias_or_default : Config → Option String → String
alias_or_default config none = get_or (config "account_alias") "desktop"
alias_or_default config (some alias) =
    if str_eq alias "" then get_or (config "account_alias") "desktop" else alias

unfoldable pub is_provisioned : (String → String) → Config → DirectRequest → Bool
is_provisioned strip config q =
    not (is_content q.operation)
    || (not (is_blank strip (config "steamcmd"))
        && (not (is_blank strip (config "steam_login"))
            && is_configured (config "account_alias") (alias_or_default config q.account_alias)))

abbrev pub relevant : Operation → LeaseGates → List GateState
relevant op g =
    if is_content op
    then g.game_running ∷ g.remote_play ∷ g.download_in_flight ∷ []
    else (if is_operation op launch then g.game_running ∷ g.remote_play ∷ [] else [])

unfoldable pub activity_clear : Operation → Option LeaseGates → Option Bool
activity_clear op none = none
activity_clear op (some g) =
    if is_operation op stop
    then none
    else (if any is_fail (relevant op g)
        then some false
        else (if any is_unknown (relevant op g) || is_unknown g.client_running
            then none
            else some true))

abbrev pub is_false : Option Bool → Bool
is_false none = false
is_false (some b) = not b

abbrev pub when : {A : Type 0} → Bool → Option A → Option A
when true o = o
when false o = none

abbrev pub gates_of : Option SessionView → Option LeaseGates
gates_of none = none
gates_of (some v) = some v.gates

abbrev pub writer_absent : Option SessionView → Option Bool
writer_absent none = none
writer_absent (some v) = some (not v.steamcmd_running)

-- The floor is looked at only where the policy has one.
abbrev pub floor_clear : (Option ℕ → Option String) → Option ℕ → Option Bool
floor_clear disk_floor none = none
floor_clear disk_floor (some gb) = some (not (is_some (disk_floor (some gb))))

abbrev pub readiness_of : Bool → Option Bool → Readiness
readiness_of true clear = blocked
readiness_of false none = undetermined
readiness_of false (some b) = ready

module _ (strip : String → String) (config : Config) (policy : ExecutionPolicy)
    (platform : Platform) (session : Option SessionView) (steamapps_is_dir : Bool)
    (disk_floor : Option ℕ → Option String) where
  -- `gates`, looked at only where the operation is implemented.
  abbrev pub observed : DirectRequest → Option LeaseGates
  observed q = when (is_implemented q.operation platform) (gates_of session)

  abbrev pub looks_at_content : DirectRequest → Bool
  looks_at_content q = is_content q.operation && is_implemented q.operation platform

  abbrev pub is_blocked : DirectRequest → Bool
  is_blocked q =
      not (is_implemented q.operation platform)
      || not (is_provisioned strip config q)
      || not (permitted policy q)
      || is_false (activity_clear q.operation (observed q))
      || is_false (when (is_content q.operation) (floor_clear disk_floor policy.min_free_gb))
      || is_false (when (looks_at_content q) (writer_absent session))
      || is_false (when (looks_at_content q) (some steamapps_is_dir))

  unfoldable pub operation_preflight : DirectRequest → Preflight
  unfolding is_provisioned permitted activity_clear
  operation_preflight q = record {
    operation = q.operation;
    appid = q.appid;
    readiness = readiness_of (is_blocked q) (activity_clear q.operation (observed q));
    implemented = is_implemented q.operation platform;
    provisioned = is_provisioned strip config q;
    grant = grant_for policy q.operation;
    policy_permitted = permitted policy q;
    activity = observed q;
    activity_clear = activity_clear q.operation (observed q);
    content_disk_floor_clear =
        when (is_content q.operation) (floor_clear disk_floor policy.min_free_gb);
    content_writer_absent = when (looks_at_content q) (writer_absent session);
    content_library_available = when (looks_at_content q) (some steamapps_is_dir);
  }
