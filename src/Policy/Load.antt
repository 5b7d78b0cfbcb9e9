-- ===== src/Policy/Load.antt =====
-- `ExecutionPolicy` and `load_policy` of execution/policy.py.
use steam_cli.Prelude.{
  ℕ, Bool, true, false, not, ◌&&◌, ◌||◌, if◌then◌else◌, String, str_eq, ◌==◌, leb, ltb, Option,
  none, some, List, [], ◌∷◌, any, is_none,
}
use steam_cli.Exec.{policy_error, Result, ok, err}
use steam_cli.Exec.Fallible.{◌>>=◌, ◌>>◌, refuse_if}
use steam_cli.Ledger.State.{
  Operation, install, verify, launch, stop, is_operation, supported_operation,
}
use steam_cli.Policy.Toml.{
  natural, negative, Value, boolean, integer, text, array, table, real_or_date, Items, no_items,
  item, Fields, no_fields, field, get, only_keys, count_items, subtable,
}

pub data Grant : Type 0 where
  allow confirm deny : Grant

abbrev pub is_allow : Grant → Bool
is_allow allow = true
is_allow confirm = false
is_allow deny = false

abbrev pub is_deny : Grant → Bool
is_deny deny = true
is_deny allow = false
is_deny confirm = false

-- `MAX_LAUNCH_ALLOWLIST` and `_MAX_APPID`
abbrev pub max_launch_allowlist : ℕ
max_launch_allowlist = 256

abbrev pub max_appid : ℕ
max_appid = 4294967295

-- `ExecutionPolicy`; the dictionary of grants is an association list, a set is a list of its items.
pub record ExecutionPolicy : Type 0 where
  pub version : String
  pub grants : List (Operation × Grant)
  pub min_free_gb : Option ℕ
  pub launch_allowlist : List ℕ
  pub stop_allowlist : List ℕ
  pub stop_allow_force : Bool

-- `grants.get(operation, "deny")`
unfoldable pub find_grant : Operation → List (Operation × Grant) → Grant
find_grant op [] = deny
find_grant op ((o, g) ∷ rest) =
    let later = find_grant op rest in if is_operation o op then g else later

unfoldable pub grant_for : ExecutionPolicy → Operation → Grant
unfolding find_grant
grant_for p op = if supported_operation op then find_grant op p.grants else deny

abbrev pub is_in : ℕ → List ℕ → Bool
is_in n xs = any (λ x. x == n) xs

unfoldable pub launch_permitted : ExecutionPolicy → ℕ → Bool
launch_permitted p appid = is_in appid p.launch_allowlist

unfoldable pub stop_permitted : ExecutionPolicy → ℕ → Bool → Bool
stop_permitted p appid force = is_in appid p.stop_allowlist && (not force || p.stop_allow_force)

-- `SUPPORTED_GRANTS`: the operation that a key of [grants] names.
abbrev pub grant_key : String → Option Operation
grant_key k =
    if str_eq k "install"
    then some install
    else if str_eq k "verify"
    then some verify
    else if str_eq k "launch"
    then some launch
    else if str_eq k "stop"
    then some stop
    else none

abbrev pub grant_value : Value → Option Grant
grant_value (text s) =
    if str_eq s "allow"
    then some allow
    else if str_eq s "confirm"
    then some confirm
    else if str_eq s "deny"
    then some deny
    else none
grant_value (boolean _) = none
grant_value (integer _) = none
grant_value (array _) = none
grant_value (table _) = none
grant_value real_or_date = none

abbrev pub require {ℓ} : {A : Type ℓ} → Option A → Result A
require none = err policy_error
require (some a) = ok a

-- The loop over [grants].
unfoldable pub read_grants : Fields → Result (List (Operation × Grant))
read_grants no_fields = ok []
read_grants (field k v fs) =
    let rest = read_grants fs in
    do op ← require (grant_key k); g ← require (grant_value v); gs ← rest; ok ((op, g) ∷ gs)

abbrev pub floor_value : Value → Option ℕ
floor_value (integer (natural n)) = some n
floor_value (integer (negative _)) = none
floor_value (boolean _) = none
floor_value (text _) = none
floor_value (array _) = none
floor_value (table _) = none
floor_value real_or_date = none

-- [limits]
unfoldable pub read_floor : Fields → Result (Option ℕ)
read_floor limits = do
  refuse_if (not (only_keys ("min_free_gb" ∷ []) limits)) policy_error
  elim (get "min_free_gb" limits) [
    | none ↦ ok none
    | some v ↦ do n ← require (floor_value v); ok (some n)
  ]

abbrev pub appid_value : Value → Option ℕ
appid_value (integer (natural n)) = if leb 1 n && leb n max_appid then some n else none
appid_value (integer (negative _)) = none
appid_value (boolean _) = none
appid_value (text _) = none
appid_value (array _) = none
appid_value (table _) = none
appid_value real_or_date = none

unfoldable pub read_appids : Items → Result (List ℕ)
read_appids no_items = ok []
read_appids (item v vs) =
    let rest = read_appids vs in do n ← require (appid_value v); ns ← rest; ok (n ∷ ns)

abbrev pub list_value : Value → Option Items
list_value (array xs) = some xs
list_value (boolean _) = none
list_value (integer _) = none
list_value (text _) = none
list_value (table _) = none
list_value real_or_date = none

-- `allowed_appids` of [launch] and of [stop]: a bounded list of AppIDs, empty where it is left out.
unfoldable pub read_allowlist : Fields → Result (List ℕ)
unfolding read_appids
read_allowlist fs = elim (get "allowed_appids" fs) [
  | none ↦ ok []
  | some v ↦ do
    xs ← require (list_value v)
    refuse_if (ltb max_launch_allowlist (count_items xs)) policy_error
    read_appids xs
]

abbrev pub force_value : Value → Option Bool
force_value (boolean b) = some b
force_value (integer _) = none
force_value (text _) = none
force_value (array _) = none
force_value (table _) = none
force_value real_or_date = none

unfoldable pub read_force : Fields → Result Bool
read_force fs = elim (get "allow_force" fs) [ none ↦ ok false | some v ↦ require (force_value v) ]

-- `value == "allow"` of a key other than "stop".
abbrev pub needs_floor : Operation × Grant → Bool
needs_floor (op, g) = is_allow g && not (is_operation op stop)

abbrev pub granted : Operation → List (Operation × Grant) → Bool
granted op grants = not (is_deny (find_grant op grants))

abbrev pub is_empty {ℓ} : {A : Type ℓ} → List A → Bool
is_empty [] = true
is_empty (_ ∷ _) = false

-- The document's own checks, in the order of the source.
unfoldable pub read_policy : String → Fields → Result ExecutionPolicy
read_policy version document = do
  refuse_if (not (only_keys ("grants" ∷ "limits" ∷ "launch" ∷ "stop" ∷ []) document)) policy_error
  grants_table ← require (subtable "grants" document)
  grants ← read_grants grants_table
  limits_table ← require (subtable "limits" document)
  min_free_gb ← read_floor limits_table
  refuse_if (is_none min_free_gb && any needs_floor grants) policy_error
  launch_table ← require (subtable "launch" document)
  refuse_if (not (only_keys ("allowed_appids" ∷ []) launch_table)) policy_error
  allowlist ← read_allowlist launch_table
  refuse_if (granted launch grants && is_empty allowlist) policy_error
  stop_table ← require (subtable "stop" document)
  refuse_if (not (only_keys ("allowed_appids" ∷ "allow_force" ∷ []) stop_table)) policy_error
  stop_entries ← read_allowlist stop_table
  stop_force ← read_force stop_table
  refuse_if (granted stop grants && is_empty stop_entries) policy_error
  ok (record {
    version = version;
    grants = grants;
    min_free_gb = min_free_gb;
    launch_allowlist = allowlist;
    stop_allowlist = stop_entries;
    stop_allow_force = stop_force;
  })

-- What reading and parsing the file gives: `version` is the start of the digest of its bytes.
pub data PolicyFile : Type 0 where
  unavailable not_toml : PolicyFile
  document : (version : String) → Fields → PolicyFile

unfoldable pub load_policy : PolicyFile → Result ExecutionPolicy
unfolding read_policy
load_policy unavailable = err policy_error
load_policy not_toml = err policy_error
load_policy (document version fields) = read_policy version fields
