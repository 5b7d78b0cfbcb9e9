-- ===== src/Scenarios/Worlds.antt =====
-- A machine on which Steam runs and every probe passes, one policy, and one request for each end.
use steam_cli.Prelude.{ℕ, ◌*◌, ◌+◌, Bool, true, false, none, some, List, [], ◌∷◌, String}
use steam_cli.Exec.{Exec, pure}
use steam_cli.Ledger.State.{Operation, launch}
use steam_cli.Ledger.Table.{Ledger}
use steam_cli.Ledger.Intake.{Request}
use steam_cli.Ledger.History.{Call, request_call, confirm_call, empty_ledger, history}
use steam_cli.Policy.Toml.{
  natural, integer, text, array, table, no_items, item, Fields, no_fields, field,
}
use steam_cli.Policy.Load.{PolicyFile, document}
use steam_cli.Requests.Intent.{DirectRequest, Encoding, Config, linux}
use steam_cli.Requests.Intake.{Surroundings}
use steam_cli.Executor.World.{pass, fail, LeaseGates, installed, completed, no_name, World, Machine}

-- The system's clock gains a second at each reading.
abbrev pub clock : ℕ → ℕ
clock k = 1000 + k

abbrev pub idle_gates : LeaseGates
idle_gates = record {
  game_running = pass;
  remote_play = pass;
  download_in_flight = pass;
  client_running = fail;
}

abbrev answer : {A : Type 0} → A → Exec (Unit {0}) A
answer a = pure a

-- Steam is up, and `accepts` says whether it takes a launch.
abbrev pub desktop : Bool → World (Unit {0})
desktop accepts = record {
  platform = linux;
  content_provisioned = true;
  gates = answer idle_gates;
  steamcmd_running = answer false;
  client_possibly_running = answer false;
  stop_client = answer true;
  start_client = answer true;
  launch_app = λ appid. answer accepts;
  dispatch_policy = none;
  account_login = none;
  read_plan_name = λ plan. no_name;
  casefold = λ s. s;
  default_name = λ appid. "app";
  steamapps_is_dir = answer true;
  library_identity = answer (some (1, 2));
  own_manifest_exists = λ appid. answer false;
  own_appid = λ appid. answer (some appid);
  own_install_dir = λ appid. answer none;
  own_state_flags = λ appid. answer (some 4);
  downloading = λ appid. answer false;
  other_install_dirs = λ appid. answer [];
  target_is_symlink = λ name. answer false;
  target_in_library = λ name. answer true;
  target_exists = λ name. answer false;
  target_is_empty = λ name. answer true;
  holds_a_nonempty_file = λ name. answer true;
  nested_manifest = λ appid name. answer true;
  nested_appid = λ appid name. answer (some appid);
  marker_owns_target = λ appid name. answer false;
  record_owned_dir = λ appid name. answer tt;
  spawn_steamcmd = λ login appid name validating. answer true;
  wait_steamcmd = answer (some installed);
  terminate_steamcmd = answer installed;
  adopt_manifest = λ appid name id. answer tt;
  reconcile_adoption = λ appid id. answer completed;
  clear_adoption_journal = λ appid. answer tt;
}

-- The same without Steam.
abbrev pub console : World (Unit {0})
console = record (desktop true) { gates = answer (record idle_gates { client_running = pass }) }

abbrev pub ask_for : Operation → String → Request
ask_for op key = record {
  plan_key = key;
  plan_document = "document";
  operation = op;
  appid = 570;
  account_alias = "desktop";
  machine_id = "local";
  policy_version = "v1";
  nonce_ttl_seconds = 900;
}

-- One operation that was requested and confirmed.
abbrev pub confirmed_calls : Operation → List Call
confirmed_calls op = request_call (ask_for op "key") "nonce" ∷ confirm_call "nonce" "owner" 600 ∷ []

abbrev pub authorized_ledger : Operation → Ledger
authorized_ledger op = history clock (confirmed_calls op) empty_ledger

abbrev pub machine : Operation → Machine (Unit {0})
machine op = record { ledger = authorized_ledger op; session = tt; effects = [] }

-- [grants] launch = "allow", [limits] min_free_gb = 50, [launch] allowed_appids = [570]
abbrev pub policy_fields : Fields
policy_fields = field "grants" (table (field "launch" (text "allow") no_fields)) (
    field "limits" (table (field "min_free_gb" (integer (natural 50)) no_fields)) (
      field "launch"
        (table (field "allowed_appids" (array (item (integer (natural 570)) no_items)) no_fields))
        no_fields))

abbrev pub policy_file : PolicyFile
policy_file = document "v1" policy_fields

abbrev pub no_config : Config
no_config key = none

abbrev pub plain : Encoding
plain = record { intent_key = λ id. id; dumps = λ op appid machine alias force key. key }

abbrev pub surroundings : Surroundings
surroundings = record {
  config = no_config;
  platform = linux;
  first_policy = policy_file;
  second_policy = policy_file;
  free_bytes = some (100 * 1000000000);
  fresh_nonce = "nonce";
  strip = λ s. s;
  encoding = plain;
}

abbrev pub launch_request : DirectRequest
launch_request = record {
  operation = launch;
  appid = 570;
  request_id = "request-1";
  account_alias = none;
  force = false;
}
