-- ===== src/Scenarios/Preflights.antt =====
-- A preflight of an installation on an idle machine, and the results of Requests.Ready applied to it.
use steam_cli.Prelude.{
  ℕ, true, false, ◌&&◌, Option, none, some, [], ◌∷◌, String, str_eq, if◌then◌else◌, ◌≡◌, refl,
}
use steam_cli.Ledger.State.{install, stop, is_operation, supported_operation}
use steam_cli.Policy.Load.{ExecutionPolicy, allow, grant_for, find_grant, stop_permitted}
use steam_cli.Exec.{err, policy_error}
use steam_cli.Requests.Intent.{
  DirectRequest, intent, Config, linux, win32, require_content_provisioning,
}
use steam_cli.Requests.Readiness.{
  SessionView, blocked, undetermined, ready, is_implemented, is_provisioned, operation_preflight,
}
use steam_cli.Requests.Ready.{
  IsReady, operation_preflight-IsReady, is_ok, is_provisioned-require_content_provisioning,
}
use steam_cli.Scenarios.Worlds.{idle_gates, plain}

abbrev content_config : Config
content_config key =
    if str_eq key "steamcmd"
    then some "/usr/bin/steamcmd"
    else (if str_eq key "steam_login"
        then some "login"
        else (if str_eq key "account_alias" then some "desktop" else none))

abbrev content_policy : ExecutionPolicy
content_policy = record {
  version = "v1";
  grants = (install, allow) ∷ (stop, allow) ∷ [];
  min_free_gb = some 50;
  launch_allowlist = [];
  stop_allowlist = 570 ∷ [];
  stop_allow_force = false;
}

abbrev install_game : DirectRequest
install_game = record {
  operation = install;
  appid = 570;
  request_id = "request-1";
  account_alias = none;
  force = false;
}

abbrev stop_game : DirectRequest
stop_game = record install_game { operation = stop }

abbrev idle : SessionView
idle = record { gates = idle_gates; steamcmd_running = false }

abbrev enough_space : Option ℕ → Option String
enough_space gb = none

install_ready :
    (operation_preflight
      (λ s. s)
      content_config
      content_policy
      linux
      (some idle)
      true
      enough_space
      install_game).readiness
    ≡ ready
unfolding operation_preflight grant_for find_grant is_operation supported_operation
install_ready = refl

install_on_windows :
    (operation_preflight
      (λ s. s)
      content_config
      content_policy
      win32
      (some idle)
      true
      enough_space
      install_game).readiness
    ≡ blocked
unfolding operation_preflight grant_for find_grant is_operation supported_operation
install_on_windows = refl

stop_undetermined :
    (operation_preflight
      (λ s. s)
      content_config
      content_policy
      linux
      (some idle)
      true
      enough_space
      stop_game).readiness
    ≡ undetermined
unfolding operation_preflight grant_for find_grant is_operation stop_permitted supported_operation
stop_undetermined = refl

operation_preflight-IsReady_example :
    IsReady (λ s. s) content_config content_policy linux (some idle) true enough_space install_game
operation_preflight-IsReady_example =
    operation_preflight-IsReady (λ s. s) content_config content_policy linux (some idle) true
      enough_space install_game install_ready

is_provisioned-require_content_provisioning_example :
    ((is_implemented install linux && is_provisioned (λ s. s) content_config install_game)
      ≡ is_ok (require_content_provisioning (λ s. s) content_config install "desktop" linux))
    × (intent plain content_config (record install_game { account_alias = some "" })
        ≡ err policy_error)
unfolding is_operation
is_provisioned-require_content_provisioning_example =
    is_provisioned-require_content_provisioning (λ s. s) plain content_config linux install_game
      refl
