-- ===== src/Requests/Intent.antt =====
-- `DirectRequest`, `_intent`, `_permitted` and `require_content_provisioning`.
use Prim.Native.Char.{code}
use steam_cli.Prelude.{
  ℕ, Bool, true, false, not, ◌&&◌, ◌||◌, if◌then◌else◌, String, str_eq, ◌==◌, leb, Option, none,
  some, List, [], ◌∷◌, all, length,
}
use steam_cli.Exec.{policy_error, Result, ok}
use steam_cli.Exec.Fallible.{◌>>◌, refuse_if}
use steam_cli.Ledger.State.{
  Operation, install, verify, launch, stop, is_operation, supported_operation,
}
use steam_cli.Policy.Load.{
  is_deny, max_appid, ExecutionPolicy, grant_for, launch_permitted, stop_permitted,
}

-- The code points of a text.
abbrev pub codes : String → List ℕ
codes String.[] = []
codes (String.◌∷◌ c s) = code c ∷ codes s

abbrev is_letter : ℕ → Bool
is_letter c = leb b'A' c && leb c b'Z' || leb b'a' c && leb c b'z'

abbrev is_digit : ℕ → Bool
is_digit c = leb b'0' c && leb c b'9'

-- `[A-Za-z0-9._:-]` and `[A-Za-z0-9_-]`
abbrev is_request_char : ℕ → Bool
is_request_char c = is_letter c || is_digit c || c == b'.' || c == b'_' || c == b':' || c == b'-'

abbrev is_alias_char : ℕ → Bool
is_alias_char c = is_letter c || is_digit c || c == b'_' || c == b'-'

abbrev starts_and_continues : (ℕ → Bool) → (ℕ → Bool) → List ℕ → Bool
starts_and_continues first_test rest_test [] = false
starts_and_continues first_test rest_test (c ∷ cs) = first_test c && all rest_test cs

-- `_REQUEST_ID.fullmatch` and `_ACCOUNT_ALIAS.fullmatch`
unfoldable pub matches_request_id : String → Bool
matches_request_id s =
    let cs = codes s in
    starts_and_continues (λ c. is_letter c || is_digit c) is_request_char cs
    && (leb 8 (length cs) && leb (length cs) 128)

unfoldable pub matches_account_alias : String → Bool
matches_account_alias s =
    let cs = codes s in starts_and_continues is_letter is_alias_char cs && leb (length cs) 64

-- `force` and `appid` have the types that the source checks for.
pub record DirectRequest : Type 0 where
  pub operation : Operation
  pub appid : ℕ
  pub request_id : String
  pub account_alias : Option String
  pub force : Bool

-- `config.get`
abbrev pub Config : Type 0
Config = String → Option String

abbrev pub get_or : Option String → String → String
get_or none d = d
get_or (some s) d = s

pub record Intent : Type 0 where
  pub plan_key : String
  pub plan_document : String
  pub account_alias : String
  pub machine_id : String

-- `hashlib.sha256` behind "intent:", and `json.dumps` of the five values of the document.
pub record Encoding : Type 0 where
  pub intent_key : String → String
  pub dumps : Operation → ℕ → String → String → Bool → String → String

abbrev pub chosen_alias : Config → Option String → String
chosen_alias config none = get_or (config "account_alias") "desktop"
chosen_alias config (some alias) = alias

unfoldable pub intent : Encoding → Config → DirectRequest → Result Intent
intent enc config q = do
  refuse_if (not (supported_operation q.operation)) policy_error
  refuse_if (not (leb 1 q.appid && leb q.appid max_appid)) policy_error
  refuse_if (not (matches_request_id q.request_id)) policy_error
  refuse_if (q.force && not (is_operation q.operation stop)) policy_error
  let alias = chosen_alias config q.account_alias
  refuse_if (not (matches_account_alias alias)) policy_error
  let machine = get_or (config "machine_id") "local"
  let key = enc.intent_key q.request_id
  ok (record {
    plan_key = key;
    plan_document = enc.dumps q.operation q.appid machine alias q.force key;
    account_alias = alias;
    machine_id = machine;
  })

-- `_permitted`
unfoldable pub permitted : ExecutionPolicy → DirectRequest → Bool
permitted p q =
    not (is_deny (grant_for p q.operation))
    && ((not (is_operation q.operation launch) || launch_permitted p q.appid)
        && (not (is_operation q.operation stop) || stop_permitted p q.appid q.force))

-- `sys.platform`
pub data Platform : Type 0 where
  linux win32 other_platform : Platform

abbrev pub is_linux : Platform → Bool
is_linux linux = true
is_linux win32 = false
is_linux other_platform = false

abbrev pub is_content : Operation → Bool
is_content op = is_operation op install || is_operation op verify

-- `not config.get(key, "").strip()`; `strip` is the Python method.
abbrev pub is_blank : (String → String) → Option String → Bool
is_blank strip value = str_eq (strip (get_or value "")) ""

abbrev pub is_configured : Option String → String → Bool
is_configured none alias = false
is_configured (some s) alias = str_eq alias s

unfoldable pub require_content_provisioning :
    (String → String) → Config → Operation → String → Platform → Result (Unit {0})
require_content_provisioning strip config op alias platform =
    if is_content op
    then (do
      refuse_if (not (is_linux platform)) policy_error
      refuse_if (is_blank strip (config "steamcmd")) policy_error
      refuse_if
          (is_blank strip (config "steam_login")
            || not (is_configured (config "account_alias") alias))
          policy_error)
    else ok tt
