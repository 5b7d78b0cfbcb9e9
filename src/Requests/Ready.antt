-- ===== src/Requests/Ready.antt =====
-- What a preflight of execution/readiness.py that says "ready" has seen, and that it agrees with the
-- intake on what is provisioned.
use mathlib.Core.Path.{subst}
use mathlib.Core.Option.{some-injective}
use steam_cli.Prelude.{
  ℕ, Bool, true, false, not, ◌&&◌, ◌||◌, Option, none, some, List, [], ◌∷◌, String, str_eq, any,
  all, is_some, if◌then◌else◌, ◌≡◌, refl, arith, Bool-cases, inl, inr,
}
use steam_cli.Exec.{policy_error, Result, ok, err}
use steam_cli.Exec.Fallible.{◌>>=◌}
use steam_cli.Ledger.State.{Operation, stop, is_operation}
use steam_cli.Policy.Load.{ExecutionPolicy}
use steam_cli.Requests.Intent.{
  DirectRequest, Config, Encoding, intent, matches_account_alias, permitted, Platform, is_content,
  chosen_alias, require_content_provisioning,
}
use steam_cli.Executor.World.{GateState, is_pass, is_fail, is_unknown, LeaseGates}
use steam_cli.Requests.Readiness.{
  SessionView, ready, is_implemented, alias_or_default, is_provisioned, relevant, activity_clear,
  is_false, when, gates_of, writer_absent, floor_clear, readiness_of, observed, looks_at_content,
  is_blocked, operation_preflight,
}

all_pass_lem :
    (gs : List GateState)
    → any is_fail gs ≡ false
    → any is_unknown gs ≡ false
    → all is_pass gs ≡ true
all_pass_lem [] h k = refl
all_pass_lem (g ∷ gs) h k = ground (arith, all_pass_lem gs)

clear_lem :
    (op : Operation) (g : LeaseGates)
    → activity_clear op (some g) ≡ some true
    → (is_operation op stop ≡ false)
      × (all is_pass (relevant op g) ≡ true)
      × (is_unknown g.client_running ≡ false)
unfolding activity_clear
clear_lem op g h =
    (ground arith, all_pass_lem (relevant op g) (ground arith) (ground arith), ground arith)

ready_lem :
    (b : Bool) (o : Option Bool) → readiness_of b o ≡ ready → (b ≡ false) × (is_some o ≡ true)
ready_lem true o h = cc
ready_lem false none h = cc
ready_lem false (some b) h = (refl, refl)

true_lem : (o : Option Bool) → is_some o ≡ true → is_false o ≡ false → o ≡ some true
true_lem none h k = cc
true_lem (some true) h k = refl
true_lem (some false) h k = cc

observed_lem :
    (op : Operation) (b : Bool) (s : Option SessionView)
    → activity_clear op (when b (gates_of s)) ≡ some true
    → (v : SessionView) × (s ≡ some v) × (activity_clear op (some v.gates) ≡ some true)
unfolding activity_clear
observed_lem op true none h = cc
observed_lem op true (some v) h = (v, refl, h)
observed_lem op false s h = cc

free_lem :
    (i p a c f w d : Bool)
    → (not i || not p || not a || c || f || w || d) ≡ false
    → (i ≡ true) × (p ≡ true) × (a ≡ true) × (c ≡ false) × (f ≡ false) × (w ≡ false) × (d ≡ false)
free_lem i p a c f w d h = (
  ground arith,
  ground arith,
  ground arith,
  ground arith,
  ground arith,
  ground arith,
  ground arith,
)

floor_lem :
    (disk_floor : Option ℕ → Option String) (o : Option ℕ) (gb : ℕ)
    → is_false (floor_clear disk_floor o) ≡ false
    → o ≡ some gb
    → disk_floor (some gb) ≡ none
floor_lem disk_floor none gb h e = cc
floor_lem disk_floor (some n) gb h e = ground (arith, e)

writer_lem :
    (s : Option SessionView) (v : SessionView)
    → is_false (writer_absent s) ≡ false
    → s ≡ some v
    → v.steamcmd_running ≡ false
writer_lem none v h e = cc
writer_lem (some u) v h e =
    subst (λ x. x.steamcmd_running ≡ false) (some-injective _ _ e) (ground arith)

and_lem : (b c : Bool) → b ≡ true → c ≡ true → (b && c) ≡ true
and_lem b c h k = ground arith

library_lem : (b : Bool) → is_false (some b) ≡ false → b ≡ true
library_lem b h = ground arith

when_lem :
    (b : Bool) (o : Option Bool) → b ≡ true → is_false (when b o) ≡ false → is_false o ≡ false
when_lem true o h k = k
when_lem false o h k = cc

module _ (strip : String → String) (config : Config) (policy : ExecutionPolicy)
    (platform : Platform) (session : Option SessionView) (steamapps_is_dir : Bool)
    (disk_floor : Option ℕ → Option String) where
  abbrev seen_gates : DirectRequest → Option LeaseGates
  seen_gates q = observed strip config policy platform session steamapps_is_dir disk_floor q

  abbrev content_seen : DirectRequest → Bool
  content_seen q =
      looks_at_content strip config policy platform session steamapps_is_dir disk_floor q

  -- What "ready" means.
  pub record IsReady (q : DirectRequest) : Type 0 where
    pub implemented : is_implemented q.operation platform ≡ true
    pub provisioned : is_provisioned strip config q ≡ true
    pub allowed : permitted policy q ≡ true
    pub not_stop : is_operation q.operation stop ≡ false
    pub view : SessionView
    pub seen : session ≡ some view
    pub clear : all is_pass (relevant q.operation view.gates) ≡ true
    pub client_known : is_unknown view.gates.client_running ≡ false
    pub content :
        is_content q.operation ≡ true
        → (view.steamcmd_running ≡ false)
          × (steamapps_is_dir ≡ true)
          × ((gb : ℕ) → policy.min_free_gb ≡ some gb → disk_floor (some gb) ≡ none)

  -- A preflight that says "ready" has seen the session: the operation is implemented, provisioned and
  -- permitted and is not a stop, every gate that matters for it passes, the client is known, and for
  -- content no steamcmd runs, the library is there and a floor that the policy sets is met.
  pub operation_preflight-IsReady :
      (q : DirectRequest)
      → (operation_preflight strip config policy platform session steamapps_is_dir disk_floor
          q).readiness
        ≡ ready
      → IsReady q
  unfolding operation_preflight
  operation_preflight-IsReady q h =
      let (free, seen) =
        ready_lem (is_blocked strip config policy platform session steamapps_is_dir disk_floor q)
          (activity_clear q.operation (seen_gates q)) h in
      let (implemented, provisioned, allowed, not_false, floor, writer, library) =
        free_lem _ _ _ _ _ _ _ free in
      let (v, is_view, clear) =
        observed_lem q.operation (is_implemented q.operation platform) session
          (true_lem (activity_clear q.operation (seen_gates q)) seen not_false) in
      let (not_stop, passes, known) = clear_lem q.operation v.gates clear in
      record {
        implemented = implemented;
        provisioned = provisioned;
        allowed = allowed;
        not_stop = not_stop;
        view = v;
        seen = is_view;
        clear = passes;
        client_known = known;
        content = λ c. (
          writer_lem session v (when_lem (content_seen q) _ (both c implemented) writer) is_view,
          library_lem steamapps_is_dir (when_lem (content_seen q) _ (both c implemented) library),
          λ gb e. floor_lem disk_floor policy.min_free_gb gb (when_lem _ _ c floor) e,
        );
      }
    where
      both :
          is_content q.operation ≡ true
          → is_implemented q.operation platform ≡ true
          → content_seen q ≡ true
      both c i = and_lem (is_content q.operation) _ c i

abbrev pub is_ok : Result (Unit {0}) → Bool
is_ok (ok u) = true
is_ok (err e) = false

-- The alias of a request; the empty text stands for none.
abbrev pub unless_empty : Option String → Option String
unless_empty none = none
unless_empty (some s) = if str_eq s "" then none else some s

alias_lem :
    (config : Config) (o : Option String)
    → alias_or_default config o ≡ chosen_alias config (unless_empty o)
alias_lem config none = refl
alias_lem config (some s) = elim (Bool-cases (str_eq s "")) [
  | inl e ↦ ground arith
  | inr e ↦ ground arith
]

empty_alias_refused :
    (enc : Encoding) (config : Config) (q : DirectRequest)
    → intent enc config (record q { account_alias = some "" }) ≡ err policy_error
unfolding intent matches_account_alias ◌>>=◌
empty_alias_refused enc config q = ground arith

-- For an operation on content, a preflight finds it implemented and provisioned exactly when the
-- intake's check of the provisioning lets it pass with the alias of the request, or the default if
-- the request gives no alias or the empty text. The intake itself refuses the empty text.
pub is_provisioned-require_content_provisioning :
    (strip : String → String) (enc : Encoding) (config : Config) (platform : Platform)
    (q : DirectRequest)
    → is_content q.operation ≡ true
    → ((is_implemented q.operation platform && is_provisioned strip config q)
        ≡ is_ok (
            require_content_provisioning strip config q.operation
              (chosen_alias config (unless_empty q.account_alias))
              platform))
      × (intent enc config (record q { account_alias = some "" }) ≡ err policy_error)
unfolding is_provisioned require_content_provisioning ◌>>=◌
is_provisioned-require_content_provisioning strip enc config platform q c =
    (ground (arith, alias_lem config q.account_alias), empty_alias_refused enc config q)
