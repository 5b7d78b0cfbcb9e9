-- ===== src/Requests/Consent.antt =====
-- Nothing is authorized without a grant that still stands.
use mathlib.Core.List.{Memᴰ}
use steam_cli.Prelude.{
  ℕ, ◌*◌, ◌^◌, ◌≤◌, true, false, not, ◌||◌, ◌==◌, String, Option, none, some, List, [], ◌∷◌, ◌≡◌,
  ◌≢◌, refl, ap, arith, inl, inr, Bool-cases,
}
use steam_cli.Exec.{Result, ok, err}
use steam_cli.Exec.Gives.{Gives, Gives-pure, Gives-if, Gives-bind, Gives-raise_if}
use steam_cli.Ledger.State.{
  Operation, launch, stop, authorized, is_operation, is_operation_refl, is_operation-eq,
  supported_operation,
}
use steam_cli.Ledger.Table.{Ledger}
use steam_cli.Ledger.Intake.{request, confirm, expire_lapsed, default_execution_window_seconds}
use steam_cli.Ledger.Transition.{LedgerOperation}
use steam_cli.Ledger.Reads.{find_request}
use steam_cli.Policy.Load.{
  Grant, allow, deny, is_allow, is_in, ExecutionPolicy, find_grant, grant_for, launch_permitted,
  stop_permitted, load_policy,
}
use steam_cli.Requests.Intent.{
  DirectRequest, Intent, intent, permitted, require_content_provisioning,
}
use steam_cli.Requests.Intake.{
  Receipt, Surroundings, lift, floor_denial, floor_verdict, reuse, confirm_unless, auto_confirm,
  record_new, record_or_reuse, to_request, reuse_or_record, recorded, reused_receipt,
}

-- The allowlist that an AppID must be on: that of its operation, for a launch and for a stop.
pub record IsListed (policy : ExecutionPolicy) (q : DirectRequest) : Type 0 where
  pub launched : q.operation ≡ launch → Memᴰ q.appid policy.launch_allowlist
  pub stopped : q.operation ≡ stop → Memᴰ q.appid policy.stop_allowlist
  pub forced : q.operation ≡ stop → q.force ≡ true → policy.stop_allow_force ≡ true

-- A measured disk with at least as many gigabytes free as the policy asks for.
pub record HasRoom (free : Option ℕ) (policy : ExecutionPolicy) : Type 0 where
  pub bytes : ℕ
  pub gigabytes : ℕ
  pub measured : free ≡ some bytes
  pub floor : policy.min_free_gb ≡ some gigabytes
  pub enough : gigabytes * 10 ^ 9 ≤ bytes

-- The policy as it is at the second read grants the operation without a question, lists its AppID,
-- and, unless the operation is a stop, the disk has room.
pub record StillAllowed (w : Surroundings) (q : DirectRequest) : Type 0 where
  pub policy : ExecutionPolicy
  pub loads : load_policy w.second_policy ≡ ok policy
  pub allows : find_grant q.operation policy.grants ≡ allow
  pub lists : IsListed policy q
  pub roomy : q.operation ≢ stop → HasRoom w.free_bytes policy

is_allow-eq : (g : Grant) → is_allow g ≡ true → g ≡ allow
is_allow-eq allow h = refl
is_allow-eq Grant.confirm h = cc
is_allow-eq deny h = cc

is_in-Memᴰ : (n : ℕ) (xs : List ℕ) → is_in n xs ≡ true → Memᴰ n xs
is_in-Memᴰ n [] h = cc
is_in-Memᴰ n (x ∷ xs) h = elim (Bool-cases (x == n)) [
  | inl e ↦ Memᴰ.head (ground (arith, e))
  | inr other ↦ Memᴰ.tail (is_in-Memᴰ n xs (ground arith))
]

permitted-IsListed :
    (policy : ExecutionPolicy) (q : DirectRequest) → permitted policy q ≡ true → IsListed policy q
unfolding permitted launch_permitted stop_permitted
permitted-IsListed policy q h = record {
  launched = λ e.
      is_in-Memᴰ q.appid policy.launch_allowlist
        (ground (arith, ap (is_operation q.operation) e, is_operation_refl q.operation));
  stopped = λ e.
      is_in-Memᴰ q.appid policy.stop_allowlist
        (ground (arith, ap (is_operation q.operation) e, is_operation_refl q.operation));
  forced = λ e f. ground (arith, ap (is_operation q.operation) e, is_operation_refl q.operation);
}

floor_denial-HasRoom :
    (free : Option ℕ) (policy : ExecutionPolicy) (gb : Option ℕ)
    → policy.min_free_gb ≡ gb
    → floor_denial free gb ≡ none
    → HasRoom free policy
unfolding floor_denial
floor_denial-HasRoom free policy none e h = cc
floor_denial-HasRoom none policy (some gb) e h = cc
floor_denial-HasRoom (some bytes) policy (some gb) e h = record {
  bytes = bytes;
  gigabytes = gb;
  measured = refl;
  floor = e;
  enough = ground arith;
}

grant_for-allows :
    (policy : ExecutionPolicy) (op : Operation)
    → is_allow (grant_for policy op) ≡ true
    → find_grant op policy.grants ≡ allow
unfolding grant_for
grant_for-allows policy op h = elim (Bool-cases (supported_operation op)) [
  | inl s ↦ is_allow-eq (find_grant op policy.grants) (ground arith)
  | inr u ↦ ground arith
]

floor_verdict-HasRoom :
    (w : Surroundings) (q : DirectRequest) (policy : ExecutionPolicy)
    → floor_verdict w q policy ≡ none
    → q.operation ≢ stop
    → HasRoom w.free_bytes policy
floor_verdict-HasRoom w q policy h other =
    floor_denial-HasRoom w.free_bytes policy policy.min_free_gb refl
      (ground (arith, is_operation-eq q.operation stop))

-- What a receipt may say.
abbrev Honest : Surroundings → DirectRequest → Receipt → Type 0
Honest w q r = r.reused ≡ false → r.state ≡ authorized → StillAllowed w q

reused-Honest :
    (w : Surroundings) (q : DirectRequest) (r : Receipt) → r.reused ≡ true → Honest w q r
reused-Honest w q r e u v = cc

recorded-Honest :
    (w : Surroundings) (q : DirectRequest) (id : ℕ) (nonce : String) (denied : Option String)
    → Honest w q (recorded id nonce denied)
recorded-Honest w q id nonce denied u v = cc

confirm_unless-Honest :
    (clock : ℕ → ℕ) (w : Surroundings) (q : DirectRequest) (id : ℕ) (nonce : String)
    (p : ExecutionPolicy) (verdict : Option String)
    → (verdict ≡ none → StillAllowed w q)
    → Gives (Honest w q) (confirm_unless clock id nonce p verdict)
unfolding confirm_unless
confirm_unless-Honest clock w q id nonce p (some denied) k =
    Gives-pure _ (recorded-Honest w q id nonce (some denied))
confirm_unless-Honest clock w q id nonce p none k =
    Gives-bind (confirm clock nonce _ default_execution_window_seconds) _
      λ _. Gives-pure _ (λ u v. k refl)

auto_confirm-Honest :
    (clock : ℕ → ℕ) (w : Surroundings) (q : DirectRequest) (id : ℕ) (nonce : String)
    (read : Result ExecutionPolicy)
    → load_policy w.second_policy ≡ read
    → Gives (Honest w q) (auto_confirm clock w q id nonce read)
unfolding auto_confirm
auto_confirm-Honest clock w q id nonce (err _) e = Gives-pure _ (recorded-Honest w q id nonce none)
auto_confirm-Honest clock w q id nonce (ok p) e =
    Gives-if (not (is_allow (grant_for p q.operation)) || not (permitted p q)) _ _
      (λ _. Gives-pure _ (recorded-Honest w q id nonce none))
      λ granted. confirm_unless-Honest clock w q id nonce p _ λ f. record {
        policy = p;
        loads = e;
        allows = grant_for-allows p q.operation (ground arith);
        lists = permitted-IsListed p q (ground arith);
        roomy = floor_verdict-HasRoom w q p f;
      }

reuse-Honest :
    (w : Surroundings) (q : DirectRequest) (i : Intent) (found : LedgerOperation × Option String)
    → Gives (Honest w q) (reuse i found)
unfolding reuse
reuse-Honest w q i (op, nonce) =
    Gives-raise_if _ _ _ λ _. Gives-pure _ (reused-Honest w q (reused_receipt op nonce) refl)

record_new-Honest :
    (clock : ℕ → ℕ) (w : Surroundings) (q : DirectRequest) (i : Intent)
    → Gives (Honest w q) (record_new clock w q i)
unfolding record_new
record_new-Honest clock w q i = Gives-bind (lift (load_policy w.first_policy)) _ λ p.
    Gives-raise_if _ _ _ λ _.
      Gives-bind
        (lift
          (require_content_provisioning w.strip w.config q.operation i.account_alias w.platform))
        _
        λ _.
          Gives-bind (request clock (to_request i q p) w.fresh_nonce) _
            λ minted. auto_confirm-Honest clock w q minted.0 minted.1 _ refl

reuse_or_record-Honest :
    (clock : ℕ → ℕ) (w : Surroundings) (q : DirectRequest) (i : Intent)
    (existing : Option (LedgerOperation × Option String))
    → Gives (Honest w q) (reuse_or_record clock w q i existing)
reuse_or_record-Honest clock w q i none = record_new-Honest clock w q i
reuse_or_record-Honest clock w q i (some found) = reuse-Honest w q i found

-- Whatever the ledger holds, a receipt that reports a fresh authorization was given only under a
-- policy that, read after the request was recorded, grants the operation "allow", with the AppID of
-- a launch on the launch allowlist, that of a stop on the stop allowlist, a forced stop where force
-- is allowed, and, unless the operation is a stop, which needs no floor, with at least the free
-- space measured that the policy's floor asks for.
pub authorized_only_under_allow :
    (clock : ℕ → ℕ) (w : Surroundings) (q : DirectRequest) (s : Ledger) (r : Receipt)
    → (record_or_reuse clock w q s).0 ≡ ok r
    → r.reused ≡ false
    → r.state ≡ authorized
    → StillAllowed w q
unfolding record_or_reuse
authorized_only_under_allow clock w q s r =
    (Gives-bind (lift (intent w.encoding w.config q)) _ λ i. Gives-bind (expire_lapsed clock) _ λ _.
        Gives-bind (find_request i.plan_key i.plan_document true) _
          λ existing. reuse_or_record-Honest clock w q i existing).of
      s r
