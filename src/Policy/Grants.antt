-- ===== src/Policy/Grants.antt =====
-- What a policy that loads can grant.
use mathlib.Core.Path.{subst}
use steam_cli.Prelude.{
  ℕ, suc, ◌≤◌, Bool, true, false, ◌&&◌, String, Option, none, some, List, [], ◌∷◌, ◌≡◌, refl, ap,
  arith, any, ltb, is_some, is_none, length, All,
}
use steam_cli.Exec.{policy_error, Result, ok, err}
use steam_cli.Exec.Fallible.{
  ◌>>=◌, ◌>>◌, refuse_if, Ensures, Ensures-bind, Ensures-ok, Ensures-refuse_if,
}
use steam_cli.Ledger.State.{
  Operation, launch, stop, is_operation, is_operation-eq, supported_operation,
}
use steam_cli.Policy.Toml.{Value, Items, no_items, item, Fields, get, count_items}
use steam_cli.Policy.Load.{
  Grant, allow, is_deny, ExecutionPolicy, max_launch_allowlist, max_appid, find_grant, grant_for,
  read_appids, read_allowlist, read_policy, PolicyFile, unavailable, not_toml, document,
  load_policy, needs_floor, is_empty, granted, require, appid_value, list_value,
}

abbrev pub IsAppid : ℕ → Type 0
IsAppid n = (1 ≤ n) × (n ≤ max_appid)

-- What a loaded policy satisfies: a floor beside each "allow" but that of stop, which needs none; an
-- allowlist that is not empty beside each grant of launch and of stop that is not "deny"; and bounded
-- allowlists of AppIDs.
pub record IsSafe (p : ExecutionPolicy) : Type 0 where
  pub floor_for_allow :
      (op : Operation)
      → is_operation op stop ≡ false
      → grant_for p op ≡ allow
      → is_some p.min_free_gb ≡ true
  pub launch_listed : is_deny (grant_for p launch) ≡ false → is_empty p.launch_allowlist ≡ false
  pub stop_listed : is_deny (grant_for p stop) ≡ false → is_empty p.stop_allowlist ≡ false
  pub launch_appids : All IsAppid p.launch_allowlist
  pub stop_appids : All IsAppid p.stop_allowlist
  pub launch_bounded : length p.launch_allowlist ≤ max_launch_allowlist
  pub stop_bounded : length p.stop_allowlist ≤ max_launch_allowlist

-- A list that was read has an AppID for each item.
abbrev Listed : ℕ → Result (List ℕ) → Type 0
Listed k (ok ns) = All IsAppid ns × (length ns ≡ k)
Listed k (err _) = Unit

Listed-push :
    (k : ℕ) (o : Option ℕ) (r : Result (List ℕ))
    → ((n : ℕ) → o ≡ some n → IsAppid n)
    → Listed k r
    → Listed (suc k) (require o >>= λ n. r >>= λ ns. ok (n ∷ ns))
unfolding ◌>>=◌
Listed-push k none r f h = tt
Listed-push k (some n) (err _) f h = tt
Listed-push k (some n) (ok ns) f h = ((f n refl, h.0), ap suc h.1)

appid_value-IsAppid : (v : Value) (n : ℕ) → appid_value v ≡ some n → IsAppid n
appid_value-IsAppid v n h = ground arith

read_appids-Listed : (xs : Items) → Listed (count_items xs) (read_appids xs)
unfolding read_appids
read_appids-Listed no_items = (tt, refl)
read_appids-Listed (item v vs) =
    Listed-push (count_items vs) (appid_value v) (read_appids vs) (appid_value-IsAppid v)
      (read_appids-Listed vs)

abbrev Bounded : Result (List ℕ) → Type 0
Bounded (ok ns) = All IsAppid ns × (length ns ≤ max_launch_allowlist)
Bounded (err _) = Unit

Bounded-checked :
    (b : Bool) (k : ℕ) (r : Result (List ℕ))
    → (b ≡ false → k ≤ max_launch_allowlist)
    → Listed k r
    → Bounded (refuse_if b policy_error >> r)
unfolding ◌>>=◌
Bounded-checked true k r f h = tt
Bounded-checked false k (err _) f h = tt
Bounded-checked false k (ok ns) f h = (h.0, omega (arith, f refl, h.1))

read_allowlist-Bounded : (fs : Fields) → Bounded (read_allowlist fs)
unfolding read_allowlist ◌>>=◌
read_allowlist-Bounded fs = go (get "allowed_appids" fs)
  where
    go_items :
        (o : Option Items)
        → Bounded (
            require o >>= λ xs.
            refuse_if (ltb max_launch_allowlist (count_items xs)) policy_error >> read_appids xs)
    go_items none = tt
    go_items (some xs) =
        Bounded-checked (ltb max_launch_allowlist (count_items xs)) (count_items xs)
          (read_appids xs) (λ h. ground arith) (read_appids-Listed xs)

    go :
        (o : Option Value)
        → Bounded (elim o [
          | none ↦ ok []
          | some v ↦ require (list_value v) >>= λ xs.
              refuse_if (ltb max_launch_allowlist (count_items xs)) policy_error >> read_appids xs
        ])
    go none = (tt, omega arith)
    go (some v) = go_items (list_value v)

Bounded-ok :
    (r : Result (List ℕ)) (ns : List ℕ)
    → Bounded r
    → r ≡ ok ns
    → All IsAppid ns × (length ns ≤ max_launch_allowlist)
Bounded-ok r ns h e = subst Bounded e h

allow_needs_floor :
    (op : Operation) (grants : List (Operation × Grant))
    → is_operation op stop ≡ false
    → find_grant op grants ≡ allow
    → any needs_floor grants ≡ true
unfolding find_grant
allow_needs_floor op [] s h = cc
allow_needs_floor op ((o, g) ∷ rest) s h =
    ground (arith, allow_needs_floor op rest s, is_operation-eq o op)

-- The facts that the checks of a document leave behind.
record Checked (p : ExecutionPolicy) : Type 0 where
  floor : (is_none p.min_free_gb && any needs_floor p.grants) ≡ false
  launch_pair : (granted launch p.grants && is_empty p.launch_allowlist) ≡ false
  stop_pair : (granted stop p.grants && is_empty p.stop_allowlist) ≡ false
  launch_list : Bounded (ok p.launch_allowlist)
  stop_list : Bounded (ok p.stop_allowlist)

read_policy-Checked : (v : String) (doc : Fields) → Ensures Checked (read_policy v doc)
unfolding read_policy
read_policy-Checked v doc = Ensures-refuse_if _ _ _ λ _. Ensures-bind _ _ λ grants_table _.
    Ensures-bind _ _ λ grants _. Ensures-bind _ _ λ limits _. Ensures-bind _ _ λ floor _.
      Ensures-refuse_if _ _ _ λ floored. Ensures-bind _ _ λ launch_table _.
        Ensures-refuse_if _ _ _ λ _. Ensures-bind _ _ λ allowlist read.
          Ensures-refuse_if _ _ _ λ launched. Ensures-bind _ _ λ stop_table _.
            Ensures-refuse_if _ _ _ λ _. Ensures-bind _ _ λ entries read'.
              Ensures-bind _ _ λ force _. Ensures-refuse_if _ _ _ λ stopped. Ensures-ok _ (record {
                floor = floored;
                launch_pair = launched;
                stop_pair = stopped;
                launch_list = subst Bounded read (read_allowlist-Bounded launch_table);
                stop_list = subst Bounded read' (read_allowlist-Bounded stop_table);
              })

Checked-IsSafe : {p : ExecutionPolicy} → Checked p → IsSafe p
unfolding grant_for
Checked-IsSafe {p} c = record {
  floor_for_allow = λ op s a. ground (arith, c.floor, allow_needs_floor op p.grants s);
  launch_listed = λ g. unfold supported_operation in ground (arith, c.launch_pair);
  stop_listed = λ g. unfold supported_operation in ground (arith, c.stop_pair);
  launch_appids = c.launch_list.0;
  stop_appids = c.stop_list.0;
  launch_bounded = c.launch_list.1;
  stop_bounded = c.stop_list.1;
}

-- A policy file that loads grants "allow" to install, verify and launch only beside a disk floor, and
-- "allow" or "confirm" to launch and to stop only beside an allowlist of its own that is not empty;
-- each of the two lists has at most 256 AppIDs, each a positive number of 32 bits. A stop is granted
-- "allow" without a floor too.
pub load_policy-IsSafe :
    (file : PolicyFile) {p : ExecutionPolicy} → load_policy file ≡ ok p → IsSafe p
unfolding load_policy
load_policy-IsSafe unavailable h = cc
load_policy-IsSafe not_toml h = cc
load_policy-IsSafe (document v doc) {p} h = Checked-IsSafe ((read_policy-Checked v doc).of p h)
