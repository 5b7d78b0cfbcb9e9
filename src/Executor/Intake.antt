-- ===== src/Executor/Intake.antt =====
-- The checks of `_execute_locked` that choose the install directory and prove that it is this
-- title's, with `safe_install_dir_name`: execution/executor.py.
use Prim.Native.String.{len}
use steam_cli.Prelude.{
  ℕ, ◌/◌, ◌%◌, Bool, true, false, not, ◌&&◌, ◌||◌, if◌then◌else◌, Option, none, some, List, [], ◌∷◌,
  String, str_eq, ◌==◌, ltb, any,
}
use steam_cli.Exec.{Exec, pure, ◌>>=◌}
use steam_cli.Ledger.Transition.{LedgerOperation}
use steam_cli.Requests.Intent.{codes}
use steam_cli.Executor.World.{
  World, PlanName, no_name, not_text, plan_name, Machine, ask, catch, is_os_error, Report,
}
use steam_cli.Executor.Restore.{abort_intake}

-- `any(character in name for character in ("/", "\\", '"'))` and the control characters.
abbrev is_unsafe_char : ℕ → Bool
is_unsafe_char c = c == 47 || c == 92 || c == 34 || ltb c 32

unfoldable pub safe_install_dir_name : String → Bool
safe_install_dir_name name =
    if str_eq name "" || str_eq name "." || str_eq name ".."
    then false
    else not (any is_unsafe_char (codes name)) && not (ltb 255 (len name))

-- A check either ends the execution with a report or hands a value on.
pub data Step (A : Type 0) : Type 0 where
  done : Report → Step A
  proceed : A → Step A

module _ {S A : Type 0} where
  abbrev pub follow : Step A → (A → Exec (Machine S) Report) → Exec (Machine S) Report
  follow (done r) k = pure r
  follow (proceed a) k = k a

module _ {S : Type 0} (w : World S) (clock : ℕ → ℕ) where
  unfoldable pub refuse :
      {A : Type 0} → LedgerOperation → String → String → Exec (Machine S) (Step A)
  refuse op detail message = do
    r ← abort_intake w clock op.operation_id op.prior_client_running detail message
    pure (done r)

  abbrev same_text : Option ℕ → ℕ → Bool
  same_text none n = false
  same_text (some m) n = m == n

  -- The directory that the title's own manifest names wins.
  unfoldable pub name_of_manifest :
      LedgerOperation → String → Option String → Exec (Machine S) (Step String)
  name_of_manifest op name none =
      refuse op "existing manifest unreadable" "existing manifest for this title is unreadable"
  name_of_manifest op name (some existing) =
      if not (str_eq name "") && not (str_eq (w.casefold name) (w.casefold existing))
      then refuse op "plan name conflicts with existing install directory"
          "plan install_dir_name conflicts with the existing install directory; move is not an executable operation"
      else pure (proceed existing)

  unfoldable pub name_for : LedgerOperation → Bool → String → Exec (Machine S) (Step String)
  name_for op validating name = do
    exists ← ask (w.own_manifest_exists op.appid)
    if exists
        then (do
          found ← ask (w.own_appid op.appid)
          if not (same_text found op.appid)
              then refuse op "existing manifest appid mismatch"
                  "existing manifest for this title has a mismatched appid"
              else do
                existing ← ask (w.own_install_dir op.appid)
                name_of_manifest op name existing)
        else if validating
        then refuse op "verify requires an existing install"
            "this title is not installed; verify repairs an install rather than creating one"
        else if str_eq name ""
        then pure (proceed (w.default_name op.appid))
        else pure (proceed name)

  unfoldable pub choose_name : LedgerOperation → Bool → PlanName → Exec (Machine S) (Step String)
  choose_name op validating not_text =
      refuse op "unsafe install_dir_name" "install_dir_name must be a string"
  choose_name op validating no_name = name_for op validating ""
  choose_name op validating (plan_name name) = name_for op validating name

  -- Valve's FullyInstalled bit, 1 << 2.
  abbrev has_installed_bit : Option ℕ → Bool
  has_installed_bit none = false
  has_installed_bit (some flags) = flags / 4 % 2 == 1

  unfoldable pub check_content : LedgerOperation → Bool → String → Exec (Machine S) (Step Unit)
  check_content op validating name = if not validating then pure (proceed tt) else do
    flags ← ask (w.own_state_flags op.appid)
    full ← if has_installed_bit flags then ask (w.holds_a_nonempty_file name) else pure false
    if not full
        then refuse op "verify found no installed content"
            "this title is not fully installed on disk; verify repairs an install rather than creating one"
        else pure (proceed tt)

  unfoldable pub check_target : LedgerOperation → Bool → String → Exec (Machine S) (Step Unit)
  check_target op validating name =
      if not (safe_install_dir_name name)
      then refuse op "unsafe install_dir_name" "install_dir_name must be a single path component"
      else do
        link ← ask (w.target_is_symlink name)
        if link then refuse op "install target is a symlink" "install target is a symlink" else do
          inside ← catch is_os_error (ask (w.target_in_library name)) (λ _. pure false)
          if not inside
              then refuse op "install target escapes library"
                  "install target resolves outside the library"
              else check_content op validating name

  unfoldable pub check_others :
      LedgerOperation → String → List (Option String) → Exec (Machine S) (Step Unit)
  check_others op name [] = pure (proceed tt)
  check_others op name (none ∷ rest) =
      refuse op "cannot inspect another manifest"
        "another title's manifest is unreadable; collision unprovable"
  check_others op name (some other ∷ rest) =
      let later = check_others op name rest in
      if str_eq (w.casefold other) (w.casefold name)
      then refuse op "install_dir_name claimed by another title"
          "install_dir_name belongs to another installed title"
      else later

  abbrev names_same : Option String → String → Bool
  names_same none name = false
  names_same (some dir) name = str_eq (w.casefold dir) (w.casefold name)

  -- The four kinds of evidence, each looked for only if those before it failed.
  unfoldable pub owned : LedgerOperation → String → Option String → Exec (Machine S) Bool
  owned op name own_dir = do
    nested ← ask (w.nested_manifest op.appid name)
    id ← if nested then ask (w.nested_appid op.appid name) else pure none
    if same_text id op.appid then pure true else if names_same own_dir name then pure true else do
      marked ← ask (w.marker_owns_target op.appid name)
      if marked then pure true else ask (w.target_is_empty name)

  unfoldable pub check_owned : LedgerOperation → String → Exec (Machine S) (Step Unit)
  check_owned op name = do
    exists ← ask (w.target_exists name)
    if not exists then pure (proceed tt) else do
      own_dir ← ask (w.own_install_dir op.appid)
      mine ← catch is_os_error (owned op name own_dir) (λ _. pure false)
      if not mine
          then refuse op "existing target directory not owned by this title"
              "existing target directory is not owned by this title"
          else pure (proceed tt)
