-- ===== src/Compatibility/Minimum.antt =====
-- `MachineCapacity`, `MinimumRequirements` and `compare_minimum_requirements` of
-- src/steam_agent/compatibility.py.
use Prim.Native.Char.{Char}
use steam_cli.Prelude.{
  ℕ, Bool, not, ◌||◌, if◌then◌else◌, leb, Option, none, some, is_some, is_none, List, [], ◌∷◌,
  String, str_eq, any, map, select, ◌⊎◌,
}
use steam_cli.Checked.{fault_if, ◌then_check◌, checked}
use steam_cli.Ranking.Sort.{sort_by}
use steam_cli.Compatibility.Texts.{
  Fault, Check, bad_quantity, repeated_architectures, declared_without_text,
  text_without_declaration, check_text, unique_by, text_key,
}
use steam_cli.Compatibility.Evidence.{GateState, pass, fail, unknown, is_fail, is_unknown}

pub data Architecture : Type 0 where
  x86 x86_64 arm64 : Architecture

abbrev pub architecture_name : Architecture → String
architecture_name x86 = "x86"
architecture_name x86_64 = "x86_64"
architecture_name arm64 = "arm64"

abbrev pub same_architecture : Architecture → Architecture → Bool
same_architecture a b = str_eq (architecture_name a) (architecture_name b)

pub record MachineCapacity : Type 0 where
  pub ram_mib : Option ℕ
  pub storage_mib : Option ℕ
  pub architecture : Option Architecture
  pub supported_requirement_architectures : List Architecture

-- `MAX_BYTES // (1024 * 1024)`
abbrev max_mib : ℕ
max_mib = 8796093022207

abbrev check_mib : Option ℕ → Check
check_mib none = none
check_mib (some n) = fault_if (not (leb n max_mib)) bad_quantity

unfoldable pub machine_capacity : MachineCapacity → Fault ⊎ MachineCapacity
unfolding unique_by
machine_capacity m =
    checked
      (check_mib m.ram_mib
        then_check check_mib m.storage_mib
        then_check fault_if
            (not (unique_by same_architecture m.supported_requirement_architectures))
            repeated_architectures)
      (record m {
        supported_requirement_architectures =
            sort_by (λ a. text_key (architecture_name a)) m.supported_requirement_architectures;
      })

-- What is known of a requirement on a processor.
pub data PartState : Type 0 where
  missing unparsed declared authoritative_none : PartState

pub record MinimumRequirements : Type 0 where
  pub ram_mib : Option ℕ
  pub storage_mib : Option ℕ
  pub architecture : Option Architecture
  pub cpu_text : Option String
  pub gpu_text : Option String
  pub cpu_state : PartState
  pub gpu_state : PartState

abbrev check_part : PartState → Option String → Check
check_part declared text = fault_if (is_none text) declared_without_text
check_part missing text = fault_if (is_some text) text_without_declaration
check_part authoritative_none text = fault_if (is_some text) text_without_declaration
check_part unparsed text = none

unfoldable pub minimum_requirements :
    (Char → Bool) → MinimumRequirements → Fault ⊎ MinimumRequirements
minimum_requirements is_printable r =
    checked
      (check_mib r.ram_mib
        then_check check_mib r.storage_mib
        then_check check_text is_printable r.cpu_text
        then_check check_text is_printable r.gpu_text
        then_check check_part r.cpu_state r.cpu_text
        then_check check_part r.gpu_state r.gpu_text)
      r

pub record MinimumComparison : Type 0 where
  pub overall : GateState
  pub ram : GateState
  pub storage : GateState
  pub architecture : GateState
  pub cpu : GateState
  pub gpu : GateState
  pub unknowns : List String

unfoldable pub quantity_gate : Option ℕ → Option ℕ → GateState
quantity_gate none required = unknown
quantity_gate (some actual) none = unknown
quantity_gate (some actual) (some required) = if leb required actual then pass else fail

unfoldable pub architecture_gate :
    Option Architecture → Option Architecture → List Architecture → GateState
architecture_gate none required supported = unknown
architecture_gate (some actual) none supported = unknown
architecture_gate (some actual) (some required) supported =
    if same_architecture actual required || any (same_architecture required) supported
    then pass
    else unknown

unfoldable pub part_gate : PartState → GateState
part_gate authoritative_none = pass
part_gate _ = unknown

-- A failure decides, then what is unknown.
unfoldable pub overall_of : List (String × GateState) → GateState
overall_of states =
    if any (λ (s : String × GateState). is_fail s.1) states
    then fail
    else if any (λ (s : String × GateState). is_unknown s.1) states
    then unknown
    else pass

unfoldable pub comparison_of :
    GateState → GateState → GateState → GateState → GateState → MinimumComparison
unfolding overall_of
comparison_of ram storage architecture cpu gpu =
    let states : List (String × GateState) =
      ("ram", ram)
      ∷ ("storage", storage)
      ∷ ("architecture", architecture)
      ∷ ("cpu", cpu)
      ∷ ("gpu", gpu)
      ∷ [] in
    record {
      overall = overall_of states;
      ram = ram;
      storage = storage;
      architecture = architecture;
      cpu = cpu;
      gpu = gpu;
      unknowns =
          map (λ (s : String × GateState). s.0)
            (select (λ (s : String × GateState). is_unknown s.1) states);
    }

unfoldable pub compare_minimum_requirements :
    MachineCapacity → MinimumRequirements → MinimumComparison
unfolding quantity_gate architecture_gate part_gate comparison_of
compare_minimum_requirements m r =
    comparison_of (quantity_gate m.ram_mib r.ram_mib) (quantity_gate m.storage_mib r.storage_mib)
      (architecture_gate m.architecture r.architecture m.supported_requirement_architectures)
      (part_gate r.cpu_state) (part_gate r.gpu_state)
