-- ===== src/Compatibility/Capacity.antt =====
-- `compare_minimum_requirements` of src/steam_agent/compatibility.py on machines with more capacity.
use mathlib.Core.Path.{subst}
use steam_cli.Prelude.{ℕ, ◌≤◌, true, Option, none, some, List, any, ◌≡◌, arith}
use steam_cli.Compatibility.Evidence.{GateState, pass}
use steam_cli.Compatibility.Minimum.{
  Architecture, same_architecture, MachineCapacity, MinimumRequirements, quantity_gate,
  architecture_gate, part_gate, comparison_of, compare_minimum_requirements,
}

-- A known quantity, and at least that much.
abbrev pub IsEnough : Option ℕ → Option ℕ → Type 0
IsEnough none more = Unit
IsEnough (some n) none = ⊥
IsEnough (some n) (some more) = n ≤ more

-- What the first machine is known to have, the second has.
pub record HasAll (m n : MachineCapacity) : Type 0 where
  pub ram : IsEnough m.ram_mib n.ram_mib
  pub storage : IsEnough m.storage_mib n.storage_mib
  pub architecture : m.architecture ≡ n.architecture
  pub supported :
      (a : Architecture)
      → any (same_architecture a) m.supported_requirement_architectures ≡ true
      → any (same_architecture a) n.supported_requirement_architectures ≡ true

quantity_gate_mono :
    (have more required : Option ℕ)
    → IsEnough have more
    → quantity_gate have required ≡ pass
    → quantity_gate more required ≡ pass
unfolding quantity_gate
quantity_gate_mono none more required e h = cc
quantity_gate_mono (some n) none required e h = absurd e
quantity_gate_mono (some n) (some k) none e h = cc
quantity_gate_mono (some n) (some k) (some r) e h = ground arith

architecture_gate_mono :
    (actual required : Option Architecture) (xs ys : List Architecture)
    → ((a : Architecture)
        → any (same_architecture a) xs ≡ true
        → any (same_architecture a) ys ≡ true)
    → architecture_gate actual required xs ≡ pass
    → architecture_gate actual required ys ≡ pass
unfolding architecture_gate
architecture_gate_mono none required xs ys s h = cc
architecture_gate_mono (some a) none xs ys s h = cc
architecture_gate_mono (some a) (some r) xs ys s h = ground (arith, s r)

-- The overall state is `pass` exactly when all five are.
overall-pass :
    (a b c d e : GateState)
    → (comparison_of a b c d e).overall ≡ pass
    → (a ≡ pass) × (b ≡ pass) × (c ≡ pass) × (d ≡ pass) × (e ≡ pass)
unfolding comparison_of
overall-pass a b c d e h = (ground arith, ground arith, ground arith, ground arith, ground arith)

pass-overall :
    (a b c d e : GateState)
    → a ≡ pass
    → b ≡ pass
    → c ≡ pass
    → d ≡ pass
    → e ≡ pass
    → (comparison_of a b c d e).overall ≡ pass
unfolding comparison_of
pass-overall a b c d e p q r s t = rw (p, q, r, s, t)

-- A machine of the same architecture, whose memory and storage are known to be at least those of
-- another and which supports every architecture that the other supports, meets every minimum that the
-- other meets.
pub compare_minimum_requirements_mono :
    (m n : MachineCapacity) (r : MinimumRequirements)
    → HasAll m n
    → (compare_minimum_requirements m r).overall ≡ pass
    → (compare_minimum_requirements n r).overall ≡ pass
unfolding compare_minimum_requirements
compare_minimum_requirements_mono m n r more h =
    let (ram, storage, architecture, cpu, gpu) =
      overall-pass (quantity_gate m.ram_mib r.ram_mib) (quantity_gate m.storage_mib r.storage_mib)
        (architecture_gate m.architecture r.architecture m.supported_requirement_architectures)
        (part_gate r.cpu_state) (part_gate r.gpu_state) h in
    let compared =
      architecture_gate_mono m.architecture r.architecture m.supported_requirement_architectures
        n.supported_requirement_architectures more.supported architecture in
    pass-overall (quantity_gate n.ram_mib r.ram_mib) (quantity_gate n.storage_mib r.storage_mib)
      (architecture_gate n.architecture r.architecture n.supported_requirement_architectures)
      (part_gate r.cpu_state) (part_gate r.gpu_state)
      (quantity_gate_mono m.ram_mib n.ram_mib r.ram_mib more.ram ram)
      (quantity_gate_mono m.storage_mib n.storage_mib r.storage_mib more.storage storage)
      (subst (λ a. architecture_gate a r.architecture n.supported_requirement_architectures ≡ pass)
        more.architecture compared)
      cpu gpu
