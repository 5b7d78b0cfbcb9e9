-- ===== src/Scenarios/Compatibility.antt =====
-- Two titles on one machine, one of them overridden, and the results of Compatibility applied to them.
use Prim.Native.Char.{Char}
use mathlib.Core.List.{Permᴰ}
use steam_cli.Prelude.{
  ℕ, Bool, true, false, none, some, List, [], ◌∷◌, inr, ◌⊎◌, ◌≡◌, refl, map, arith,
}
use steam_cli.Checked.{value_or}
use steam_cli.Ranking.Sort.{sort_by}
use steam_cli.Compatibility.Texts.{unevaluated_gate, check_ids, is_bad_text}
use steam_cli.Compatibility.Evidence.{
  check_state, pass, unknown, fresh, official, PrimitiveEvidence, nothing_observed,
}
use steam_cli.Compatibility.Target.{machine, linux, CompatibilityTarget, present, runtime}
use steam_cli.Compatibility.Candidate.{CompatibilityCandidate, nothing_known, GateOverride}
use steam_cli.Compatibility.Assess.{
  CompatibilityAssessment, CompatibilityState, compatible, conditional, undetermined,
}
use steam_cli.Compatibility.Batch.{
  validate_batch, CompatibilityBatch, overrides_for, sort_appids, batch_of, assess_compatibility,
}
use steam_cli.Compatibility.Minimum.{
  x86, x86_64, authoritative_none, MachineCapacity, MinimumRequirements,
  compare_minimum_requirements,
}
use steam_cli.Compatibility.Capacity.{compare_minimum_requirements_mono}
use steam_cli.Compatibility.Attributed.{IsAttributed}
use steam_cli.Compatibility.Backing.{IsGrounded}
use steam_cli.Compatibility.Backed.{IsSound, assess_compatibility-IsSound}
use steam_cli.Compatibility.Raises.{IsConstructed}
use steam_cli.Compatibility.Total.{IsUnevaluated, assess_compatibility_faults}
use steam_cli.Compatibility.Results.{Each, IsResultFor, assess_compatibility-IsAssessed}
use steam_cli.Compatibility.OrderFree.{assess_compatibility_reordered}

abbrev all_printable : Char → Bool
all_printable c = true

abbrev desk : CompatibilityTarget
desk = record { kind = machine; key = "desk"; platform = linux }

abbrev declared : PrimitiveEvidence
declared = record {
  state = pass;
  source = some "store";
  support_level = official;
  observed_at = some 100;
  freshness = fresh;
  evidence_ids = "row:1" ∷ [];
  conflict = false;
  unknown_reason = none;
  condition = none;
}

abbrev title : ℕ → CompatibilityCandidate
title appid = record (nothing_known appid desk declared) {
  exact_target_review = none;
  likely_good_experience = nothing_observed false "not_estimated";
}

abbrev override : ℕ → GateOverride
override appid = record {
  name = "mine";
  appid = appid;
  gate = "meets_minimum";
  effective = unknown;
  evidence_ids = "note:1" ∷ [];
  applied_at = 200;
}

abbrev titles : List CompatibilityCandidate
titles = title 20 ∷ title 10 ∷ []

abbrev asked : List ℕ
asked = 20 ∷ 10 ∷ []

abbrev batch : CompatibilityBatch
batch =
    value_or (batch_of desk [] [])
      (assess_compatibility all_printable asked titles desk [] (override 20 ∷ []))

abbrev verdicts : CompatibilityBatch → List CompatibilityState
verdicts b = map (λ (a : CompatibilityAssessment). a.compatibility) b.results

-- The first AppID is compatible, the second would be but for its override.
overridden_verdicts : verdicts batch ≡ compatible ∷ undetermined ∷ []
unfolding assess_compatibility sort_by
overridden_verdicts = refl

batch_returned :
    assess_compatibility all_printable asked titles desk [] (override 20 ∷ []) ≡ inr batch
unfolding assess_compatibility sort_by
batch_returned = refl

-- The second title with a launcher that has to be installed.
abbrev risky : CompatibilityCandidate
risky = record (title 10) {
  runtime_risks =
      record { name = "launcher"; presence = present; impact = runtime; evidence = declared } ∷ [];
}

conditional_verdict :
    verdicts (
      value_or
        (batch_of desk [] [])
        (assess_compatibility all_printable (10 ∷ []) (risky ∷ []) desk [] []))
    ≡ conditional ∷ []
unfolding assess_compatibility sort_by
conditional_verdict = refl

declared-IsAttributed : IsAttributed declared
declared-IsAttributed = record {
  source = refl;
  observed = refl;
  lineage = omega arith;
  dated = refl;
  agreed = refl;
}

title-IsGrounded : (appid : ℕ) → IsGrounded (title appid)
title-IsGrounded appid =
    let attributed = inr declared-IsAttributed in
    record {
      native_build = attributed;
      support = attributed;
      architecture = attributed;
      minimum = attributed;
      installed = attributed;
      owned = attributed;
      review = λ r e. cc;
      risks = tt;
      features = tt;
    }

assess_compatibility-IsSound_example :
    Each (λ n. IsSound (overrides_for (override 20 ∷ []) n)) (sort_appids asked) batch.results
assess_compatibility-IsSound_example =
    assess_compatibility-IsSound all_printable asked titles desk [] (override 20 ∷ []) batch
      (title-IsGrounded 20, (title-IsGrounded 10, tt)) batch_returned

assess_compatibility-IsAssessed_example :
    Each IsResultFor (sort_appids asked) batch.results
    × (batch ≡ batch_of desk (sort_appids asked) batch.results)
assess_compatibility-IsAssessed_example =
    assess_compatibility-IsAssessed all_printable asked titles desk [] (override 20 ∷ []) batch
      batch_returned

assess_compatibility_reordered_example :
    assess_compatibility all_printable asked titles desk [] (override 20 ∷ override 10 ∷ [])
    ≡ assess_compatibility all_printable
        (10 ∷ 20 ∷ [])
        (title 10 ∷ title 20 ∷ [])
        desk
        []
        (override 10 ∷ override 20 ∷ [])
assess_compatibility_reordered_example =
    assess_compatibility_reordered all_printable desk [] (Permᴰ.swap refl refl)
      (Permᴰ.swap refl refl) (Permᴰ.swap refl refl)

title-IsConstructed : (appid : ℕ) → IsConstructed all_printable (title appid)
unfolding check_ids check_state is_bad_text
title-IsConstructed appid = record {
  likely = record {
    source = refl;
    ids = refl;
    reason = refl;
    condition = refl;
    agreed = refl;
    state = refl;
  };
  risks = tt;
}

-- An override of a gate that the titles do not have.
abbrev astray : GateOverride
astray = record (override 20) { gate = "runtime:launcher" }

assess_compatibility_faults_example :
    (validate_batch asked titles desk [] (astray ∷ []) ≡ some unevaluated_gate)
    ⊎ IsUnevaluated (astray ∷ []) unevaluated_gate
unfolding assess_compatibility sort_by
assess_compatibility_faults_example =
    assess_compatibility_faults all_printable asked titles desk [] (astray ∷ []) (λ c h. refl)
      (title-IsConstructed 20, (title-IsConstructed 10, tt)) unevaluated_gate refl

abbrev capacity : ℕ → MachineCapacity
capacity ram = record {
  ram_mib = some ram;
  storage_mib = some 500;
  architecture = some x86_64;
  supported_requirement_architectures = x86 ∷ [];
}

abbrev modest : MinimumRequirements
modest = record {
  ram_mib = some 4096;
  storage_mib = some 500;
  architecture = some x86;
  cpu_text = none;
  gpu_text = none;
  cpu_state = authoritative_none;
  gpu_state = authoritative_none;
}

compare_minimum_requirements_mono_example :
    (compare_minimum_requirements (capacity 8192) modest).overall ≡ pass
unfolding compare_minimum_requirements
compare_minimum_requirements_mono_example =
    compare_minimum_requirements_mono (capacity 4096) (capacity 8192) modest
      (record {
        ram = omega arith;
        storage = omega arith;
        architecture = refl;
        supported = λ a h. h;
      })
      refl
