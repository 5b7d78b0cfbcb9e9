-- ===== src/Compatibility/OrderFree.antt =====
-- `assess_compatibility` of src/steam_agent/compatibility.py does not depend on the order of its
-- AppIDs, candidates and overrides.
use Prim.Native.Char.{Char}
use mathlib.Core.List.{Permᴰ}
use steam_cli.Prelude.{
  ℕ, Bool, true, not, ◌==◌, none, List, [], ◌∷◌, any, map, ◌⊎◌, inr, ◌≡◌, refl, ap, ◌∙◌, arith,
}
use steam_cli.Checked.{then_check-none, checked_then-cong, ◌>>=◌}
use steam_cli.Ranking.Order.{Key, nat, pos}
use steam_cli.Ranking.Reorder.{
  is_unique, is_unique-Permᴰ, any-Permᴰ, map-Permᴰ, length-Permᴰ, sort_by-Permᴰ,
}
use steam_cli.Compatibility.Texts.{Fault, unique_by}
use steam_cli.Compatibility.Target.{CompatibilityTarget, FeatureRequirement, same_target}
use steam_cli.Compatibility.Candidate.{CompatibilityCandidate, GateOverride}
use steam_cli.Compatibility.Assess.{CompatibilityAssessment}
use steam_cli.Compatibility.Batch.{
  CompatibilityBatch, is_in, is_bad_appid, same_override, validate_compatibility_request,
  validate_batch, component_count, component_counts, assess_one, assess_each, sort_appids, batch_of,
  assess_compatibility,
}
use steam_cli.Compatibility.Lookup.{unique_by-Permᴰ, any-cong}
use steam_cli.Compatibility.Interchange.{same_override-symmetric, assess_one-Permᴰ}

assess_each-cong :
    (one two : ℕ → Fault ⊎ CompatibilityAssessment)
    → ((n : ℕ) → one n ≡ two n)
    → (ns : List ℕ) → assess_each one ns ≡ assess_each two ns
unfolding assess_each
assess_each-cong one two same [] = refl
assess_each-cong one two same (n ∷ ns) =
    ap (λ m. m >>= λ result. assess_each one ns >>= λ results. inr (result ∷ results)) (same n)
    ∙ ap (λ m. two n >>= λ result. m >>= λ results. inr (result ∷ results))
        (assess_each-cong one two same ns)

component_counts-Permᴰ :
    {cs ds : List CompatibilityCandidate} → Permᴰ cs ds → component_counts cs ≡ component_counts ds
component_counts-Permᴰ Permᴰ.nil = refl
component_counts-Permᴰ (Permᴰ.cons e d) =
    omega (arith, component_counts-Permᴰ d, ap component_count e)
component_counts-Permᴰ (Permᴰ.swap e d) = omega (arith, ap component_count e, ap component_count d)
component_counts-Permᴰ (Permᴰ.trans d e) = component_counts-Permᴰ d ∙ component_counts-Permᴰ e

-- The AppIDs that are not among the requested ones, in any order of both.
strays-Permᴰ {ℓ} :
    {A : Type ℓ} (ident : A → ℕ) {ns ms : List ℕ} {xs ys : List A}
    → Permᴰ ns ms
    → Permᴰ xs ys
    → any (λ x. not (is_in ns (ident x))) xs ≡ any (λ x. not (is_in ms (ident x))) ys
strays-Permᴰ ident {ns} {ms} {xs} {ys} d e =
    any-cong (λ x. not (is_in ns (ident x))) (λ x. not (is_in ms (ident x))) xs
      (λ x. ap not (any-Permᴰ (λ m. m == ident x) d))
    ∙ any-Permᴰ (λ x. not (is_in ms (ident x))) e

validate_compatibility_request-Permᴰ :
    (requirements : List FeatureRequirement) {ns ms : List ℕ} {os ps : List GateOverride}
    → Permᴰ ns ms
    → Permᴰ os ps
    → validate_compatibility_request ns requirements os 0
      ≡ validate_compatibility_request ms requirements ps 0
unfolding validate_compatibility_request
validate_compatibility_request-Permᴰ requirements {ns} {ms} {os} {ps} d e = rw (
  length-Permᴰ d,
  length-Permᴰ e,
  any-Permᴰ is_bad_appid d,
  is_unique-Permᴰ d,
  unique_by-Permᴰ same_override same_override-symmetric e,
  strays-Permᴰ (λ (o : GateOverride). o.appid) d e,
)

validate_batch-Permᴰ :
    (target : CompatibilityTarget) (requirements : List FeatureRequirement) {ns ms : List ℕ}
    {cs ds : List CompatibilityCandidate} {os ps : List GateOverride}
    → Permᴰ ns ms
    → Permᴰ cs ds
    → Permᴰ os ps
    → validate_batch ns cs target requirements os ≡ validate_batch ms ds target requirements ps
unfolding validate_batch
validate_batch-Permᴰ target requirements {ns} {ms} {cs} {ds} {os} {ps} d c e = rw (
  validate_compatibility_request-Permᴰ requirements d e,
  is_unique-Permᴰ (map-Permᴰ (λ (c : CompatibilityCandidate). c.appid) c),
  strays-Permᴰ (λ (c : CompatibilityCandidate). c.appid) d c,
  any-Permᴰ (λ (c : CompatibilityCandidate). not (same_target c.target target)) c,
  length-Permᴰ d,
  component_counts-Permᴰ c,
)

-- What a valid request says of repetitions.
valid_request :
    (requested : List ℕ) (requirements : List FeatureRequirement) (overrides : List GateOverride)
    → validate_compatibility_request requested requirements overrides 0 ≡ none
    → (is_unique requested ≡ true) × (unique_by same_override overrides ≡ true)
unfolding validate_compatibility_request
valid_request requested requirements overrides h = (ground arith, ground arith)

valid_batch :
    (requested : List ℕ) (candidates : List CompatibilityCandidate) (target : CompatibilityTarget)
    (requirements : List FeatureRequirement) (overrides : List GateOverride)
    → validate_batch requested candidates target requirements overrides ≡ none
    → (is_unique requested ≡ true)
      × (unique_by same_override overrides ≡ true)
      × (is_unique (map (λ (c : CompatibilityCandidate). c.appid) candidates) ≡ true)
unfolding validate_batch
valid_batch requested candidates target requirements overrides h =
    let (request, rest) =
      then_check-none (validate_compatibility_request requested requirements overrides 0) _ h in
    let (only, once) = valid_request requested requirements overrides request in
    (only, once, ground arith)

sort_appids-Permᴰ :
    {ns ms : List ℕ} → Permᴰ ns ms → is_unique ns ≡ true → sort_appids ns ≡ sort_appids ms
sort_appids-Permᴰ {ns} d only =
    sort_by-Permᴰ (λ n. nat n ∷ []) (λ n. n) (λ a b same. ap number_of same) d
      (ap is_unique (map_self ns) ∙ only)
  where
    number_of : Key → ℕ
    number_of [] = 0
    number_of (k ∷ ks) = elim k [ [] ↦ 0 | z ∷ zs ↦ elim z [ pos n ↦ n | _ ↦ 0 ] ]

    map_self : (ns : List ℕ) → map (λ n. n) ns ≡ ns
    map_self [] = refl
    map_self (n ∷ ns) = ap (λ ms. n ∷ ms) (map_self ns)

-- The same AppIDs, candidates and overrides in any order give the same batch, or the same fault.
pub assess_compatibility_reordered :
    (is_printable : Char → Bool) (target : CompatibilityTarget)
    (requirements : List FeatureRequirement) {ns ms : List ℕ} {cs ds : List CompatibilityCandidate}
    {os ps : List GateOverride}
    → Permᴰ ns ms
    → Permᴰ cs ds
    → Permᴰ os ps
    → assess_compatibility is_printable ns cs target requirements os
      ≡ assess_compatibility is_printable ms ds target requirements ps
unfolding assess_compatibility
assess_compatibility_reordered is_printable target requirements {ns} {ms} {cs} {ds} {os} {ps} d c
      e =
    checked_then-cong (validate_batch ns cs target requirements os)
      (validate_batch ms ds target requirements ps) (validate_batch-Permᴰ target requirements d c e)
      (λ valid.
        let (only, once, alone) = valid_batch ns cs target requirements os valid in
        ap (from cs os) (sort_appids-Permᴰ d only)
        ∙ ap (λ m. m >>= λ results. inr (batch_of target (sort_appids ms) results))
            (assess_each-cong (assess_one is_printable target requirements cs os)
              (assess_one is_printable target requirements ds ps)
              (λ n. assess_one-Permᴰ is_printable target requirements n c e alone once)
              (sort_appids ms)))
  where
    from : List CompatibilityCandidate → List GateOverride → List ℕ → Fault ⊎ CompatibilityBatch
    from xs rs appids =
        assess_each (assess_one is_printable target requirements xs rs) appids >>= λ results.
        inr (batch_of target appids results)
