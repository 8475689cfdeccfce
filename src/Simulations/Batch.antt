-- ===== src/Simulations/Batch.antt =====
-- Which batches validateMultiSimHomogeneous accepts.
use brainapi_go_sdk.Prelude.{
  length, ap, ◌≤◌, text_eq_iff, Text, arith, ◌↔◌, ◌≢◌, List, is_empty, ◌≡◌, ℤ, [], ◌∷◌, none, true,
  false, refl,
}
use brainapi_go_sdk.Types.{SimulationRequest}
use brainapi_go_sdk.Simulations.{eq_ℤ, same_settings, validate_each, validate_multi_sim_homogeneous}

-- Two requests agree in type, instrument type, region, delay and language.
pub record Agree (r s : SimulationRequest) : Type 0 where
  pub kinds : r.kind ≡ s.kind
  pub instruments : r.settings.instrument_type ≡ s.settings.instrument_type
  pub regions : r.settings.region ≡ s.settings.region
  pub delays : r.settings.delay ≡ s.settings.delay
  pub languages : r.settings.language ≡ s.settings.language

-- Every request of a list has a type and agrees with the first.
abbrev pub Alike : SimulationRequest → List SimulationRequest → Type 0
Alike first [] = Unit {0}
Alike first (r ∷ rs) = (r.kind ≢ []) × Agree r first × Alike first rs

eq_ℤ_lem : (a b : ℤ) → eq_ℤ a b ≡ true → a ≡ b
eq_ℤ_lem a b h = ground arith

eq_ℤ_refl : (a : ℤ) → eq_ℤ a a ≡ true
eq_ℤ_refl a = ground arith

same-Agree : (r s : SimulationRequest) → same_settings r s ≡ true → Agree r s
unfolding same_settings
same-Agree r s h = record {
  kinds = (text_eq_iff r.kind s.kind).0 (ground arith);
  instruments =
      (text_eq_iff r.settings.instrument_type s.settings.instrument_type).0 (ground arith);
  regions = (text_eq_iff r.settings.region s.settings.region).0 (ground arith);
  delays = eq_ℤ_lem r.settings.delay s.settings.delay (ground arith);
  languages = (text_eq_iff r.settings.language s.settings.language).0 (ground arith);
}

Agree-same : (r s : SimulationRequest) → Agree r s → same_settings r s ≡ true
unfolding same_settings
Agree-same r s a = ground (
  arith,
  (text_eq_iff r.kind s.kind).1 a.kinds,
  (text_eq_iff r.settings.instrument_type s.settings.instrument_type).1 a.instruments,
  (text_eq_iff r.settings.region s.settings.region).1 a.regions,
  (text_eq_iff r.settings.language s.settings.language).1 a.languages,
  ap (λ d. eq_ℤ d s.settings.delay) a.delays,
  eq_ℤ_refl s.settings.delay,
)

is_empty_lem : (t : Text) → is_empty t ≡ false → t ≢ []
unfolding is_empty
is_empty_lem [] h = ground arith
is_empty_lem (c ∷ t) h = λ e. cc

non_empty_lem : (t : Text) → t ≢ [] → is_empty t ≡ false
unfolding is_empty
non_empty_lem [] h = absurd (h refl)
non_empty_lem (c ∷ t) h = refl

each-Alike :
    (first : SimulationRequest) (rs : List SimulationRequest)
    → validate_each first rs ≡ none
    → Alike first rs
unfolding validate_each
each-Alike first [] h = tt
each-Alike first (r ∷ rs) h = (
  is_empty_lem r.kind (ground arith),
  same-Agree r first (ground arith),
  each-Alike first rs (ground arith),
)

Alike-valid :
    (first : SimulationRequest) (rs : List SimulationRequest)
    → Alike first rs
    → validate_each first rs ≡ none
unfolding validate_each
Alike-valid first [] h = refl
Alike-valid first (r ∷ rs) h =
    ground (arith, non_empty_lem r.kind h.0, Agree-same r first h.1, Alike-valid first rs h.2)

-- validateMultiSimHomogeneous accepts a batch that is not empty exactly when it has 2 to 10
-- requests and each of them has a type and agrees with the first in type, instrument type, region,
-- delay and language.
pub validate_multi_sim_homogeneous_lem :
    (first : SimulationRequest) (rs : List SimulationRequest)
    → (validate_multi_sim_homogeneous (first ∷ rs) ≡ none)
      ↔ ((1 ≤ length rs) × (length rs ≤ 9) × Alike first (first ∷ rs))
unfolding validate_multi_sim_homogeneous
validate_multi_sim_homogeneous_lem first rs = (
  λ h. (ground arith, ground arith, each-Alike first (first ∷ rs) (ground arith)),
  λ a. ground (arith, Alike-valid first (first ∷ rs) a.2),
)
