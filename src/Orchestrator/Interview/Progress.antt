-- ===== src/Orchestrator/Interview/Progress.antt =====
-- How far reports bring an interview.
use zwaved.Base.{
  ℕ, zero, suc, ◌≡◌, ◌↔◌, ◌≢◌, ◌⊎◌, inl, inr, refl, sym, ap, subst, ◌∙◌, Bool, true, false, List,
  [], ◌∷◌, arith, if◌then◌else◌, Bool-cases,
}
use mathlib.Core.Logic.{⊎_elim}
use zwaved.Base.Maps.{number_key}
use zwaved.Orchestrator.Interview.{
  Step, manufacturer_specific, version, endpoints, zwave_plus, step_value, same_step,
}

abbrev step_of : ℕ → Step
step_of zero = manufacturer_specific
step_of (suc zero) = version
step_of (suc (suc zero)) = endpoints
step_of (suc (suc (suc n))) = zwave_plus

step_of-step_value : (s : Step) → step_of (step_value s) ≡ s
step_of-step_value manufacturer_specific = refl
step_of-step_value version = refl
step_of-step_value endpoints = refl
step_of-step_value zwave_plus = refl

same_step_iff : (a b : Step) → (same_step a b ≡ true) ↔ (a ≡ b)
same_step_iff a b = (
  λ h. sym (step_of-step_value a) ∙ ap step_of (the_same h) ∙ step_of-step_value b,
  λ e. subst (λ (x : Step). same_step a x ≡ true) e (ground arith),
)
  where
    the_same : same_step a b ≡ true → step_value a ≡ step_value b
    the_same h = ground arith

-- The steps stand among the reports, in their order.
abbrev pub Within : List Step → List Step → Type 0
Within [] reports = Unit
Within (s ∷ steps) [] = ⊥
Within (s ∷ steps) (r ∷ reports) = ((s ≡ r) × Within steps reports) ⊎ Within (s ∷ steps) reports

-- The steps left when each report ticks off the next one if it is its own.
abbrev pub left : List Step → List Step → List Step
left [] reports = []
left (s ∷ steps) [] = s ∷ steps
left (s ∷ steps) (r ∷ reports) =
    if same_step s r then left steps reports else left (s ∷ steps) reports

abbrev pub is_done : List Step → Bool
is_done [] = true
is_done (s ∷ steps) = false

Within-cons :
    (s : Step) (steps reports : List Step) → Within (s ∷ steps) reports → Within steps reports
Within-cons s [] reports h = tt
Within-cons s (t ∷ steps) [] h = absurd h
Within-cons s (t ∷ steps) (r ∷ reports) (inl h) = inr h.1
Within-cons s (t ∷ steps) (r ∷ reports) (inr h) = inr (Within-cons s (t ∷ steps) reports h)

-- Ticking off greedily misses nothing.
pub is_done_iff :
    (steps reports : List Step) → (is_done (left steps reports) ≡ true) ↔ Within steps reports
is_done_iff [] reports = (λ h. tt, λ h. refl)
is_done_iff (s ∷ steps) [] = (λ h. absurd (ground arith), λ h. absurd h)
is_done_iff (s ∷ steps) (r ∷ reports) = elim (Bool-cases (same_step s r)) [
  | inl same ↦ subst Ticks (sym same) (
    λ h. inl ((same_step_iff s r).0 same, (is_done_iff steps reports).0 h),
    λ h. (is_done_iff steps reports).1 (
        ⊎_elim (λ (both : (s ≡ r) × Within steps reports). both.1)
          (λ (later : Within (s ∷ steps) reports). Within-cons s steps reports later) h),
  )
  | inr differs ↦ subst Ticks (sym differs) (
    λ h. inr ((is_done_iff (s ∷ steps) reports).0 h),
    λ h. (is_done_iff (s ∷ steps) reports).1 (
        ⊎_elim (λ (both : (s ≡ r) × Within steps reports). absurd (differ differs both.0))
          (λ (later : Within (s ∷ steps) reports). later) h),
  )
]
  where
    Ticks : Bool → Type 0
    Ticks b =
        (is_done (if b then left steps reports else left (s ∷ steps) reports) ≡ true)
        ↔ Within (s ∷ steps) (r ∷ reports)

    differ : same_step s r ≡ false → s ≢ r
    differ d e = absurd (ground (arith, (same_step_iff s r).1 e))
