-- ===== src/Core/Onboarding/Tests.antt =====
-- Three stages: 40 %, 70 % and all of a target of 101 shares.
use jd_holdings.Prelude.{◌*◌, ◌≡◌, refl, true, some, [], ◌∷◌, one, cent}
use jd_holdings.Core.Onboarding.{
  InitialOnboardingPolicy, fractions_are_valid, validate, fraction_for_stage,
}

abbrev three_stages : InitialOnboardingPolicy
three_stages = record {
  enabled = true;
  cumulative_fractions = 40 * cent ∷ 70 * cent ∷ one ∷ [];
  minimum_sessions_between_stages = 20;
}

is_valid : validate three_stages ≡ true
unfolding validate fractions_are_valid
is_valid = refl

first : fraction_for_stage three_stages 1 ≡ some (40 * cent)
unfolding fraction_for_stage
first = refl

third : fraction_for_stage three_stages 3 ≡ some one
unfolding fraction_for_stage
third = refl
