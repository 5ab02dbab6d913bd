-- ===== src/Core/Onboarding.antt =====
-- core/initial_onboarding.py: the staged first deployment. Fractions are whole numbers of 10^-18.
pub mod Stages
mod Tests
use jd_holdings.Prelude.{
  ℕ, zero, suc, ◌-◌, ◌*◌, Bool, true, false, ◌&&◌, Option, none, some, List, [], ◌∷◌, floor_div,
  get_elem?, length, one, ltb, leb, ◌==◌, if◌then◌else◌,
}

-- The count of sessions between two stages is never negative here.
pub record InitialOnboardingPolicy : Type 0 where
  pub enabled : Bool
  pub cumulative_fractions : List ℕ
  pub minimum_sessions_between_stages : ℕ

-- The loop over the fractions: each is in (0, 1] and above the one before, and the last is 1.
unfoldable pub fractions_are_valid : ℕ → List ℕ → Bool
fractions_are_valid previous [] = previous == one
fractions_are_valid previous (fraction ∷ rest) =
    (ltb 0 fraction && leb fraction one)
    && (ltb previous fraction && fractions_are_valid fraction rest)

-- Whether `validate` passes; an empty list of fractions does not.
unfoldable pub validate : InitialOnboardingPolicy → Bool
unfolding fractions_are_valid
validate policy = fractions_are_valid 0 policy.cumulative_fractions

abbrev pub total_stages : InitialOnboardingPolicy → ℕ
total_stages policy = length policy.cumulative_fractions

-- `none` is a ValueError.
unfoldable pub fraction_for_stage : InitialOnboardingPolicy → ℕ → Option ℕ
fraction_for_stage policy zero = none
fraction_for_stage policy (suc i) = get_elem? policy.cumulative_fractions i

unfoldable pub scaled_target_quantity : ℕ → ℕ → Option ℕ
scaled_target_quantity full_target fraction =
    if leb fraction one
    then some (if fraction == one then full_target else floor_div (full_target * fraction) one)
    else none
