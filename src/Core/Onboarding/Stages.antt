-- ===== src/Core/Onboarding/Stages.antt =====
-- The stages of a valid policy grow up to the whole target.
use native.Mathlib.Nat.{mul-le-mul_left}
use jd_holdings.Prelude.{
  floor_div-le, lt-floor_div, ℕ, zero, suc, ◌*◌, ◌≤◌, ◌<◌, ◌≡◌, true, some, List, [], ◌∷◌, arith,
  floor_div, floor_div_mono, get_elem?, one,
}
use jd_holdings.Core.Onboarding.{
  InitialOnboardingPolicy, fractions_are_valid, validate, fraction_for_stage,
  scaled_target_quantity,
}

scaled_target_quantity-eq :
    (full fraction : ℕ)
    → fraction ≤ one
    → scaled_target_quantity full fraction ≡ some (floor_div (full * fraction) one)
unfolding scaled_target_quantity floor_div
scaled_target_quantity-eq full fraction h = ground arith

floor_div_whole : (n : ℕ) → floor_div (n * one) one ≡ n
floor_div_whole n =
    omega (arith, floor_div-le (n * one) one, lt-floor_div (n * one) one (omega arith))

floor_div-le-whole : (full g : ℕ) → g ≤ one → floor_div (full * g) one ≤ full
floor_div-le-whole full g h =
    let le = floor_div_mono (full * g) (full * one) one (mul-le-mul_left full h) in
    omega (arith, floor_div_whole full)

fractions-gt :
    (previous : ℕ) (fs : List ℕ) (i f : ℕ)
    → fractions_are_valid previous fs ≡ true
    → get_elem? fs i ≡ some f
    → (previous < f) × (f ≤ one)
unfolding fractions_are_valid
fractions-gt previous [] i f v e = cc
fractions-gt previous (g ∷ fs) zero f v e = ground arith
fractions-gt previous (g ∷ fs) (suc i) f v e = ground (arith, fractions-gt g fs i f)

fractions_increase :
    (previous : ℕ) (fs : List ℕ) (i j f g : ℕ)
    → fractions_are_valid previous fs ≡ true
    → i < j
    → get_elem? fs i ≡ some f
    → get_elem? fs j ≡ some g
    → f < g
unfolding fractions_are_valid
fractions_increase previous [] i j f g v h e d = cc
fractions_increase previous (x ∷ fs) i zero f g v h e d = elim h [ ]
fractions_increase previous (x ∷ fs) zero (suc j) f g v h e d =
    ground (arith, fractions-gt x fs j g)
fractions_increase previous (x ∷ fs) (suc i) (suc j) f g v h e d =
    ground (arith, fractions_increase x fs i j f g)

-- In a valid policy a later stage deploys a larger fraction and never a smaller quantity, and no
-- stage more than the whole target.
pub validate-stages :
    (policy : InitialOnboardingPolicy) (i j full : ℕ) {f g : ℕ}
    → validate policy ≡ true
    → i < j
    → fraction_for_stage policy i ≡ some f
    → fraction_for_stage policy j ≡ some g
    → (f < g)
      × ((m : ℕ) × (n : ℕ) × (scaled_target_quantity full f ≡ some m)
          × (scaled_target_quantity full g ≡ some n)
          × (m ≤ n)
          × (n ≤ full))
unfolding validate fraction_for_stage
validate-stages policy zero j full v h e d = cc
validate-stages policy (suc i) zero full v h e d = elim h [ ]
validate-stages policy (suc i) (suc j) full {f} {g} v h e d =
    let fs = policy.cumulative_fractions in
    let (_, f-le) = fractions-gt 0 fs i f v e in
    let (_, g-le) = fractions-gt 0 fs j g v d in
    let f-lt-g = fractions_increase 0 fs i j f g v (omega arith) e d in
    (
      f-lt-g,
      (
        floor_div (full * f) one,
        floor_div (full * g) one,
        scaled_target_quantity-eq full f f-le,
        scaled_target_quantity-eq full g g-le,
        floor_div_mono (full * f) (full * g) one (mul-le-mul_left full (omega arith)),
        floor_div-le-whole full g g-le,
      ),
    )
