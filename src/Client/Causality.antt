-- ===== src/Client/Causality.antt =====
-- crates/roughenough-client/src/validation.rs: the causal order of a sequence of measurements.
pub mod Exact
use roughenough.Prelude.{
  ℕ, ◌+◌, ◌-◌, ◌^◌, Bool, true, false, List, [], ◌∷◌, ◌++◌, length, ltb, if◌then◌else◌,
}
use roughenough.Protocol.Error.{Result, ok, panic, assert, ◌>>=◌, ◌>>◌}
use roughenough.Client.Measurement.{Measurement, midpoint, radius}

pub record CausalityViolation (Address : Type 0) : Type 0 where
  pub measurement_i : Measurement Address
  pub measurement_j : Measurement Address
  pub lower_bound_i : ℕ
  pub upper_bound_j : ℕ

module _ {Address : Type 0} where
  -- `midpoint - radius` on `u64`, which must not pass below 0.
  unfoldable pub lower_bound : Measurement Address → Result ℕ
  unfolding midpoint radius
  lower_bound m = if ltb (midpoint m) (radius m) then panic else ok (midpoint m - radius m)

  -- `midpoint + radius` on `u64`, which must not pass 2 ^ 64.
  unfoldable pub upper_bound : Measurement Address → Result ℕ
  unfolding midpoint radius
  upper_bound m = if ltb (midpoint m + radius m) (2 ^ 64) then ok (midpoint m + radius m) else panic

  unfoldable pub new_violation :
      Measurement Address → Measurement Address → Result (CausalityViolation Address)
  unfolding lower_bound upper_bound
  new_violation i j = do
    lower ← lower_bound i
    upper ← upper_bound j
    assert (ltb upper lower)
    ok (record {
      measurement_i = i;
      measurement_j = j;
      lower_bound_i = lower;
      upper_bound_j = upper;
    })

  -- The body of the inner loop.
  unfoldable pub compare_pair :
      Measurement Address → Measurement Address → Result (List (CausalityViolation Address))
  unfolding new_violation lower_bound upper_bound
  compare_pair i j = do
    lower ← lower_bound i
    upper ← upper_bound j
    elim (ltb upper lower) [
      | true ↦ (do violation ← new_violation i j; ok (violation ∷ []))
      | false ↦ ok []
    ]

  -- The inner loop, over the measurements behind `i`.
  unfoldable pub compare_later :
      Measurement Address → List (Measurement Address) → Result (List (CausalityViolation Address))
  unfolding compare_pair
  compare_later i [] = ok []
  compare_later i (j ∷ later) = do
    here ← compare_pair i j
    rest ← compare_later i later
    ok (here ++ rest)

  -- The outer loop.
  unfoldable pub compare_all :
      List (Measurement Address) → Result (List (CausalityViolation Address))
  unfolding compare_later
  compare_all [] = ok []
  compare_all (i ∷ later) = do
    here ← compare_later i later
    rest ← compare_all later
    ok (here ++ rest)

  unfoldable pub validate_causality :
      List (Measurement Address) → Result (List (CausalityViolation Address))
  unfolding compare_all
  validate_causality measurements =
      if ltb (length measurements) 2 then ok [] else compare_all measurements
