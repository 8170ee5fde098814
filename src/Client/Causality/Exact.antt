-- ===== src/Client/Causality/Exact.antt =====
-- The violations that `validate_causality` of validation.rs reports.
use roughenough.Prelude.{
  ℕ, suc, ◌+◌, ◌-◌, ◌^◌, ◌≤◌, ◌<◌, ◌≡◌, ◌↔◌, refl, ◌∙◌, true, false, List, [], ◌∷◌, ◌++◌, length,
  ltb, arith, All, le→not_ltb, lt→ltb, ltb→lt, not_ltb→le, Bool-cases, inl, inr,
}
use roughenough.Protocol.Error.{bind_ok, Result, ok, panic, ◌>>=◌}
use roughenough.Client.Measurement.{Measurement, midpoint, radius}
use roughenough.Client.Causality.{
  CausalityViolation, lower_bound, upper_bound, new_violation, compare_pair, compare_later,
  compare_all, validate_causality,
}

module _ {Address : Type 0} where
  -- Bounds that are words of 64 bits.
  pub record IsInRange (m : Measurement Address) : Type 0 where
    pub from_zero : radius m ≤ midpoint m
    pub to_max : midpoint m + radius m < 2 ^ 64

  -- `j` was received after `i`, and can have been made after it.
  abbrev pub Consistent : Measurement Address → Measurement Address → Type 0
  Consistent i j = midpoint i - radius i ≤ midpoint j + radius j

  -- Every measurement is consistent with all that follow it.
  abbrev pub InOrder : List (Measurement Address) → Type 0
  InOrder [] = Unit
  InOrder (i ∷ later) = All (Consistent i) later × InOrder later

  -- A violation that is one.
  pub record IsViolation (v : CausalityViolation Address) : Type 0 where
    pub lower : v.lower_bound_i ≡ midpoint v.measurement_i - radius v.measurement_i
    pub upper : v.upper_bound_j ≡ midpoint v.measurement_j + radius v.measurement_j
    pub apart : v.upper_bound_j < v.lower_bound_i

  -- What the loops find of pairs that are to satisfy `P`: nothing exactly if they do.
  abbrev Finds : Type 0 → Result (List (CausalityViolation Address)) → Type 0
  Finds P run =
      (found : List (CausalityViolation Address)) × (run ≡ ok found)
      × ((found ≡ []) ↔ P)
      × All IsViolation found

  lower_bound-ok :
      (m : Measurement Address) → IsInRange m → lower_bound m ≡ ok (midpoint m - radius m)
  unfolding lower_bound midpoint radius
  lower_bound-ok m r = rw (le→not_ltb m.response.srep.midpoint m.response.srep.radius r.from_zero)

  upper_bound-ok :
      (m : Measurement Address) → IsInRange m → upper_bound m ≡ ok (midpoint m + radius m)
  unfolding upper_bound midpoint radius
  upper_bound-ok m r =
      rw (lt→ltb (m.response.srep.midpoint + m.response.srep.radius) (2 ^ 64) r.to_max)

  violation : Measurement Address → Measurement Address → CausalityViolation Address
  violation i j = record {
    measurement_i = i;
    measurement_j = j;
    lower_bound_i = midpoint i - radius i;
    upper_bound_j = midpoint j + radius j;
  }

  module _ (i j : Measurement Address) (ri : IsInRange i) (rj : IsInRange j) where
    new_violation-ok :
        ltb (midpoint j + radius j) (midpoint i - radius i) ≡ true
        → new_violation i j ≡ ok (violation i j)
    unfolding new_violation violation
    new_violation-ok apart =
        bind_ok (lower_bound i) _ (midpoint i - radius i) (lower_bound-ok i ri)
        ∙ bind_ok (upper_bound j) _ (midpoint j + radius j) (upper_bound-ok j rj)
        ∙ rw apart

    pair_apart :
        ltb (midpoint j + radius j) (midpoint i - radius i) ≡ true
        → compare_pair i j ≡ ok (violation i j ∷ [])
    unfolding compare_pair
    pair_apart apart =
        bind_ok (lower_bound i) _ (midpoint i - radius i) (lower_bound-ok i ri)
        ∙ bind_ok (upper_bound j) _ (midpoint j + radius j) (upper_bound-ok j rj)
        ∙ rw apart (bind_ok (new_violation i j) _ (violation i j) (new_violation-ok apart))

    pair_fine :
        ltb (midpoint j + radius j) (midpoint i - radius i) ≡ false → compare_pair i j ≡ ok []
    unfolding compare_pair
    pair_fine fine =
        bind_ok (lower_bound i) _ (midpoint i - radius i) (lower_bound-ok i ri)
        ∙ bind_ok (upper_bound j) _ (midpoint j + radius j) (upper_bound-ok j rj)
        ∙ rw fine

    pair-Finds : Finds (Consistent i j) (compare_pair i j)
    unfolding violation
    pair-Finds =
        let low : ℕ = midpoint i - radius i in
        let high : ℕ = midpoint j + radius j in
        elim (Bool-cases (ltb high low)) [
          | inl apart ↦ (
            violation i j ∷ [],
            pair_apart apart,
            ((λ e. cc), (λ le. absurd (omega (arith, le, ltb→lt high low apart)))),
            (record { lower = refl; upper = refl; apart = ltb→lt high low apart }, tt),
          )
          | inr fine ↦ ([], pair_fine fine, ((λ e. not_ltb→le high low fine), (λ le. refl)), tt)
        ]

  All-IsViolation-append :
      (xs ys : List (CausalityViolation Address))
      → All IsViolation xs
      → All IsViolation ys
      → All IsViolation (xs ++ ys)
  All-IsViolation-append [] ys h k = k
  All-IsViolation-append (x ∷ xs) ys (h, hs) k = (h, All-IsViolation-append xs ys hs k)

  append_nil_iff :
      (xs ys : List (CausalityViolation Address)) → ((xs ++ ys) ≡ []) ↔ ((xs ≡ []) × (ys ≡ []))
  append_nil_iff [] ys = ((λ e. (refl, e)), (λ e. e.1))
  append_nil_iff (x ∷ xs) ys = ((λ e. cc), (λ e. cc))

  -- Two loops in a row.
  both-Finds :
      {P Q : Type 0} (m k : Result (List (CausalityViolation Address)))
      → Finds P m
      → Finds Q k
      → Finds (P × Q) (m >>= λ here. (k >>= λ rest. ok (here ++ rest)))
  both-Finds m k (xs, run, none_iff, all) (ys, run', none_iff', all') = (
    xs ++ ys,
    rw (run, run'),
    (
      (λ e. let (l, r) = (append_nil_iff xs ys).0 e in (none_iff.0 l, none_iff'.0 r)),
      (λ (p, q). (append_nil_iff xs ys).1 (none_iff.1 p, none_iff'.1 q)),
    ),
    All-IsViolation-append xs ys all all',
  )

  later-Finds :
      (i : Measurement Address) (later : List (Measurement Address))
      → IsInRange i
      → All IsInRange later
      → Finds (All (Consistent i) later) (compare_later i later)
  unfolding compare_later
  later-Finds i [] r rs = ([], refl, ((λ e. tt), (λ u. refl)), tt)
  later-Finds i (j ∷ later) r (rj, rs) =
      both-Finds (compare_pair i j) (compare_later i later) (pair-Finds i j r rj)
        (later-Finds i later r rs)

  compare_all-Finds :
      (ms : List (Measurement Address)) → All IsInRange ms → Finds (InOrder ms) (compare_all ms)
  unfolding compare_all
  compare_all-Finds [] rs = ([], refl, ((λ e. tt), (λ u. refl)), tt)
  compare_all-Finds (i ∷ later) (r, rs) =
      both-Finds (compare_later i later) (compare_all later) (later-Finds i later r rs)
        (compare_all-Finds later rs)

  -- Where no bound of a measurement passes below 0 or above 64 bits, `validate_causality` returns a list of violations. It is empty
  -- exactly if for each measurement and each later one the lower bound of the first is at most the upper bound of the
  -- second; and every violation in it holds the bounds of its measurements, of which the lower bound is the greater.
  pub validate_causality-exact :
      (ms : List (Measurement Address))
      → All IsInRange ms
      → (found : List (CausalityViolation Address)) × (validate_causality ms ≡ ok found)
        × ((found ≡ []) ↔ InOrder ms)
        × All IsViolation found
  unfolding validate_causality
  validate_causality-exact [] rs = compare_all-Finds [] rs
  validate_causality-exact (m ∷ []) rs = ([], refl, ((λ e. (tt, tt)), (λ u. refl)), tt)
  validate_causality-exact (m ∷ n ∷ ms) rs =
      let many : ltb (suc (suc (length ms))) 2 ≡ false =
        le→not_ltb (suc (suc (length ms))) 2 (omega arith) in
      rw many (compare_all-Finds (m ∷ n ∷ ms) rs)

  -- With two measurements or more, `validate_causality` panics if the midpoint of the first, which its server chose, is less than
  -- the radius.
  pub validate_causality-panics :
      (m n : Measurement Address) (ms : List (Measurement Address))
      → midpoint m < radius m
      → validate_causality (m ∷ n ∷ ms) ≡ panic
  unfolding validate_causality compare_all compare_later compare_pair lower_bound midpoint radius
  validate_causality-panics m n ms h =
      let many : ltb (suc (suc (length ms))) 2 ≡ false =
        le→not_ltb (suc (suc (length ms))) 2 (omega arith) in
      rw (many, lt→ltb m.response.srep.midpoint m.response.srep.radius h)
