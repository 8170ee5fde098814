-- ===== src/Protocol/Error.antt =====
-- crates/roughenough-protocol/src/error.rs, and the results of fallible code.
use roughenough.Prelude.{
  ℕ, zero, suc, ◌+◌, ◌≡◌, refl, Bool, List, [], ◌∷◌, ◌++◌, length, arith, if◌then◌else◌,
}

-- The errors of error.rs, but for the one that wraps an I/O error.
pub data Error : Type 0 where
  bad_request_size : ℕ → Error
  buffer_too_small : ℕ → ℕ → Error
  invalid_tag : ℕ → Error
  invalid_version : ℕ → Error
  invalid_message_type : ℕ → Error
  mismatched_num_tags : ℕ → ℕ → Error
  invalid_request_num_tags : ℕ → Error
  unexpected_magic : ℕ → Error
  unexpected_framing : ℕ → Error
  unexpected_tags : Error
  unordered_tag : ℕ → ℕ → Error
  unexpected_offsets : Error
  unordered_offset : ℕ → ℕ → Error
  unaligned_offset : ℕ → ℕ → Error
  out_of_bounds_offset : ℕ → ℕ → Error
  unordered_version : ℕ → ℕ → Error
  no_supported_versions : Error
  invalid_path_length : ℕ → Error
  wrong_tag_size : ℕ → ℕ → Error

-- Rust's `Result<A, Error>`, with the case that the code panics: a slice out of range, a failed
-- assertion, an `expect` on an error, an arithmetic overflow.
pub data Result {ℓ} (Value : Type ℓ) : Type ℓ where
  panic : Result Value
  err : Error → Result Value
  ok : Value → Result Value

-- Rust's `?`: a panic and an error end the chain.
abbrev pub ◌>>=◌ {ℓ κ} :
    {Value : Type ℓ} {Next : Type κ} → Result Value → (Value → Result Next) → Result Next
panic >>= next = panic
err why >>= next = err why
ok value >>= next = next value

infixl 5 ◌>>=◌ ◌>>◌
abbrev pub ◌>>◌ {κ} : {Next : Type κ} → Result (Unit {0}) → Result Next → Result Next
first >> second = first >>= λ done. second

-- A step that gives a value.
pub bind_ok {ℓ κ} :
    {Value : Type ℓ} {Next : Type κ} (step : Result Value) (next : Value → Result Next)
    (value : Value)
    → step ≡ ok value
    → (step >>= next) ≡ next value
bind_ok step next value gives = rw gives

-- Rust's `assert!`.
abbrev pub assert : Bool → Result (Unit {0})
assert b = if b then ok tt else panic

-- `xs[i]` of a Rust vector or slice.
module _ {ℓ} {A : Type ℓ} where
  abbrev pub index : List A → ℕ → Result A
  index [] i = panic
  index (x ∷ xs) zero = ok x
  index (x ∷ xs) (suc i) = index xs i

  -- An update in place of `xs[i]`.
  abbrev pub modify : List A → ℕ → (A → A) → Result (List A)
  modify [] i f = panic
  modify (x ∷ xs) zero f = ok (f x ∷ xs)
  modify (x ∷ xs) (suc i) f = modify xs i f >>= λ ys. ok (x ∷ ys)

  -- Access behind a first part of the list.
  pub index-append :
      (i : ℕ) (front : List A) (x : A) (back : List A)
      → i ≡ length front
      → index (front ++ (x ∷ back)) i ≡ ok x
  index-append zero [] x back h = refl
  index-append (suc i) [] x back h = absurd (omega arith)
  index-append zero (y ∷ front) x back h = absurd (omega arith)
  index-append (suc i) (y ∷ front) x back h = index-append i front x back (omega arith)

  pub modify-append :
      (i : ℕ) (front : List A) (x : A) (back : List A) (f : A → A)
      → i ≡ length front
      → modify (front ++ (x ∷ back)) i f ≡ ok (front ++ (f x ∷ back))
  modify-append zero [] x back f h = refl
  modify-append (suc i) [] x back f h = absurd (omega arith)
  modify-append zero (y ∷ front) x back f h = absurd (omega arith)
  modify-append (suc i) (y ∷ front) x back f h = rw (modify-append i front x back f (omega arith))

  -- The same, one place further on.
  pub modify-append_next :
      (i : ℕ) (front : List A) (x y : A) (back : List A) (f : A → A)
      → i ≡ length front + 1
      → modify (front ++ (x ∷ y ∷ back)) i f ≡ ok (front ++ (x ∷ f y ∷ back))
  modify-append_next zero front x y back f h = absurd (omega arith)
  modify-append_next (suc zero) [] x y back f h = refl
  modify-append_next (suc (suc i)) [] x y back f h = absurd (omega arith)
  modify-append_next (suc i) (z ∷ front) x y back f h =
      rw (modify-append_next i front x y back f (omega arith))
