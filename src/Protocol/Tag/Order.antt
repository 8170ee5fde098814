-- ===== src/Protocol/Tag/Order.antt =====
-- The order of tags of tag.rs.
use roughenough.Prelude.{
  ℕ, ◌+◌, ◌*◌, ◌<◌, ◌^◌, ◌≤◌, ◌≡◌, refl, sym, ap, ap₂, ◌∙◌, List, [], ◌∷◌, ◌++◌, reverse, length,
  ltb, ◌==◌, if◌then◌else◌, arith, true, false, Bool-cases, All, inl, inr, subst, lt→ltb, ltb→lt,
  ==_iff, le→not_ltb, not_ltb→le,
}
use mathlib.Core.List.{reverse-append}
use native.Mathlib.Nat.{pow-suc}
use roughenough.Prelude.Bytes.{
  IsByte, to_le_bytes, from_le_bytes, to_be_bytes, from_be_bytes, to_le_bytes-IsByte,
  length-to_le_bytes, from_be_bytes-lt, length-reverse,
}
use roughenough.Protocol.Tag.{Tag, lt_bytes, lt, wire_value, tag_value}

from_le_bytes-snoc :
    (xs : List ℕ) (x : ℕ) → from_le_bytes (xs ++ (x ∷ [])) ≡ from_le_bytes xs + 256 ^ length xs * x
unfolding from_le_bytes
from_le_bytes-snoc [] x = omega arith
from_le_bytes-snoc (y ∷ xs) x =
    omega (arith, from_le_bytes-snoc xs x, ap (λ (t : ℕ). t * x) (pow-suc 256 (length xs)))

from_be_bytes-cons :
    (x : ℕ) (xs : List ℕ) → from_be_bytes (x ∷ xs) ≡ from_be_bytes xs + 256 ^ length xs * x
unfolding from_be_bytes
from_be_bytes-cons x xs =
    ap from_le_bytes (reverse-append (x ∷ []) xs)
    ∙ from_le_bytes-snoc (reverse xs) x
    ∙ ap (λ n. from_le_bytes (reverse xs) + 256 ^ n * x) (length-reverse xs)

below : (a b p x y : ℕ) → a < p → x < y → a + p * x < b + p * y
below a b p x y h k = grind arith

ltb_shift : (a b c : ℕ) → ltb a b ≡ ltb (a + c) (b + c)
ltb_shift a b c = ground arith

-- Two numbers compare by their leading digits first.
leading_digit :
    (a b p x y : ℕ)
    → a < p
    → b < p
    → (if ltb x y then true else if x == y then ltb a b else false) ≡ ltb (a + p * x) (b + p * y)
leading_digit a b p x y h k = elim (Bool-cases (ltb x y)) [
  | inl less ↦ rw (less, lt→ltb (a + p * x) (b + p * y) (below a b p x y h (ltb→lt x y less)))
  | inr more ↦ elim (Bool-cases (x == y)) [
    | inl same ↦
        rw (more, same)
          (ltb_shift a b (p * x) ∙ ap (λ z. ltb (a + p * x) (b + p * z)) ((==_iff x y).0 same))
    | inr differ ↦
        rw (more, differ, le→not_ltb (a + p * x) (b + p * y) (larger (not_ltb→le x y more) differ))
  ]
]
  where
    larger : y ≤ x → (x == y) ≡ false → b + p * y ≤ a + p * x
    larger le ne = omega (arith, below b a p y x k (ground arith))

-- Arrays of one length stand in the order of the numbers that they are big-endian.
lt_bytes-ltb :
    (xs ys : List ℕ)
    → length xs ≡ length ys
    → All IsByte xs
    → All IsByte ys
    → lt_bytes xs ys ≡ ltb (from_be_bytes xs) (from_be_bytes ys)
unfolding lt_bytes
lt_bytes-ltb [] [] e hx hy = ground arith
lt_bytes-ltb [] (y ∷ ys) e hx hy = absurd (omega arith)
lt_bytes-ltb (x ∷ xs) [] e hx hy = absurd (omega arith)
lt_bytes-ltb (x ∷ xs) (y ∷ ys) e hx hy =
    let same : from_be_bytes ys + 256 ^ length xs * y ≡ from_be_bytes (y ∷ ys) =
      ap (λ n. from_be_bytes ys + 256 ^ n * y) (omega arith) ∙ sym (from_be_bytes-cons y ys) in
    ap (λ b. if ltb x y then true else if x == y then b else false)
      (lt_bytes-ltb xs ys (omega arith) hx.1 hy.1)
    ∙ leading_digit (from_be_bytes xs) (from_be_bytes ys) (256 ^ length xs) x y
        (from_be_bytes-lt xs hx.1)
        (subst (λ n. from_be_bytes ys < 256 ^ n) (omega arith) (from_be_bytes-lt ys hy.1))
    ∙ ap₂ ltb (sym (from_be_bytes-cons x xs)) same

-- Tags stand in the order of the numbers that their wire forms are little-endian (RFC section 4.2).
pub lt-from_le_bytes :
    (a b : Tag) → lt a b ≡ ltb (from_le_bytes (wire_value a)) (from_le_bytes (wire_value b))
unfolding lt wire_value to_be_bytes from_be_bytes
lt-from_le_bytes a b =
    lt_bytes-ltb (to_le_bytes 4 (tag_value a)) (to_le_bytes 4 (tag_value b))
      (length-to_le_bytes 4 (tag_value a) ∙ sym (length-to_le_bytes 4 (tag_value b)))
      (to_le_bytes-IsByte 4 (tag_value a)) (to_le_bytes-IsByte 4 (tag_value b))
    ∙ refl
