-- ===== src/Protocol/Cursor/Total.antt =====
-- The methods of cursor.rs on any cursor: those named `try_` do not panic, whatever the bytes are.
use roughenough.Prelude.{
  ℕ, ◌+◌, ◌^◌, ◌≤◌, ◌<◌, ◌≡◌, ◌≢◌, refl, ◌∙◌, Bool, true, false, List, [], ◌∷◌, length, take, drop,
  ltb, if◌then◌else◌, arith, le→leb, not_ltb→le, Bool-cases, All, inl, inr, length-take,
  length-drop, zero, suc, subst,
}
use roughenough.Prelude.Bytes.{
  IsByte, from_le_bytes, from_be_bytes, from_le_bytes-lt, from_be_bytes-lt,
}
use roughenough.Protocol.Error.{Error, Result, ok, err, panic}
use roughenough.Protocol.Cursor.{
  ParseCursor, Action, ◌>>=◌, pure, fail, lift, refuse_if, gets, new, remaining, skip, get_fixed,
  checked, try_get_fixed, try_copy_to_slice, get_u32_le, try_get_u32_le, get_u32, try_get_u32,
  get_u64_le, try_get_u64_le, get_u64, try_get_u64,
}

-- The cursor stands in a buffer of bytes.
pub record IsValid (c : ParseCursor) : Type 0 where
  pub inside : c.position ≤ length c.bytes
  pub octets : All IsByte c.bytes

-- No panic; and a result satisfies `P` and leaves a valid cursor over the same buffer.
pub data Outcome {A : Type 0} (P : A → Type 0) (c : ParseCursor)
    : Result (A × ParseCursor) → Type 0 where
  returns :
      (a : A) (c' : ParseCursor) → P a → IsValid c' → c'.bytes ≡ c.bytes → Outcome P c (ok (a, c'))
  refuses : (e : Error) → Outcome P c (err e)

-- What holds of a result that came out.
pub Outcome-ok :
    {A : Type 0} {P : A → Type 0} {c : ParseCursor} {r : Result (A × ParseCursor)} (a : A)
    (c' : ParseCursor)
    → Outcome P c r
    → r ≡ ok (a, c')
    → P a
Outcome-ok {P} a c' (returns b d h v s) e = subst P (cc) h
Outcome-ok a c' (refuses x) e = cc

pub record Total {A : Type 0} (m : Action A) (P : A → Type 0) : Type 0 where
  pub at : (c : ParseCursor) → IsValid c → Outcome P c (m c)

pub Outcome-ne-panic :
    {A : Type 0} {P : A → Type 0} {c : ParseCursor} {r : Result (A × ParseCursor)}
    → Outcome P c r
    → r ≢ panic
Outcome-ne-panic (returns a c' h v e) p = cc
Outcome-ne-panic (refuses e) p = cc

module _ {A : Type 0} {P : A → Type 0} where
  pub Total-pure : (a : A) → P a → Total (pure a) P
  Total-pure a h = record { at = λ c v. returns a c h v refl }

  pub Total-fail : (e : Error) → Total (fail e) P
  Total-fail e = record { at = λ c v. refuses e }

  pub Total-if :
      (b : Bool) (m n : Action A)
      → (b ≡ true → Total m P)
      → (b ≡ false → Total n P)
      → Total (if b then m else n) P
  Total-if true m n p q = p refl
  Total-if false m n p q = q refl

  pub Total-weaken : {Q : A → Type 0} {m : Action A} → Total m P → ((a : A) → P a → Q a) → Total m Q
  Total-weaken {Q} {m} p f = record { at = λ c v. go c (p.at c v) }
    where
      go : (c : ParseCursor) {r : Result (A × ParseCursor)} → Outcome P c r → Outcome Q c r
      go c (returns a c' h v e) = returns a c' (f a h) v e
      go c (refuses e) = refuses e

pub Total-refuse_if : (b : Bool) (e : Error) → Total (refuse_if b e) (λ _. b ≡ false)
Total-refuse_if true e = Total-fail e
Total-refuse_if false e = Total-pure tt refl

module _ {A B : Type 0} {P : A → Type 0} {Q : B → Type 0} where
  continue :
      (c : ParseCursor) {r : Result (A × ParseCursor)} (f : A → Action B)
      → Outcome P c r
      → ((a : A) → P a → Total (f a) Q)
      → Outcome Q c (elim r [ ok (a, c') ↦ f a c' | err e ↦ err e | panic ↦ panic ])
  continue c f (returns a c' h v e) g = again (f a c') ((g a h).at c' v)
    where
      again : (r : Result (B × ParseCursor)) → Outcome Q c' r → Outcome Q c r
      again _ (returns b c'' k w e') = returns b c'' k w (e' ∙ e)
      again _ (refuses x) = refuses x
  continue c f (refuses e) g = refuses e

  pub Total-bind :
      (m : Action A) (f : A → Action B)
      → Total m P
      → ((a : A) → P a → Total (f a) Q)
      → Total (m >>= f) Q
  unfolding ◌>>=◌
  Total-bind m f p g = record { at = λ c v. continue c f (p.at c v) g }

All-take {ℓ} : (P : ℕ → Type ℓ) (n : ℕ) (xs : List ℕ) → All P xs → All P (take n xs)
All-take P zero xs h = tt
All-take P (suc n) [] h = tt
All-take P (suc n) (x ∷ xs) h = (h.0, All-take P n xs h.1)

All-drop {ℓ} : (P : ℕ → Type ℓ) (n : ℕ) (xs : List ℕ) → All P xs → All P (drop n xs)
All-drop P zero xs h = h
All-drop P (suc n) [] h = h
All-drop P (suc n) (x ∷ xs) h = All-drop P n xs h.1

-- `n` bytes.
pub record IsBytes (n : ℕ) (xs : List ℕ) : Type 0 where
  pub size : length xs ≡ n
  pub octets : All IsByte xs

-- With enough bytes ahead a read that does not test for them is safe.
pub record SafeFor {A : Type 0} (n : ℕ) (m : Action A) (P : A → Type 0) : Type 0 where
  pub at : (c : ParseCursor) → IsValid c → n ≤ remaining c → Outcome P c (m c)

get_fixed-SafeFor : (n : ℕ) → SafeFor n (get_fixed n) (IsBytes n)
unfolding get_fixed skip remaining
get_fixed-SafeFor n = record {
  at = λ c v h. rw (le→leb (c.position + n) (length c.bytes) (omega (arith, v.inside))) (
      returns (take n (drop c.position c.bytes)) (skip n c)
        (record {
          size = omega (
            arith,
            v.inside,
            length-take n (drop c.position c.bytes),
            length-drop c.position c.bytes,
          );
          octets =
              All-take IsByte n (drop c.position c.bytes)
                (All-drop IsByte c.position c.bytes v.octets);
        })
        (record { inside = omega (arith, v.inside); octets = v.octets }) refl);
}

pub Total-checked :
    {A : Type 0} {P : A → Type 0} (n : ℕ) (m : Action A) → SafeFor n m P → Total (checked n m) P
unfolding checked
Total-checked n m p = record {
  at = λ c v. elim (Bool-cases (ltb (remaining c) n)) [
    | inl short ↦ rw short (refuses _)
    | inr enough ↦ rw enough (p.at c v (not_ltb→le (remaining c) n enough))
  ];
}

pub Total-try_get_fixed : (n : ℕ) → Total (try_get_fixed n) (IsBytes n)
unfolding try_get_fixed
Total-try_get_fixed n = Total-checked n (get_fixed n) (get_fixed-SafeFor n)

pub Total-try_copy_to_slice : (n : ℕ) → Total (try_copy_to_slice n) (IsBytes n)
unfolding try_copy_to_slice
Total-try_copy_to_slice n = Total-checked n (get_fixed n) (get_fixed-SafeFor n)

word-SafeFor :
    (n : ℕ) (decode : List ℕ → ℕ)
    → ((xs : List ℕ) → All IsByte xs → decode xs < 256 ^ length xs)
    → SafeFor n (do bytes ← get_fixed n; pure (decode bytes)) (λ v. v < 256 ^ n)
unfolding ◌>>=◌
word-SafeFor n decode below = record {
  at = λ c v h.
      continue c (λ bytes. pure (decode bytes)) ((get_fixed-SafeFor n).at c v h)
        (λ xs b.
          Total-pure (decode xs) (subst (λ k. decode xs < 256 ^ k) b.size (below xs b.octets)));
}

abbrev pub IsU32 : ℕ → Type 0
IsU32 v = v < 2 ^ 32

abbrev pub IsU64 : ℕ → Type 0
IsU64 v = v < 2 ^ 64

pub Total-try_get_u32_le : Total try_get_u32_le IsU32
unfolding try_get_u32_le get_u32_le
Total-try_get_u32_le = Total-checked 4 get_u32_le (word-SafeFor 4 from_le_bytes from_le_bytes-lt)

pub Total-try_get_u32 : Total try_get_u32 IsU32
unfolding try_get_u32 get_u32
Total-try_get_u32 = Total-checked 4 get_u32 (word-SafeFor 4 from_be_bytes from_be_bytes-lt)

pub Total-try_get_u64_le : Total try_get_u64_le IsU64
unfolding try_get_u64_le get_u64_le
Total-try_get_u64_le = Total-checked 8 get_u64_le (word-SafeFor 8 from_le_bytes from_le_bytes-lt)

pub Total-try_get_u64 : Total try_get_u64 IsU64
unfolding try_get_u64 get_u64
Total-try_get_u64 = Total-checked 8 get_u64 (word-SafeFor 8 from_be_bytes from_be_bytes-lt)

pub Total-lift :
    {A : Type 0} (r : Result A) (P : A → Type 0)
    → r ≢ panic
    → ((a : A) → r ≡ ok a → P a)
    → Total (lift r) P
Total-lift (ok a) P h p = Total-pure a (p a refl)
Total-lift (err e) P h p = Total-fail e
Total-lift panic P h p = absurd (h refl)

pub Total-gets : {A : Type 0} (f : ParseCursor → A) → Total (gets f) (λ _. Unit {0})
unfolding gets
Total-gets f = record { at = λ c v. returns (f c) c tt v refl }

-- A result that is known.
pub Total-lift_ok : {A : Type 0} (r : Result A) (a : A) → r ≡ ok a → Total (lift r) (λ b. b ≡ a)
Total-lift_ok r a e = rw e (Total-pure a refl)

-- A new cursor over bytes.
pub new-IsValid : (xs : List ℕ) → All IsByte xs → IsValid (new xs)
unfolding new
new-IsValid xs h = record { inside = omega arith; octets = h }
