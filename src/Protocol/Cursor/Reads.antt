-- ===== src/Protocol/Cursor/Reads.antt =====
-- What the reading methods of cursor.rs give on a cursor that stands before known bytes.
use roughenough.Prelude.{
  ℕ, ◌+◌, ◌^◌, ◌≤◌, ◌<◌, ◌≡◌, refl, ap, ◌∙◌, sym, Bool, false, List, [], ◌++◌, length, drop, arith,
  le→leb, le→not_ltb, length-append, length-drop, take-append, drop-append, append_assoc,
  append-nil, subst, drop-drop,
}
use roughenough.Prelude.Bytes.{
  to_le_bytes, from_le_bytes, to_be_bytes, from_be_bytes, length-to_le_bytes, length-to_be_bytes,
  from_le_bytes-to_le_bytes, from_be_bytes-to_be_bytes,
}
use roughenough.Protocol.Error.{Error, Result, ok}
use roughenough.Protocol.Cursor.{
  ParseCursor, Action, ◌>>=◌, pure, lift, refuse_if, gets, remaining, remaining_bytes, skip,
  get_fixed, checked, try_get_fixed, try_copy_to_slice, get_u32_le, try_get_u32_le, get_u32,
  try_get_u32, get_u64_le, try_get_u64_le, get_u64, try_get_u64,
}

-- The cursor stands in its buffer, before the bytes `xs`.
pub record Holds (c : ParseCursor) (xs : List ℕ) : Type 0 where
  pub inside : c.position ≤ length c.bytes
  pub ahead : remaining_bytes c ≡ xs

pub remaining-Holds : {c : ParseCursor} {xs : List ℕ} → Holds c xs → remaining c ≡ length xs
unfolding remaining remaining_bytes
remaining-Holds {c} h = omega (arith, ap length h.ahead, length-drop c.position c.bytes)

pub Holds-skip :
    {c : ParseCursor} (xs rest : List ℕ) → Holds c (xs ++ rest) → Holds (skip (length xs) c) rest
unfolding skip remaining_bytes
Holds-skip {c} xs rest h = record {
  inside =
      omega
        (arith, h.inside, ap length h.ahead, length-drop c.position c.bytes, length-append xs rest);
  ahead =
      sym (drop-drop c.position (length xs) c.bytes)
      ∙ ap (drop (length xs)) h.ahead
      ∙ drop-append (length xs) xs rest refl;
}

skip-skip : (n m : ℕ) (c : ParseCursor) → skip m (skip n c) ≡ skip (n + m) c
unfolding skip
skip-skip n m c = ap (λ p. record { bytes = c.bytes; position = p }) (omega arith)

skip_zero : (c : ParseCursor) → skip 0 c ≡ c
unfolding skip
skip_zero c = ap (λ p. record { bytes = c.bytes; position = p }) (omega arith)

-- Before `xs` and then `rest`, the action reads `xs` and gives `a`.
pub record Parses {A : Type 0} (m : Action A) (xs : List ℕ) (a : A) (rest : List ℕ) : Type 0 where
  pub at : (c : ParseCursor) → Holds c (xs ++ rest) → m c ≡ ok (a, skip (length xs) c)

module _ {A : Type 0} where
  pub Parses-pure : (a : A) (rest : List ℕ) → Parses (pure a) [] a rest
  Parses-pure a rest = record { at = λ c h. ap (λ d. ok (a, d)) (sym (skip_zero c)) }

  pub Parses-lift : (r : Result A) (a : A) (rest : List ℕ) → r ≡ ok a → Parses (lift r) [] a rest
  Parses-lift r a rest e = rw e (Parses-pure a rest)

  pub Parses-checked :
      (n : ℕ) (m : Action A) (xs : List ℕ) (a : A) (rest : List ℕ)
      → n ≤ length xs + length rest
      → Parses m xs a rest
      → Parses (checked n m) xs a rest
  unfolding checked
  Parses-checked n m xs a rest fits p = record {
    at = λ c h.
        rw (le→not_ltb (remaining c) n (omega (arith, remaining-Holds h, length-append xs rest)))
          (p.at c h);
  }

pub Parses-refuse_if :
    (b : Bool) (e : Error) (rest : List ℕ) → b ≡ false → Parses (refuse_if b e) [] tt rest
Parses-refuse_if b e rest h = rw h (Parses-pure tt rest)

module _ {A B : Type 0} where
  pub Parses-bind :
      {m : Action A} (f : A → Action B) {a : A} {b : B} (xs ys rest : List ℕ)
      → Parses m xs a (ys ++ rest)
      → Parses (f a) ys b rest
      → Parses (m >>= f) (xs ++ ys) b rest
  unfolding ◌>>=◌
  Parses-bind {m} f {a} {b} xs ys rest p q = record {
    at = λ c h.
        let h' : Holds c (xs ++ (ys ++ rest)) = rw (append_assoc xs ys rest) at h in
        rw (p.at c h', ◌>>=◌)
          (q.at (skip (length xs) c) (Holds-skip xs (ys ++ rest) h')
            ∙ ap (λ d. ok (b, d)) (skip-skip (length xs) (length ys) c)
            ∙ ap (λ n. ok (b, skip n c)) (sym (length-append xs ys)));
  }

  -- A step that reads nothing.
  pub Parses-then :
      {m : Action A} (f : A → Action B) {a : A} {b : B} (ys rest : List ℕ)
      → Parses m [] a (ys ++ rest)
      → Parses (f a) ys b rest
      → Parses (m >>= f) ys b rest
  Parses-then f ys rest p q = Parses-bind f [] ys rest p q

  -- A last step that reads nothing.
  pub Parses-last :
      {m : Action A} (f : A → Action B) {a : A} {b : B} (xs rest : List ℕ)
      → Parses m xs a rest
      → Parses (f a) [] b rest
      → Parses (m >>= f) xs b rest
  Parses-last {m} f {b = b} xs rest p q =
      subst (λ ys. Parses (m >>= f) ys b rest) (append-nil xs) (Parses-bind f xs [] rest p q)

  -- A last step that only wraps the value.
  pub Parses-map :
      {m : Action A} {a : A} (g : A → B) (xs rest : List ℕ)
      → Parses m xs a rest
      → Parses (m >>= λ x. pure (g x)) xs (g a) rest
  unfolding ◌>>=◌
  Parses-map g xs rest p = record { at = λ c h. rw (p.at c h, ◌>>=◌) }

-- Code that looks at how much remains.
pub Parses-remaining :
    {B : Type 0} (f : ℕ → Action B) {b : B} (ys rest : List ℕ)
    → Parses (f (length ys + length rest)) ys b rest
    → Parses (gets remaining >>= f) ys b rest
unfolding ◌>>=◌ gets
Parses-remaining f ys rest p = record {
  at = λ c h. rw (remaining-Holds h, length-append ys rest) (p.at c h);
}

-- A test that passes.
pub Parses-test :
    {B : Type 0} (b : Bool) (e : Error) (f : Unit {0} → Action B) {x : B} (ys rest : List ℕ)
    → b ≡ false
    → Parses (f tt) ys x rest
    → Parses (refuse_if b e >>= f) ys x rest
Parses-test b e f ys rest h p = Parses-then f ys rest (Parses-refuse_if b e (ys ++ rest) h) p

pub Parses-get_fixed : (n : ℕ) (xs rest : List ℕ) → length xs ≡ n → Parses (get_fixed n) xs xs rest
unfolding get_fixed skip remaining_bytes
Parses-get_fixed n xs rest e = record {
  at = λ c h.
      let fits : c.position + n ≤ length c.bytes = omega (
        arith,
        h.inside,
        ap length h.ahead,
        length-drop c.position c.bytes,
        length-append xs rest,
      ) in
      rw (le→leb (c.position + n) (length c.bytes) fits) (rw (h.ahead, take-append n xs rest e, e));
}

pub Parses-try_get_fixed :
    (n : ℕ) (xs rest : List ℕ) → length xs ≡ n → Parses (try_get_fixed n) xs xs rest
unfolding try_get_fixed
Parses-try_get_fixed n xs rest e =
    Parses-checked n (get_fixed n) xs xs rest (omega arith) (Parses-get_fixed n xs rest e)

pub Parses-try_copy_to_slice :
    (n : ℕ) (xs rest : List ℕ) → length xs ≡ n → Parses (try_copy_to_slice n) xs xs rest
unfolding try_copy_to_slice
Parses-try_copy_to_slice n xs rest e =
    Parses-checked n (get_fixed n) xs xs rest (omega arith) (Parses-get_fixed n xs rest e)

-- Words, from the bytes that stand for them.
word :
    (n v : ℕ) (decode : List ℕ → ℕ) (xs rest : List ℕ)
    → length xs ≡ n
    → decode xs ≡ v
    → Parses (do bytes ← get_fixed n; pure (decode bytes)) xs v rest
unfolding ◌>>=◌
word n v decode xs rest e d = record {
  at = λ c h. rw ((Parses-get_fixed n xs rest e).at c h, ◌>>=◌) (rw d);
}

module _ (v : ℕ) (rest : List ℕ) where
  pub Parses-try_get_u32_le : v < 2 ^ 32 → Parses try_get_u32_le (to_le_bytes 4 v) v rest
  unfolding try_get_u32_le
  Parses-try_get_u32_le h =
      Parses-checked 4 get_u32_le (to_le_bytes 4 v) v rest (omega (arith, length-to_le_bytes 4 v)) (
        word 4 v from_le_bytes (to_le_bytes 4 v) rest (length-to_le_bytes 4 v)
          (from_le_bytes-to_le_bytes 4 v h))

  pub Parses-try_get_u32 : v < 2 ^ 32 → Parses try_get_u32 (to_be_bytes 4 v) v rest
  unfolding try_get_u32
  Parses-try_get_u32 h =
      Parses-checked 4 get_u32 (to_be_bytes 4 v) v rest (omega (arith, length-to_be_bytes 4 v)) (
        word 4 v from_be_bytes (to_be_bytes 4 v) rest (length-to_be_bytes 4 v)
          (from_be_bytes-to_be_bytes 4 v h))

  pub Parses-try_get_u64_le : v < 2 ^ 64 → Parses try_get_u64_le (to_le_bytes 8 v) v rest
  unfolding try_get_u64_le
  Parses-try_get_u64_le h =
      Parses-checked 8 get_u64_le (to_le_bytes 8 v) v rest (omega (arith, length-to_le_bytes 8 v)) (
        word 8 v from_le_bytes (to_le_bytes 8 v) rest (length-to_le_bytes 8 v)
          (from_le_bytes-to_le_bytes 8 v h))

  pub Parses-try_get_u64 : v < 2 ^ 64 → Parses try_get_u64 (to_be_bytes 8 v) v rest
  unfolding try_get_u64
  Parses-try_get_u64 h =
      Parses-checked 8 get_u64 (to_be_bytes 8 v) v rest (omega (arith, length-to_be_bytes 8 v)) (
        word 8 v from_be_bytes (to_be_bytes 8 v) rest (length-to_be_bytes 8 v)
          (from_be_bytes-to_be_bytes 8 v h))
