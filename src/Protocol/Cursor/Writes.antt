-- ===== src/Protocol/Cursor/Writes.antt =====
-- What the writing methods of cursor.rs leave in the buffer, where it has room.
use roughenough.Prelude.{
  ℕ, ◌+◌, ◌≤◌, ◌≡◌, ap, ap₂, ◌∙◌, sym, List, [], ◌++◌, length, take, drop, replicate, ltb, arith,
  le→leb, le→not_ltb, length-append, length-drop, length-take, take-append, drop-append,
  append_assoc, append-nil, subst, drop-drop, take-append-drop, length-replicate, drop_all, Bool,
  false,
}
use roughenough.Prelude.Bytes.{to_le_bytes, to_be_bytes, length-to_le_bytes, length-to_be_bytes}
use roughenough.Protocol.Error.{Error, ok, buffer_too_small}
use roughenough.Protocol.Cursor.{
  ParseCursor, Action, ◌>>=◌, pure, refuse_if, gets, new, remaining, checked, written, put_slice,
  try_put_fixed, put_u32_le, try_put_u32_le, put_u64_le, put_u64, try_put_u64,
}

-- `n` bytes of room.
pub record HasRoom (c : ParseCursor) (n : ℕ) : Type 0 where
  pub room : c.position + n ≤ length c.bytes

pub HasRoom-remaining : {c : ParseCursor} {n : ℕ} → HasRoom c n → n ≤ remaining c
unfolding remaining
HasRoom-remaining h = omega arith

length-written :
    (xs : List ℕ) (c : ParseCursor)
    → HasRoom c (length xs)
    → length (written xs c).bytes ≡ length c.bytes
unfolding written
length-written xs c h = omega (
  arith,
  h.room,
  length-append (take c.position c.bytes) (xs ++ drop (c.position + length xs) c.bytes),
  length-append xs (drop (c.position + length xs) c.bytes),
  length-take c.position c.bytes,
  length-drop (c.position + length xs) c.bytes,
)

HasRoom-written :
    (xs : List ℕ) (n : ℕ) (c : ParseCursor) → HasRoom c (length xs + n) → HasRoom (written xs c) n
unfolding written
HasRoom-written xs n c h =
    let same : length (written xs c).bytes ≡ length c.bytes =
      length-written xs c (record { room = omega (arith, h.room) }) in
    record { room = omega (arith, h.room, same) }

-- Two writes in a row are one.
written-written :
    (xs ys : List ℕ) (c : ParseCursor)
    → HasRoom c (length xs + length ys)
    → written ys (written xs c) ≡ written (xs ++ ys) c
unfolding written
written-written xs ys c h =
    let front : List ℕ = take c.position c.bytes in
    let back : List ℕ = drop (c.position + length xs) c.bytes in
    let at : length (front ++ xs) ≡ c.position + length xs =
      omega (arith, h.room, length-append front xs, length-take c.position c.bytes) in
    let cut : take (c.position + length xs) (front ++ (xs ++ back)) ≡ front ++ xs =
      ap (take (c.position + length xs)) (sym (append_assoc front xs back))
      ∙ take-append (c.position + length xs) (front ++ xs) back at in
    let past : drop (c.position + length xs + length ys) (front ++ (xs ++ back))
        ≡ drop (c.position + length (xs ++ ys)) c.bytes =
      sym (drop-drop (c.position + length xs) (length ys) (front ++ (xs ++ back)))
      ∙ ap (drop (length ys)) (
          ap (drop (c.position + length xs)) (sym (append_assoc front xs back))
          ∙ drop-append (c.position + length xs) (front ++ xs) back at)
      ∙ drop-drop (c.position + length xs) (length ys) c.bytes
      ∙ ap (λ n. drop n c.bytes) (omega (arith, length-append xs ys)) in
    let joined : (front ++ xs) ++ (ys ++ drop (c.position + length (xs ++ ys)) c.bytes)
        ≡ front ++ ((xs ++ ys) ++ drop (c.position + length (xs ++ ys)) c.bytes) =
      simp append_assoc in
    ap₂ (λ bs p. record { bytes = bs; position = p })
      (ap₂ (λ zs ws. zs ++ (ys ++ ws)) cut past ∙ joined) (omega (arith, length-append xs ys))

written_nothing : (c : ParseCursor) → HasRoom c 0 → written [] c ≡ c
unfolding written
written_nothing c h =
    let whole : take c.position c.bytes ++ drop (c.position + 0) c.bytes ≡ c.bytes =
      ap (λ n. take c.position c.bytes ++ drop n c.bytes) (omega arith)
      ∙ take-append-drop c.position c.bytes in
    ap₂ (λ bs p. record { bytes = bs; position = p }) whole (omega arith)

-- Where there is room for `xs`, the action writes it, and nothing else.
pub record Writes (m : Action Unit) (xs : List ℕ) : Type 0 where
  pub at : (c : ParseCursor) → HasRoom c (length xs) → m c ≡ ok (tt, written xs c)

pub Writes-pure : Writes (pure tt) []
Writes-pure = record { at = λ c h. ap (λ d. ok (tt, d)) (sym (written_nothing c h)) }

pub Writes-bind :
    {m : Action Unit} (k : Unit → Action Unit) {xs ys : List ℕ}
    → Writes m xs
    → Writes (k tt) ys
    → Writes (m >>= k) (xs ++ ys)
unfolding ◌>>=◌
Writes-bind k {xs = xs} {ys = ys} p q = record {
  at = λ c h.
      let h' : HasRoom c (length xs + length ys) = record {
        room = omega (arith, h.room, length-append xs ys);
      } in
      rw (p.at c (record { room = omega (arith, h'.room) }), ◌>>=◌)
        (q.at (written xs c) (HasRoom-written xs (length ys) c h')
          ∙ ap (λ d. ok (tt, d)) (written-written xs ys c h'));
}

pub Writes-put_slice : (xs : List ℕ) → Writes (put_slice xs) xs
unfolding put_slice
Writes-put_slice xs = record {
  at = λ c h. rw (le→leb (c.position + length xs) (length c.bytes) h.room);
}

pub Writes-checked :
    (n : ℕ) (m : Action Unit) (xs : List ℕ) → n ≤ length xs → Writes m xs → Writes (checked n m) xs
unfolding checked
Writes-checked n m xs fits p = record {
  at = λ c h. rw (le→not_ltb (remaining c) n (omega (arith, HasRoom-remaining h))) (p.at c h);
}

pub Writes-refuse_if : (b : Bool) (e : Error) → b ≡ false → Writes (refuse_if b e) []
Writes-refuse_if b e h = rw h Writes-pure

pub Writes-try_put_fixed : (xs : List ℕ) → Writes (try_put_fixed xs) xs
unfolding try_put_fixed
Writes-try_put_fixed xs =
    Writes-checked (length xs) (put_slice xs) xs (omega arith) (Writes-put_slice xs)

pub Writes-put_u32_le : (v : ℕ) → Writes (put_u32_le v) (to_le_bytes 4 v)
unfolding put_u32_le
Writes-put_u32_le v = Writes-put_slice (to_le_bytes 4 v)

pub Writes-try_put_u32_le : (v : ℕ) → Writes (try_put_u32_le v) (to_le_bytes 4 v)
unfolding try_put_u32_le
Writes-try_put_u32_le v =
    Writes-checked 4 (put_u32_le v) (to_le_bytes 4 v) (omega (arith, length-to_le_bytes 4 v))
      (Writes-put_u32_le v)

pub Writes-put_u64_le : (v : ℕ) → Writes (put_u64_le v) (to_le_bytes 8 v)
unfolding put_u64_le
Writes-put_u64_le v = Writes-put_slice (to_le_bytes 8 v)

pub Writes-try_put_u64 : (v : ℕ) → Writes (try_put_u64 v) (to_be_bytes 8 v)
unfolding try_put_u64 put_u64
Writes-try_put_u64 v =
    Writes-checked 8 (put_u64 v) (to_be_bytes 8 v) (omega (arith, length-to_be_bytes 8 v))
      (unfold put_u64 in Writes-put_slice (to_be_bytes 8 v))

pub Writes-eq : {m : Action Unit} {xs ys : List ℕ} → xs ≡ ys → Writes m xs → Writes m ys
Writes-eq {m} e p = subst (Writes m) e p

-- In a new buffer of just the size the bytes are all that is there.
pub Writes-new :
    {m : Action Unit} {xs : List ℕ} (n : ℕ)
    → Writes m xs
    → length xs ≡ n
    → m (new (replicate n 0)) ≡ ok (tt, record { bytes = xs; position = n })
unfolding new written
Writes-new {xs = xs} n p e =
    let full : length (replicate {A = ℕ} n 0) ≡ n = length-replicate n 0 in
    let rest : drop (0 + length xs) (replicate {A = ℕ} n 0) ≡ [] =
      drop_all (0 + length xs) (replicate n 0) (omega arith) in
    p.at (new (replicate n 0)) (unfold new in record { room = omega arith })
    ∙ ap₂ (λ bs k. ok (tt, record { bytes = bs; position = k }))
        (ap (λ ys. xs ++ ys) rest ∙ append-nil xs) (omega arith)

-- The test for room with which a `to_wire` begins.
pub Writes-room :
    (n : ℕ) (f : Unit {0} → Action Unit) {xs : List ℕ}
    → n ≤ length xs
    → Writes (f tt) xs
    → Writes
        (gets remaining >>= λ left. (refuse_if (ltb left n) (buffer_too_small n left) >>= f))
        xs
unfolding ◌>>=◌ gets
Writes-room n f fits p = record {
  at = λ c h. rw (le→not_ltb (remaining c) n (omega (arith, HasRoom-remaining h))) (p.at c h);
}
