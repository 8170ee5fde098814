-- ===== src/Protocol/Wire/Frame.antt =====
-- Frames on the wire: what wire.rs reads and writes, for any message type.
use roughenough.Prelude.{
  ℕ, ◌+◌, ◌%◌, ◌^◌, ◌≤◌, ◌<◌, ◌≡◌, refl, ap, ap₂, sym, ◌∙◌, List, [], ◌++◌, length, arith, ltb,
  ◌==◌, ◌||◌, not, false, min, eq→==, le→not_ltb, length-append, append-nil,
}
use roughenough.Prelude.Bytes.{to_le_bytes, to_be_bytes, length-to_le_bytes, length-to_be_bytes}
use roughenough.Protocol.Error.{ok, unexpected_magic, unexpected_framing, buffer_too_small}
use roughenough.Protocol.Cursor.{Action, remaining, new, remaining_bytes, skip}
use roughenough.Protocol.Cursor.Reads.{
  Parses, Parses-bind, Parses-test, Parses-remaining, Parses-try_get_u64, Parses-try_get_u32_le,
}
use roughenough.Protocol.Cursor.Writes.{
  Writes, Writes-bind, Writes-try_put_u64, Writes-try_put_u32_le, Writes-new,
}
use roughenough.Protocol.Cursor.Total.{
  Total, Total-bind, Total-gets, Total-refuse_if, Total-try_get_u64, Total-try_get_u32_le,
}
use roughenough.Protocol.Wire.{
  frame_magic, minimum_frame_size, as_bytes, frame_size, to_frame, as_frame_bytes, from_frame,
}

-- RFC section 5: the magic value, the length of the message, the message.
unfoldable pub frame_bytes : ℕ → List ℕ → List ℕ
frame_bytes size message = to_be_bytes 8 frame_magic ++ (to_le_bytes 4 size ++ message)

pub length-frame_bytes :
    (size : ℕ) (xs : List ℕ) → length (frame_bytes size xs) ≡ frame_size (length xs)
unfolding frame_bytes frame_size
length-frame_bytes size xs = omega (
  arith,
  length-append (to_be_bytes 8 frame_magic) (to_le_bytes 4 size ++ xs),
  length-append (to_le_bytes 4 size) xs,
  length-to_be_bytes 8 frame_magic,
  length-to_le_bytes 4 size,
)

long_enough :
    (len left : ℕ)
    → minimum_frame_size ≤ len
    → len ≤ left
    → (ltb len minimum_frame_size || ltb left minimum_frame_size) ≡ false
long_enough len left h k =
    rw (le→not_ltb len minimum_frame_size h, le→not_ltb left minimum_frame_size (omega arith))

module _ {A : Type 0} {m : Action A} where
  -- A frame around bytes that the message type reads.
  pub from_frame-Parses :
      (xs rest : List ℕ) {a : A}
      → minimum_frame_size ≤ length xs + length rest
      → length xs + length rest < 2 ^ 32
      → Parses m xs a rest
      → Parses (from_frame m) (frame_bytes (length xs + length rest) xs) a rest
  unfolding from_frame frame_bytes
  from_frame-Parses xs rest long short p =
      let len : ℕ = length xs + length rest in
      Parses-bind _ (to_be_bytes 8 frame_magic) (to_le_bytes 4 len ++ xs) rest
        (Parses-try_get_u64 frame_magic ((to_le_bytes 4 len ++ xs) ++ rest) (omega arith))
        (Parses-test (not (frame_magic == frame_magic)) (unexpected_magic frame_magic) _
          (to_le_bytes 4 len ++ xs) rest (ap not (eq→== frame_magic frame_magic refl))
          (Parses-bind _ (to_le_bytes 4 len) xs rest (Parses-try_get_u32_le len (xs ++ rest) short)
            (Parses-remaining _ xs rest (
              Parses-test (ltb len minimum_frame_size || ltb len minimum_frame_size)
                (unexpected_framing (min len len)) _ xs rest
                (long_enough len len long (omega arith))
                (Parses-test (ltb len len) (buffer_too_small len len) _ xs rest
                  (le→not_ltb len len (omega arith)) p)))))

  -- `from_frame` panics on no bytes on which `from_wire` does not.
  pub from_frame-Total : {P : A → Type 0} → Total m P → Total (from_frame m) P
  unfolding from_frame
  from_frame-Total p = Total-bind _ _ Total-try_get_u64 λ magic _.
      Total-bind _ _ (Total-refuse_if (not (magic == frame_magic)) (unexpected_magic magic)) λ _ _.
        Total-bind _ _ Total-try_get_u32_le λ len _. Total-bind _ _ (Total-gets remaining) λ left _.
          Total-bind _ _
            (Total-refuse_if (ltb len minimum_frame_size || ltb left minimum_frame_size)
              (unexpected_framing (min len left)))
            λ _ _.
              Total-bind _ _ (Total-refuse_if (ltb left len) (buffer_too_small len left)) λ _ _. p

module _ {m : Action Unit} {xs : List ℕ} where
  pub to_frame-Writes :
      (size : ℕ) → size < 2 ^ 32 → Writes m xs → Writes (to_frame size m) (frame_bytes size xs)
  unfolding to_frame frame_bytes
  to_frame-Writes size small p =
      let whole : size % 2 ^ 32 ≡ size = omega arith in
      rw whole (
        Writes-bind _ (Writes-try_put_u64 frame_magic)
          (Writes-bind _ (Writes-try_put_u32_le size) p))

  pub as_bytes-Writes : (size : ℕ) → Writes m xs → length xs ≡ size → as_bytes size m ≡ ok xs
  unfolding as_bytes
  as_bytes-Writes size p e = rw (Writes-new size p e, as_bytes)

-- A new frame holds the magic value, the length of the message and the message.
pub as_frame_bytes-Writes :
    {m : Action Unit} {xs : List ℕ} (size : ℕ)
    → size < 2 ^ 32
    → Writes m xs
    → length xs ≡ size
    → as_frame_bytes size m ≡ ok (frame_bytes size xs)
unfolding as_frame_bytes
as_frame_bytes-Writes {xs = xs} size small p e =
    as_bytes-Writes (frame_size size) (to_frame-Writes size small p)
      (length-frame_bytes size xs ∙ ap frame_size e)

-- A whole buffer that a reader accepts.
pub Parses-new :
    {A : Type 0} {m : Action A} (xs rest : List ℕ) {a : A}
    → Parses m xs a rest
    → m (new (xs ++ rest)) ≡ ok (a, record { bytes = xs ++ rest; position = length xs })
unfolding new remaining_bytes skip
Parses-new xs rest {a} p =
    p.at (new (xs ++ rest)) (record { inside = omega arith; ahead = refl })
    ∙ ap (λ n. ok (a, record { bytes = xs ++ rest; position = n })) (omega arith)

-- A whole buffer that a reader reads to its end.
pub Parses-whole :
    {A : Type 0} {m : Action A} (n : ℕ) (xs : List ℕ) {a : A}
    → Parses m xs a []
    → length xs ≡ n
    → m (new xs) ≡ ok (a, record { bytes = xs; position = n })
Parses-whole {m = m} n xs {a} p e =
    ap (λ ys. m (new ys)) (sym (append-nil xs))
    ∙ Parses-new xs [] p
    ∙ ap₂ (λ ys k. ok (a, record { bytes = ys; position = k })) (append-nil xs) e
