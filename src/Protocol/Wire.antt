-- ===== src/Protocol/Wire.antt =====
-- crates/roughenough-protocol/src/wire.rs: messages in frames.
-- `ToWire` and `FromWire` are what a message type provides: arguments of the functions here.
pub mod Frame
use roughenough.Prelude.{
  ℕ, ◌+◌, ◌%◌, ◌^◌, List, replicate, length, ltb, ◌==◌, not, Bool, true, false, ◌||◌, min,
  if◌then◌else◌,
}
use roughenough.Protocol.Error.{
  Result, ok, err, panic, unexpected_magic, unexpected_framing, buffer_too_small,
}
use roughenough.Protocol.Cursor.{
  ParseCursor, Action, ◌>>=◌, ◌>>◌, pure, refuse_if, gets, remaining, new, try_get_u64,
  try_get_u32_le, try_put_u64, try_put_u32_le,
}

abbrev pub frame_magic : ℕ
frame_magic = 0x524f55474854494d

abbrev pub frame_overhead : ℕ
frame_overhead = 12

abbrev pub minimum_frame_size : ℕ
minimum_frame_size = 100

-- A message that is written: `wire_size()` and `to_wire`.
unfoldable pub as_bytes : ℕ → Action Unit → Result (List ℕ)
as_bytes wire_size to_wire = elim (to_wire (new (replicate wire_size 0))) [
  | ok (u, c) ↦ ok c.bytes
  | err e ↦ err e
  | panic ↦ panic
]

unfoldable pub frame_size : ℕ → ℕ
frame_size wire_size = wire_size + frame_overhead

-- `self.wire_size() as u32` wraps.
unfoldable pub to_frame : ℕ → Action Unit → Action Unit
to_frame wire_size to_wire = do
  try_put_u64 frame_magic
  try_put_u32_le (wire_size % 2 ^ 32)
  to_wire

unfoldable pub as_frame_bytes : ℕ → Action Unit → Result (List ℕ)
unfolding as_bytes frame_size to_frame
as_frame_bytes wire_size to_wire = as_bytes (frame_size wire_size) (to_frame wire_size to_wire)

unfoldable pub from_frame : {A : Type 0} → Action A → Action A
from_frame from_wire = do
  magic ← try_get_u64
  refuse_if (not (magic == frame_magic)) (unexpected_magic magic)
  len ← try_get_u32_le
  left ← gets remaining
  refuse_if (ltb len minimum_frame_size || ltb left minimum_frame_size)
      (unexpected_framing (min len left))
  refuse_if (ltb left len) (buffer_too_small len left)
  from_wire
