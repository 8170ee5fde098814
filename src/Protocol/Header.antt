-- ===== src/Protocol/Header.antt =====
-- crates/roughenough-protocol/src/header.rs: the header of a message of `n` tags, which the macro
-- `make_header_n` makes for each `n`.
pub mod Spec
pub mod Reads
pub mod Writes
pub mod Total
pub mod RoundTrip
use roughenough.Prelude.{
  ℕ, zero, suc, ◌+◌, ◌-◌, ◌*◌, ◌%◌, ◌^◌, List, [], ◌∷◌, ◌++◌, length, replicate, ltb, ◌==◌, not,
  if◌then◌else◌,
}
use roughenough.Protocol.Error.{
  Error, Result, ok, err, buffer_too_small, mismatched_num_tags, unaligned_offset, unordered_offset,
  unordered_tag, out_of_bounds_offset,
}
use roughenough.Protocol.Cursor.{
  Action, ◌>>=◌, ◌>>◌, pure, fail, lift, refuse_if, gets, remaining, try_get_u32_le, try_get_u32,
  put_u32_le, put_slice,
}
use roughenough.Protocol.Tag
use roughenough.Protocol.Tag.{Tag}

-- `offsets` has `n - 1` entries and `tags` has `n`; the field `num_tags` is always `n`.
pub record Header : Type 0 where
  pub offsets : List ℕ
  pub tags : List Tag

unfoldable pub default : ℕ → Header
default n = record { offsets = replicate (n - 1) 0; tags = replicate n Tag.invalid }

-- `size_of::<HeaderN>()`: three arrays of 32-bit words, with `2 * n` words in all.
abbrev pub wire_size : ℕ → ℕ
wire_size n = 8 * n

put_offsets : List ℕ → Action Unit
put_offsets [] = pure tt
put_offsets (offset ∷ rest) = do put_u32_le offset; put_offsets rest

put_tags : List Tag → Action Unit
put_tags [] = pure tt
put_tags (t ∷ rest) = do put_slice (Tag.wire_value t); put_tags rest

unfoldable pub to_wire : ℕ → Header → Action Unit
unfolding put_offsets put_tags
to_wire n header = do
  left ← gets remaining
  refuse_if (ltb left (wire_size n)) (buffer_too_small (wire_size n) left)
  put_u32_le n
  put_offsets header.offsets
  put_tags header.tags

-- The first loop of `from_wire_inner`, from `idx` on with `rounds` offsets to read.
unfoldable pub get_offsets : ℕ → ℕ → ℕ → Action (List ℕ)
get_offsets zero idx prior = pure []
get_offsets (suc rounds) idx prior = do
  value ← try_get_u32_le
  refuse_if (not (value % 4 == 0)) (unaligned_offset idx value)
  refuse_if (ltb value prior) (unordered_offset idx value)
  rest ← get_offsets rounds (idx + 1) value
  pure (value ∷ rest)

-- The second loop.
unfoldable pub get_tags : ℕ → ℕ → Tag → Action (List Tag)
get_tags zero idx prior = pure []
get_tags (suc rounds) idx prior = do
  value ← try_get_u32
  t ← lift (Tag.try_from value)
  refuse_if (Tag.lt t prior) (unordered_tag idx value)
  rest ← get_tags rounds (idx + 1) t
  pure (t ∷ rest)

unfoldable pub from_wire : ℕ → Action Header
unfolding get_offsets get_tags
from_wire n = do
  left ← gets remaining
  refuse_if (ltb left (wire_size n)) (buffer_too_small (wire_size n) left)
  read_num_tags ← try_get_u32_le
  refuse_if (not (n == read_num_tags)) (mismatched_num_tags n read_num_tags)
  offsets ← get_offsets (n - 1) 0 0
  tags ← get_tags n 0 Tag.invalid
  pure (record { offsets = offsets; tags = tags })

-- The loop over the offsets from `idx` on. `total_len as u32` wraps.
unfoldable pub check_offsets : ℕ → List ℕ → ℕ → Result (Unit {0})
check_offsets idx [] total_len = ok tt
check_offsets idx (offset ∷ rest) total_len =
    if ltb (total_len % 2 ^ 32) offset
    then err (out_of_bounds_offset idx offset)
    else check_offsets (idx + 1) rest total_len

unfoldable pub check_offset_bounds : Header → ℕ → Result (Unit {0})
unfolding check_offsets
check_offset_bounds header total_len = check_offsets 0 header.offsets total_len

-- `header.check_offset_bounds(cursor.remaining())?`
unfoldable pub check_remaining : Header → Action Unit
check_remaining header = do left ← gets remaining; lift (check_offset_bounds header left)
