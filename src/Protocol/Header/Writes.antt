-- ===== src/Protocol/Header/Writes.antt =====
-- `to_wire` of header.rs writes the bytes of the header.
use roughenough.Prelude.{ℕ, ◌-◌, ◌<◌, ◌≡◌, List, [], ◌∷◌, length, arith}
use roughenough.Protocol.Cursor.Writes.{
  Writes, Writes-pure, Writes-bind, Writes-put_slice, Writes-put_u32_le, Writes-room,
}
use roughenough.Protocol.Tag
use roughenough.Protocol.Tag.{Tag}
use roughenough.Protocol.Header.{Header, wire_size, put_offsets, put_tags, to_wire}
use roughenough.Protocol.Header.Spec.{offset_bytes, tag_bytes, encode, length-encode}

put_offsets-Writes : (xs : List ℕ) → Writes (put_offsets xs) (offset_bytes xs)
unfolding put_offsets offset_bytes
put_offsets-Writes [] = Writes-pure
put_offsets-Writes (x ∷ xs) = Writes-bind _ (Writes-put_u32_le x) (put_offsets-Writes xs)

put_tags-Writes : (ts : List Tag) → Writes (put_tags ts) (tag_bytes ts)
unfolding put_tags tag_bytes
put_tags-Writes [] = Writes-pure
put_tags-Writes (t ∷ ts) = Writes-bind _ (Writes-put_slice (Tag.wire_value t)) (put_tags-Writes ts)

-- Where there is room, `to_wire` writes the bytes of the header, `8 * n` in number.
pub to_wire-encode :
    (n : ℕ) (header : Header)
    → 0 < n
    → length header.offsets ≡ n - 1
    → length header.tags ≡ n
    → Writes (to_wire n header) (encode n header)
unfolding to_wire encode
to_wire-encode n header pos o t =
    Writes-room (wire_size n) _ (unfold encode in omega (arith, length-encode n header pos o t)) (
      Writes-bind _ (Writes-put_u32_le n)
        (Writes-bind _ (put_offsets-Writes header.offsets) (put_tags-Writes header.tags)))
