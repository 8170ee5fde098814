-- ===== src/Protocol/Tags/Wire.antt =====
-- Fixed tags and message types on the wire: what tags/fixed_tag.rs and tags/mtype.rs read and write.
use roughenough.Prelude.{
  ℕ, ◌^◌, ◌<◌, ◌≡◌, ◌≢◌, refl, List, [], length, arith, ◌==◌, subst, append-nil,
}
use roughenough.Prelude.Bytes.{to_le_bytes, length-to_le_bytes}
use roughenough.Protocol.Error.{invalid_message_type}
use roughenough.Protocol.Cursor.Reads.{
  Parses, Parses-pure, Parses-bind, Parses-try_get_fixed, Parses-try_get_u32_le,
}
use roughenough.Protocol.Cursor.Writes.{Writes, Writes-try_put_fixed, Writes-put_u32_le}
use roughenough.Protocol.Cursor.Total.{
  Total, IsBytes, Total-pure, Total-fail, Total-if, Total-bind, Total-try_get_fixed,
  Total-try_get_u32_le,
}
use roughenough.Protocol.Tags.{
  FixedTag, fixed_to_wire, fixed_from_wire, MessageType, request, response, invalid, type_value,
  type_to_wire, type_of, type_from_wire,
}

pub fixed_to_wire-Writes : (xs : FixedTag) → Writes (fixed_to_wire xs) xs
unfolding fixed_to_wire
fixed_to_wire-Writes xs = Writes-try_put_fixed xs

pub fixed_from_wire-Parses :
    (n : ℕ) (xs rest : List ℕ) → length xs ≡ n → Parses (fixed_from_wire n) xs xs rest
unfolding fixed_from_wire
fixed_from_wire-Parses n xs rest e = Parses-try_get_fixed n xs rest e

pub fixed_from_wire-Total : (n : ℕ) → Total (fixed_from_wire n) (IsBytes n)
unfolding fixed_from_wire
fixed_from_wire-Total n = Total-try_get_fixed n

unfoldable pub type_bytes : MessageType → List ℕ
type_bytes t = to_le_bytes 4 (type_value t)

pub length-type_bytes : (t : MessageType) → length (type_bytes t) ≡ 4
unfolding type_bytes
length-type_bytes t = length-to_le_bytes 4 (type_value t)

pub type_to_wire-Writes : (t : MessageType) → Writes (type_to_wire t) (type_bytes t)
unfolding type_to_wire type_bytes
type_to_wire-Writes t = Writes-put_u32_le (type_value t)

type_value-lt : (t : MessageType) → type_value t < 2 ^ 32
unfolding type_value
type_value-lt request = omega arith
type_value-lt response = omega arith
type_value-lt invalid = omega arith

type_of-Parses :
    (t : MessageType) (rest : List ℕ) → t ≢ invalid → Parses (type_of (type_value t)) [] t rest
unfolding type_of type_value
type_of-Parses request rest h = Parses-pure request rest
type_of-Parses response rest h = Parses-pure response rest
type_of-Parses invalid rest h = absurd (h refl)

pub type_from_wire-Parses :
    (t : MessageType) (rest : List ℕ) → t ≢ invalid → Parses type_from_wire (type_bytes t) t rest
unfolding type_from_wire type_bytes
type_from_wire-Parses t rest h =
    subst (λ xs. Parses type_from_wire xs t rest) (append-nil (to_le_bytes 4 (type_value t)))
      (Parses-bind _ (to_le_bytes 4 (type_value t)) [] rest
        (Parses-try_get_u32_le (type_value t) rest (type_value-lt t)) (type_of-Parses t rest h))

pub type_from_wire-Total : Total type_from_wire (λ _. Unit {0})
unfolding type_from_wire type_of
type_from_wire-Total = Total-bind _ _ Total-try_get_u32_le λ value _.
    Total-if (value == 0x00000000) _ _ (λ _. Total-pure request tt)
      λ _.
        Total-if (value == 0x00000001) _ _ (λ _. Total-pure response tt)
          λ _. Total-fail (invalid_message_type value)
