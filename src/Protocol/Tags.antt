-- ===== src/Protocol/Tags.antt =====
-- crates/roughenough-protocol/src/tags: the values of the tags.
-- Nonces, signatures, keys and roots are `FixedTag`s: byte arrays of a fixed size.
pub mod Wire
pub mod Path
pub mod Dele
pub mod Srep
use roughenough.Prelude.{ℕ, Bool, List, length, replicate, ltb, ◌==◌, not, if◌then◌else◌}
use roughenough.Protocol.Error.{Result, ok, err, wrong_tag_size, invalid_message_type}
use roughenough.Protocol.Cursor.{
  Action, ◌>>=◌, ◌>>◌, pure, fail, try_get_fixed, try_put_fixed, try_get_u32_le, put_u32_le,
}

-- The sizes of NONC, SRV, PUBK and ROOT, and of SIG.
abbrev pub nonce_size : ℕ
nonce_size = 32

abbrev pub srv_size : ℕ
srv_size = 32

abbrev pub public_key_size : ℕ
public_key_size = 32

abbrev pub root_size : ℕ
root_size = 32

abbrev pub signature_size : ℕ
signature_size = 64

-- `FixedTag<N>`, by its bytes.
abbrev pub FixedTag : Type 0
FixedTag = List ℕ

unfoldable pub fixed_default : ℕ → FixedTag
fixed_default n = replicate n 0

unfoldable pub from_slice : ℕ → List ℕ → Result FixedTag
from_slice n slice =
    if not (length slice == n) then err (wrong_tag_size n (length slice)) else ok slice

unfoldable pub fixed_to_wire : FixedTag → Action Unit
fixed_to_wire tag = try_put_fixed tag

unfoldable pub fixed_from_wire : ℕ → Action FixedTag
fixed_from_wire n = try_get_fixed n

pub data MessageType : Type 0 where
  request response invalid : MessageType

unfoldable pub type_value : MessageType → ℕ
type_value request = 0x00000000
type_value response = 0x00000001
type_value invalid = 0xffffffff

abbrev pub type_size : ℕ
type_size = 4

unfoldable pub type_to_wire : MessageType → Action Unit
unfolding type_value
type_to_wire t = put_u32_le (type_value t)

unfoldable pub type_of : ℕ → Action MessageType
type_of value =
    if value == 0x00000000
    then pure request
    else if value == 0x00000001
    then pure response
    else fail (invalid_message_type value)

unfoldable pub type_from_wire : Action MessageType
unfolding type_of
type_from_wire = do value ← try_get_u32_le; type_of value

unfoldable pub type_eq : MessageType → MessageType → Bool
unfolding type_value
type_eq a b = type_value a == type_value b
