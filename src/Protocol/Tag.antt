-- ===== src/Protocol/Tag.antt =====
-- crates/roughenough-protocol/src/tag.rs: the tags of a message, their wire form and their order.
pub mod Order
pub mod Wire
use roughenough.Prelude.{
  ℕ, ◌+◌, Bool, true, false, List, [], ◌∷◌, length, take, ltb, ◌==◌, if◌then◌else◌,
}
use roughenough.Prelude.Bytes.{to_le_bytes, to_be_bytes, from_be_bytes}
use roughenough.Protocol.Error.{Result, ok, err, buffer_too_small, invalid_tag}

pub data Tag : Type 0 where
  invalid sig ver srv nonc dele type path radi pubk midp srep vers mint root cert maxt indx zzzz
        pad :
      Tag

-- `*self as u32`
unfoldable pub tag_value : Tag → ℕ
tag_value invalid = 0
tag_value sig = 0x53494700
tag_value ver = 0x56455200
tag_value srv = 0x53525600
tag_value nonc = 0x4e4f4e43
tag_value dele = 0x44454c45
tag_value type = 0x54595045
tag_value path = 0x50415448
tag_value radi = 0x52414449
tag_value pubk = 0x5055424b
tag_value midp = 0x4d494450
tag_value srep = 0x53524550
tag_value vers = 0x56455253
tag_value mint = 0x4d494e54
tag_value root = 0x524f4f54
tag_value cert = 0x43455254
tag_value maxt = 0x4d415854
tag_value indx = 0x494e4458
tag_value zzzz = 0x5a5a5a5a
tag_value pad = 0x504144ff

-- The order of two byte arrays, which is lexicographic.
unfoldable pub lt_bytes : List ℕ → List ℕ → Bool
lt_bytes [] [] = false
lt_bytes [] (y ∷ ys) = true
lt_bytes (x ∷ xs) [] = false
lt_bytes (x ∷ xs) (y ∷ ys) = if ltb x y then true else if x == y then lt_bytes xs ys else false

-- `self < other`, by `Ord::cmp`.
unfoldable pub lt : Tag → Tag → Bool
unfolding tag_value lt_bytes to_le_bytes
lt a b = lt_bytes (to_le_bytes 4 (tag_value a)) (to_le_bytes 4 (tag_value b))

unfoldable pub wire_value : Tag → List ℕ
unfolding tag_value to_be_bytes
wire_value t = to_be_bytes 4 (tag_value t)

unfoldable pub bytes_eq : List ℕ → List ℕ → Bool
bytes_eq [] [] = true
bytes_eq [] (y ∷ ys) = false
bytes_eq (x ∷ xs) [] = false
bytes_eq (x ∷ xs) (y ∷ ys) = if x == y then bytes_eq xs ys else false

-- The arms of the `match` in `from_wire`.
abbrev pub arms : List (List ℕ × Tag)
arms =
    (b'S' ∷ b'I' ∷ b'G' ∷ 0 ∷ [], sig)
    ∷ (b'V' ∷ b'E' ∷ b'R' ∷ 0 ∷ [], ver)
    ∷ (b'S' ∷ b'R' ∷ b'V' ∷ 0 ∷ [], srv)
    ∷ (b'N' ∷ b'O' ∷ b'N' ∷ b'C' ∷ [], nonc)
    ∷ (b'D' ∷ b'E' ∷ b'L' ∷ b'E' ∷ [], dele)
    ∷ (b'T' ∷ b'Y' ∷ b'P' ∷ b'E' ∷ [], type)
    ∷ (b'P' ∷ b'A' ∷ b'T' ∷ b'H' ∷ [], path)
    ∷ (b'R' ∷ b'A' ∷ b'D' ∷ b'I' ∷ [], radi)
    ∷ (b'P' ∷ b'U' ∷ b'B' ∷ b'K' ∷ [], pubk)
    ∷ (b'M' ∷ b'I' ∷ b'D' ∷ b'P' ∷ [], midp)
    ∷ (b'S' ∷ b'R' ∷ b'E' ∷ b'P' ∷ [], srep)
    ∷ (b'V' ∷ b'E' ∷ b'R' ∷ b'S' ∷ [], vers)
    ∷ (b'M' ∷ b'I' ∷ b'N' ∷ b'T' ∷ [], mint)
    ∷ (b'R' ∷ b'O' ∷ b'O' ∷ b'T' ∷ [], root)
    ∷ (b'C' ∷ b'E' ∷ b'R' ∷ b'T' ∷ [], cert)
    ∷ (b'M' ∷ b'A' ∷ b'X' ∷ b'T' ∷ [], maxt)
    ∷ (b'I' ∷ b'N' ∷ b'D' ∷ b'X' ∷ [], indx)
    ∷ (b'Z' ∷ b'Z' ∷ b'Z' ∷ b'Z' ∷ [], zzzz)
    ∷ (b'P' ∷ b'A' ∷ b'D' ∷ 0xff ∷ [], pad)
    ∷ []

unfoldable pub match_arms : List ℕ → List (List ℕ × Tag) → Result Tag
unfolding bytes_eq from_be_bytes
match_arms bytes [] = err (invalid_tag (from_be_bytes (take 4 bytes)))
match_arms bytes ((literal, t) ∷ rest) =
    if bytes_eq literal bytes then ok t else match_arms bytes rest

unfoldable pub from_wire : List ℕ → Result Tag
unfolding match_arms
from_wire bytes =
    if ltb (length bytes) 4 then err (buffer_too_small 4 (length bytes)) else match_arms bytes arms

-- `Tag::try_from(value)`
unfoldable pub try_from : ℕ → Result Tag
unfolding from_wire to_be_bytes
try_from value = from_wire (to_be_bytes 4 value)

unfoldable pub is_nested : Tag → Bool
is_nested cert = true
is_nested dele = true
is_nested srep = true
is_nested _ = false
