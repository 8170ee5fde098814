-- ===== src/Protocol/Version.antt =====
-- crates/roughenough-protocol/src/protocol_ver.rs and version_list.rs: protocol versions, and the
-- ordered lists of them that VER and VERS hold.
pub mod Wire
use Prim.Native.String
use Prim.Native.String.{String}
use roughenough.Prelude.{
  ℕ, zero, suc, ◌+◌, ◌-◌, ◌*◌, Bool, true, false, Option, none, some, List, [], ◌∷◌, ◌++◌, length,
  take, min, ltb, ◌==◌, if◌then◌else◌, codes,
}
use roughenough.Protocol.Error.{Result, ok, panic, invalid_version, unordered_version}
use roughenough.Protocol.Cursor.{
  gets, remaining, Action, ◌>>=◌, ◌>>◌, pure, fail, lift, refuse_if, try_get_u32_le, put_u32_le,
}

pub data ProtocolVersion : Type 0 where
  rfc_draft08 rfc_draft14 : ProtocolVersion

unfoldable pub version_value : ProtocolVersion → ℕ
version_value rfc_draft08 = 0x80000008
version_value rfc_draft14 = 0x8000000c

unfoldable pub dele_prefix : ProtocolVersion → List ℕ
dele_prefix rfc_draft08 = codes "RoughTime v1 delegation signature--" ++ (0 ∷ [])
dele_prefix rfc_draft14 = codes "RoughTime v1 delegation signature" ++ (0 ∷ [])

unfoldable pub srep_prefix : ProtocolVersion → List ℕ
srep_prefix _ = codes "RoughTime v1 response signature" ++ (0 ∷ [])

unfoldable pub requires_type_tag : ProtocolVersion → Bool
requires_type_tag rfc_draft08 = false
requires_type_tag rfc_draft14 = true

-- The derived `<`.
unfoldable pub version_lt : ProtocolVersion → ProtocolVersion → Bool
unfolding version_value
version_lt a b = ltb (version_value a) (version_value b)

-- The derived `==`.
unfoldable pub version_eq : ProtocolVersion → ProtocolVersion → Bool
unfolding version_value
version_eq a b = version_value a == version_value b

abbrev pub version_size : ℕ
version_size = 4

unfoldable pub version_to_wire : ProtocolVersion → Action Unit
unfolding version_value
version_to_wire version = put_u32_le (version_value version)

-- The arms of the `match` on the word that is read.
unfoldable pub version_of : ℕ → Action ProtocolVersion
version_of value =
    if value == 0x00000000
    then pure rfc_draft08
    else if value == 0x80000008
    then pure rfc_draft08
    else if value == 0x8000000c
    then pure rfc_draft14
    else fail (invalid_version value)

unfoldable pub version_from_wire : Action ProtocolVersion
unfolding version_of
version_from_wire = do value ← try_get_u32_le; version_of value

abbrev pub max_versions : ℕ
max_versions = 32

-- The field `versions` of a `VersionList`. `RequestedVersions` and `SupportedVersions` wrap it.
abbrev pub VersionList : Type 0
VersionList = List ProtocolVersion

unfoldable pub new_versions : List ProtocolVersion → VersionList
new_versions versions = take (min (length versions) max_versions) versions

unfoldable pub is_supported : VersionList → ProtocolVersion → Bool
unfolding version_eq
is_supported [] version = false
is_supported (v ∷ versions) version =
    if version_eq v version then true else is_supported versions version

unfoldable pub versions_wire_size : VersionList → ℕ
versions_wire_size versions = length versions * version_size

unfoldable pub versions_to_wire : VersionList → Action Unit
unfolding version_to_wire
versions_to_wire [] = pure tt
versions_to_wire (version ∷ versions) = do version_to_wire version; versions_to_wire versions

unfoldable pub is_below : ProtocolVersion → Option ProtocolVersion → Bool
unfolding version_lt
is_below version none = false
is_below version (some prior) = version_lt version prior

-- `a -= b` on `usize`, which must not pass below 0.
unfoldable pub sub_assign : ℕ → ℕ → Result ℕ
sub_assign a b = if ltb a b then panic else ok (a - b)

-- The loop of `from_wire_n`, with room for `room` more versions after the first `idx`.
unfoldable pub get_versions : ℕ → ℕ → ℕ → Option ProtocolVersion → Action VersionList
unfolding version_from_wire is_below sub_assign
get_versions zero idx left prior = pure []
get_versions (suc room) idx left prior = elim (ltb 0 left) [
  | true ↦ do
    version ← version_from_wire
    refuse_if (is_below version prior) (unordered_version idx (version_value version))
    left' ← lift (sub_assign left version_size)
    rest ← get_versions room (idx + 1) left' (some version)
    pure (version ∷ rest)
  | false ↦ pure []
]

unfoldable pub versions_from_wire_n : ℕ → Action VersionList
unfolding get_versions
versions_from_wire_n n = get_versions max_versions 0 n none

unfoldable pub versions_from_wire : Action VersionList
unfolding versions_from_wire_n
versions_from_wire = do left ← gets remaining; versions_from_wire_n left
