-- ===== src/Protocol/Tags/Srep.antt =====
-- crates/roughenough-protocol/src/tags/srep.rs: the signed part of a response.
pub mod Wire
pub mod RoundTrip
pub mod Made
use roughenough.Prelude.{
  ℕ, ◌+◌, ◌-◌, ◌%◌, ◌^◌, Bool, true, false, List, [], ◌∷◌, ◌++◌, take, length, ltb, ◌==◌, not,
  if◌then◌else◌,
}
use roughenough.Protocol.Error
use roughenough.Protocol.Error.{
  Result, ok, index, modify, unexpected_offsets, unexpected_tags, no_supported_versions,
}
use roughenough.Protocol.Cursor.{
  Action, ◌>>=◌, ◌>>◌, pure, lift, refuse_if, try_get_u32_le, try_get_u64_le, put_u32_le,
  put_u64_le,
}
use roughenough.Protocol.Tag
use roughenough.Protocol.Tag.{Tag}
use roughenough.Protocol.Header
use roughenough.Protocol.Header.{Header, check_remaining}
use roughenough.Protocol.Version.{
  ProtocolVersion, VersionList, rfc_draft08, rfc_draft14, version_to_wire, version_from_wire,
  versions_to_wire, versions_wire_size, versions_from_wire_n, new_versions, sub_assign,
}
use roughenough.Protocol.Tags.{FixedTag, root_size, fixed_default, fixed_to_wire, fixed_from_wire}
use roughenough.Protocol.Tags.Dele.{same_offsets, same_tags}

pub record SignedResponse : Type 0 where
  pub header : Header
  pub version : ProtocolVersion
  pub radius : ℕ
  pub midpoint : ℕ
  pub supported_versions : VersionList
  pub merkle_root : FixedTag

abbrev pub default_radi_seconds : ℕ
default_radi_seconds = 5

abbrev pub vers_offset : ℕ
vers_offset = 16

-- The fourth offset is set by `set_vers`.
abbrev pub srep_offsets : List ℕ
srep_offsets = 4 ∷ 8 ∷ vers_offset ∷ 0 ∷ []

abbrev pub srep_tags : List Tag
srep_tags = Tag.ver ∷ Tag.radi ∷ Tag.midp ∷ Tag.vers ∷ Tag.root ∷ []

unfoldable pub default_srep : SignedResponse
default_srep = record {
  header = record { offsets = srep_offsets; tags = srep_tags };
  version = rfc_draft14;
  radius = 0;
  midpoint = 0;
  supported_versions = [];
  merkle_root = fixed_default root_size;
}

-- `self.header.offsets[3] = ..` of an array of four.
unfoldable pub set_fourth : ℕ → List ℕ → List ℕ
set_fourth v (a ∷ b ∷ c ∷ d ∷ rest) = a ∷ b ∷ c ∷ v ∷ rest
set_fourth v xs = xs

unfoldable pub set_vers : VersionList → SignedResponse → SignedResponse
unfolding versions_wire_size set_fourth
set_vers versions srep = record srep {
  supported_versions = versions;
  header = record {
    offsets = set_fourth (vers_offset + versions_wire_size versions) srep.header.offsets;
    tags = srep.header.tags;
  };
}

unfoldable pub srep_wire_size : SignedResponse → ℕ
unfolding versions_wire_size
srep_wire_size srep = 40 + 4 + 4 + 8 + versions_wire_size srep.supported_versions + root_size

unfoldable pub srep_to_wire : SignedResponse → Action Unit
srep_to_wire srep = do
  Header.to_wire 5 srep.header
  version_to_wire srep.version
  put_u32_le srep.radius
  put_u64_le srep.midpoint
  versions_to_wire srep.supported_versions
  fixed_to_wire srep.merkle_root

unfoldable pub srep_from_wire : Action SignedResponse
unfolding same_offsets same_tags
srep_from_wire = do
  header ← Header.from_wire 5
  check_remaining header
  refuse_if (not (same_tags header.tags srep_tags)) unexpected_tags
  refuse_if (not (same_offsets (take 3 header.offsets) (take 3 srep_offsets))) unexpected_offsets
  second ← lift (index header.offsets 2)
  third ← lift (index header.offsets 3)
  refuse_if (second == third) no_supported_versions
  version ← version_from_wire
  radius ← try_get_u32_le
  midpoint ← try_get_u64_le
  vers_size ← lift (sub_assign third second)
  supported ← versions_from_wire_n vers_size
  merkle_root ← fixed_from_wire root_size
  pure (record {
    header = header;
    version = version;
    radius = radius;
    midpoint = midpoint;
    supported_versions = supported;
    merkle_root = merkle_root;
  })

pub record SignedResponseDraft08 : Type 0 where
  pub header : Header
  pub radius : ℕ
  pub midpoint : ℕ
  pub merkle_root : FixedTag

abbrev pub srep08_offsets : List ℕ
srep08_offsets = 4 ∷ 12 ∷ []

abbrev pub srep08_tags : List Tag
srep08_tags = Tag.radi ∷ Tag.midp ∷ Tag.root ∷ []

unfoldable pub default_srep08 : SignedResponseDraft08
default_srep08 = record {
  header = record { offsets = srep08_offsets; tags = srep08_tags };
  radius = 0;
  midpoint = 0;
  merkle_root = fixed_default root_size;
}

abbrev pub srep08_wire_size : ℕ
srep08_wire_size = 24 + 4 + 8 + 32

unfoldable pub srep08_to_wire : SignedResponseDraft08 → Action Unit
srep08_to_wire srep = do
  Header.to_wire 3 srep.header
  put_u32_le srep.radius
  put_u64_le srep.midpoint
  fixed_to_wire srep.merkle_root

unfoldable pub srep08_from_wire : Action SignedResponseDraft08
unfolding same_tags
srep08_from_wire = do
  header ← Header.from_wire 3
  check_remaining header
  refuse_if (not (same_tags header.tags srep08_tags)) unexpected_tags
  radius ← try_get_u32_le
  midpoint ← try_get_u64_le
  merkle_root ← fixed_from_wire root_size
  pure (record { header = header; radius = radius; midpoint = midpoint; merkle_root = merkle_root })

-- `SignedResponse::from(draft08)`.
unfoldable pub srep_from_draft08 : SignedResponseDraft08 → SignedResponse
unfolding set_vers new_versions default_srep
srep_from_draft08 draft08 = set_vers (new_versions (rfc_draft08 ∷ [])) (record default_srep {
  version = rfc_draft08;
  radius = draft08.radius;
  midpoint = draft08.midpoint;
  merkle_root = draft08.merkle_root;
})

unfoldable pub set_ver : ProtocolVersion → SignedResponse → SignedResponse
set_ver version srep = record srep { version = version }

unfoldable pub set_radi : ℕ → SignedResponse → SignedResponse
set_radi radius srep = record srep { radius = radius }

unfoldable pub set_midp : ℕ → SignedResponse → SignedResponse
set_midp midpoint srep = record srep { midpoint = midpoint }

unfoldable pub set_root : FixedTag → SignedResponse → SignedResponse
set_root root srep = record srep { merkle_root = root }

unfoldable pub set_radi08 : ℕ → SignedResponseDraft08 → SignedResponseDraft08
set_radi08 radius srep = record srep { radius = radius }

unfoldable pub set_midp08 : ℕ → SignedResponseDraft08 → SignedResponseDraft08
set_midp08 midpoint srep = record srep { midpoint = midpoint }

unfoldable pub set_root08 : FixedTag → SignedResponseDraft08 → SignedResponseDraft08
set_root08 root srep = record srep { merkle_root = root }
