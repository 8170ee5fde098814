-- ===== src/Tests/Protocol.antt =====
-- The theorems on tags, headers, versions and the values of the tags at concrete inputs.
use roughenough.Prelude.{ℕ, ◌≡◌, refl, List, [], ◌∷◌, length, arith, ltb, All}
use roughenough.Prelude.{replicate}
use roughenough.Prelude.Bytes.{IsByte, from_le_bytes}
use roughenough.Protocol.Error.{ok}
use roughenough.Protocol.Cursor.{new}
use roughenough.Protocol.Cursor.Total
use roughenough.Protocol.Cursor.Total.{Outcome, new-IsValid}
use roughenough.Protocol.Tag
use roughenough.Protocol.Tag.{Tag}
use roughenough.Protocol.Tag.Order.{lt-from_le_bytes}
use roughenough.Protocol.Tag.Wire.{try_from-tag_value, wire_value-from_wire}
use roughenough.Protocol.Header
use roughenough.Protocol.Header.{Header}
use roughenough.Protocol.Header.Spec.{IsWellFormed}
use roughenough.Protocol.Header.RoundTrip.{from_wire-to_wire, from_wire_header-Outcome}
use roughenough.Protocol.Wire.{as_bytes}
use roughenough.Protocol.Version.{
  VersionList, rfc_draft08, rfc_draft14, versions_wire_size, versions_to_wire, versions_from_wire_n,
  is_below,
}
use roughenough.Protocol.Version.Wire.{
  IsVersionList, versions_from_wire_n-versions_to_wire, versions_from_wire_n-Outcome,
}
use roughenough.Protocol.Tags.Path.{path_from_wire_n}
use roughenough.Protocol.Tags.Path.Elements
use roughenough.Protocol.Tags.Path.Wire.{path_from_wire_n-Outcome}
use roughenough.Protocol.Tags.Dele.{cert_header, cert_from_wire, cert_to_wire}
use roughenough.Protocol.Tags.Dele.RoundTrip.{certificate, cert_from_wire-cert_to_wire}
use roughenough.Protocol.Tags.Dele.Wire.{IsCertificate, cert_from_wire-Outcome}
use roughenough.Protocol.Tags.Srep.{srep_from_wire, srep_to_wire, srep_wire_size}
use roughenough.Protocol.Tags.Srep.RoundTrip.{made_srep, srep_from_wire-srep_to_wire}
use roughenough.Protocol.Tags.Srep.Wire.{IsSrep, srep_from_wire-Outcome}

lt-from_le_bytes_example :
    Tag.lt Tag.sig Tag.ver
    ≡ ltb (from_le_bytes (Tag.wire_value Tag.sig)) (from_le_bytes (Tag.wire_value Tag.ver))
lt-from_le_bytes_example = lt-from_le_bytes Tag.sig Tag.ver

try_from-tag_value_example : Tag.try_from (Tag.tag_value Tag.midp) ≡ ok Tag.midp
try_from-tag_value_example = try_from-tag_value Tag.midp (λ e. cc)

wire_value-from_wire_example : Tag.wire_value Tag.root ≡ Tag.wire_value Tag.root
unfolding Tag.from_wire Tag.wire_value
wire_value-from_wire_example =
    wire_value-from_wire (Tag.wire_value Tag.root) Tag.root (λ e. cc) refl

cert_header-IsWellFormed : IsWellFormed 2 cert_header
unfolding Tag.lt
cert_header-IsWellFormed = record {
  num_offsets = refl;
  num_tags = refl;
  offsets_ascend = (omega arith, refl, omega arith, tt);
  tags_ascend = (refl, (λ e. cc), (refl, (λ e. cc), tt));
}

from_wire-to_wire_example :
    (bytes : List ℕ) × (as_bytes 16 (Header.to_wire 2 cert_header) ≡ ok bytes)
    × (length bytes ≡ 16)
    × (Header.from_wire 2 (new bytes) ≡ ok (cert_header, record { bytes = bytes; position = 16 }))
from_wire-to_wire_example =
    from_wire-to_wire 2 cert_header (omega arith) (omega arith) cert_header-IsWellFormed

-- A header of two tags, SIG and DELE, with 64 for the offset.
abbrev header_octets : List ℕ
header_octets =
    2 ∷ 0 ∷ 0 ∷ 0 ∷ 64 ∷ 0 ∷ 0 ∷ 0 ∷ b'S' ∷ b'I' ∷ b'G' ∷ 0 ∷ b'D' ∷ b'E' ∷ b'L' ∷ b'E' ∷ []

header_octets-IsByte : All IsByte header_octets
header_octets-IsByte = ground arith

header_cursor-IsValid : Total.IsValid (new header_octets)
header_cursor-IsValid = new-IsValid header_octets header_octets-IsByte

from_wire_header-Outcome_example :
    Outcome (IsWellFormed 2) (new header_octets) (Header.from_wire 2 (new header_octets))
from_wire_header-Outcome_example =
    from_wire_header-Outcome 2 (new header_octets) header_cursor-IsValid

abbrev both_versions : VersionList
both_versions = rfc_draft08 ∷ rfc_draft14 ∷ []

both_versions-IsVersionList : IsVersionList both_versions
unfolding is_below
both_versions-IsVersionList = record { fits = omega arith; ordered = (refl, (refl, tt)) }

versions_from_wire_n-versions_to_wire_example :
    (bytes : List ℕ) × (as_bytes (versions_wire_size both_versions) (versions_to_wire both_versions)
      ≡ ok bytes)
    × (length bytes ≡ versions_wire_size both_versions)
    × (versions_from_wire_n (versions_wire_size both_versions) (new bytes)
        ≡ ok (both_versions, record { bytes = bytes; position = versions_wire_size both_versions }))
versions_from_wire_n-versions_to_wire_example =
    versions_from_wire_n-versions_to_wire both_versions both_versions-IsVersionList

versions_from_wire_n-Outcome_example :
    Outcome IsVersionList (new header_octets) (versions_from_wire_n 8 (new header_octets))
versions_from_wire_n-Outcome_example =
    versions_from_wire_n-Outcome 8 (new header_octets) refl header_cursor-IsValid

path_from_wire_n-Outcome_example :
    Outcome Elements.IsValid (new header_octets) (path_from_wire_n 32 (new header_octets))
path_from_wire_n-Outcome_example =
    path_from_wire_n-Outcome 32 (new header_octets) header_cursor-IsValid

cert_from_wire-Outcome_example :
    Outcome IsCertificate (new header_octets) (cert_from_wire (new header_octets))
cert_from_wire-Outcome_example = cert_from_wire-Outcome (new header_octets) header_cursor-IsValid

srep_from_wire-Outcome_example :
    Outcome IsSrep (new header_octets) (srep_from_wire (new header_octets))
srep_from_wire-Outcome_example = srep_from_wire-Outcome (new header_octets) header_cursor-IsValid

cert_from_wire-cert_to_wire_example :
    (bytes : List ℕ) × (as_bytes 152
        (cert_to_wire (certificate (replicate 64 1) (replicate 32 2) 1700000000 1700086400))
      ≡ ok bytes)
    × (length bytes ≡ 152)
    × (cert_from_wire (new bytes)
        ≡ ok (
          certificate (replicate 64 1) (replicate 32 2) 1700000000 1700086400,
          record { bytes = bytes; position = 152 },
        ))
cert_from_wire-cert_to_wire_example =
    cert_from_wire-cert_to_wire (replicate 64 1) (replicate 32 2) 1700000000 1700086400 refl refl
      (omega arith) (omega arith)

srep_from_wire-srep_to_wire_example :
    (bytes : List ℕ) × (size : ℕ) × (srep_wire_size
        (made_srep rfc_draft14 5 1700000000 both_versions (replicate 32 3))
      ≡ size)
    × (as_bytes size
          (srep_to_wire (made_srep rfc_draft14 5 1700000000 both_versions (replicate 32 3)))
        ≡ ok bytes)
    × (length bytes ≡ size)
    × (srep_from_wire (new bytes)
        ≡ ok (
          made_srep rfc_draft14 5 1700000000 both_versions (replicate 32 3),
          record { bytes = bytes; position = size },
        ))
srep_from_wire-srep_to_wire_example =
    srep_from_wire-srep_to_wire rfc_draft14 5 1700000000 both_versions (replicate 32 3)
      (omega arith) (omega arith) (omega arith) both_versions-IsVersionList refl
