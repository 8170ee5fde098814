-- ===== src/Protocol/Request/Draft08.antt =====
-- crates/roughenough-protocol/src/request.rs: the draft-08 form of a request.
use roughenough.Prelude.{ℕ, ◌+◌, List, [], ◌∷◌, replicate, length, ltb, not}
use roughenough.Protocol.Error.{index, buffer_too_small, unexpected_tags}
use roughenough.Protocol.Cursor.{
  Action, ◌>>=◌, ◌>>◌, pure, lift, refuse_if, gets, remaining, put_slice,
}
use roughenough.Protocol.Tag.{Tag}
use roughenough.Protocol.Header
use roughenough.Protocol.Header.{Header, check_remaining}
use roughenough.Protocol.Version.{
  VersionList, rfc_draft08, versions_to_wire, versions_wire_size, versions_from_wire_n,
  new_versions,
}
use roughenough.Protocol.Tags.{FixedTag, nonce_size, fixed_default, fixed_to_wire, fixed_from_wire}
use roughenough.Protocol.Tags.Dele.{same_tags}

-- Where the nonce stands in a framed request.
abbrev pub framed_nonce_offset : ℕ
framed_nonce_offset = 40

pub record RequestDraft08 : Type 0 where
  pub header : Header
  pub version : VersionList
  pub nonce : FixedTag
  pub padding : List ℕ

abbrev pub draft08_tags : List Tag
draft08_tags = Tag.ver ∷ Tag.nonc ∷ Tag.zzzz ∷ []

abbrev pub draft08_padding : ℕ
draft08_padding = 952

unfoldable pub default_draft08 : RequestDraft08
default_draft08 =
    let version : VersionList = new_versions (rfc_draft08 ∷ []) in
    let offset : ℕ = versions_wire_size version in
    record {
      header = record { offsets = offset ∷ (offset + nonce_size) ∷ []; tags = draft08_tags };
      version = version;
      nonce = fixed_default nonce_size;
      padding = replicate draft08_padding 0;
    }

unfoldable pub new_request_draft08 : FixedTag → RequestDraft08
unfolding default_draft08
new_request_draft08 nonce = record default_draft08 { nonce = nonce }

unfoldable pub draft08_wire_size : RequestDraft08 → ℕ
draft08_wire_size req =
    Header.wire_size 3 + versions_wire_size req.version + length req.nonce + length req.padding

unfoldable pub draft08_to_wire : RequestDraft08 → Action Unit
unfolding draft08_wire_size
draft08_to_wire req = do
  left ← gets remaining
  refuse_if (ltb left (draft08_wire_size req)) (buffer_too_small (draft08_wire_size req) left)
  Header.to_wire 3 req.header
  versions_to_wire req.version
  fixed_to_wire req.nonce
  put_slice req.padding

unfoldable pub draft08_from_wire : Action RequestDraft08
unfolding default_draft08
draft08_from_wire = do
  header ← Header.from_wire 3
  check_remaining header
  refuse_if (not (same_tags header.tags draft08_tags)) unexpected_tags
  ver_len ← lift (index header.offsets 0)
  version ← versions_from_wire_n ver_len
  nonce ← fixed_from_wire nonce_size
  pure (record default_draft08 { header = header; version = version; nonce = nonce })
