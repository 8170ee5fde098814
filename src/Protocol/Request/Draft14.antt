-- ===== src/Protocol/Request/Draft14.antt =====
-- crates/roughenough-protocol/src/request.rs: the draft-14 form of a request.
use roughenough.Prelude.{ℕ, ◌+◌, List, [], ◌∷◌, replicate, length, ltb, not}
use roughenough.Protocol.Error.{index, buffer_too_small, invalid_message_type, unexpected_tags}
use roughenough.Protocol.Cursor.{
  Action, ◌>>=◌, ◌>>◌, pure, lift, refuse_if, gets, remaining, put_slice,
}
use roughenough.Protocol.Tag.{Tag}
use roughenough.Protocol.Header
use roughenough.Protocol.Header.{Header, check_remaining}
use roughenough.Protocol.Version.{
  VersionList, rfc_draft14, versions_to_wire, versions_wire_size, versions_from_wire_n,
  new_versions,
}
use roughenough.Protocol.Tags.{
  FixedTag, nonce_size, fixed_default, fixed_to_wire, fixed_from_wire, MessageType, request,
  type_value, type_size, type_to_wire, type_from_wire, type_eq,
}
use roughenough.Protocol.Tags.Dele.{same_tags}

pub record RequestDraft14 : Type 0 where
  pub header : Header
  pub version : VersionList
  pub nonce : FixedTag
  pub msg_type : MessageType
  pub padding : List ℕ

abbrev pub draft14_tags : List Tag
draft14_tags = Tag.ver ∷ Tag.nonc ∷ Tag.type ∷ Tag.zzzz ∷ []

abbrev pub draft14_padding : ℕ
draft14_padding = 940

unfoldable pub default_draft14 : RequestDraft14
default_draft14 =
    let version : VersionList = new_versions (rfc_draft14 ∷ []) in
    let offset : ℕ = versions_wire_size version in
    record {
      header = record {
        offsets = offset ∷ (offset + nonce_size) ∷ (offset + nonce_size + type_size) ∷ [];
        tags = draft14_tags;
      };
      version = version;
      nonce = fixed_default nonce_size;
      msg_type = request;
      padding = replicate draft14_padding 0;
    }

unfoldable pub new_request_draft14 : FixedTag → RequestDraft14
unfolding default_draft14
new_request_draft14 nonce = record default_draft14 { nonce = nonce }

unfoldable pub draft14_wire_size : RequestDraft14 → ℕ
draft14_wire_size req =
    Header.wire_size 4
    + versions_wire_size req.version
    + length req.nonce
    + type_size
    + length req.padding

unfoldable pub draft14_to_wire : RequestDraft14 → Action Unit
unfolding draft14_wire_size
draft14_to_wire req = do
  left ← gets remaining
  refuse_if (ltb left (draft14_wire_size req)) (buffer_too_small (draft14_wire_size req) left)
  Header.to_wire 4 req.header
  versions_to_wire req.version
  fixed_to_wire req.nonce
  type_to_wire req.msg_type
  put_slice req.padding

unfoldable pub draft14_from_wire : Action RequestDraft14
unfolding default_draft14
draft14_from_wire = do
  header ← Header.from_wire 4
  check_remaining header
  refuse_if (not (same_tags header.tags draft14_tags)) unexpected_tags
  ver_len ← lift (index header.offsets 0)
  version ← versions_from_wire_n ver_len
  nonce ← fixed_from_wire nonce_size
  msg_type ← type_from_wire
  refuse_if (not (type_eq msg_type request)) (invalid_message_type (type_value msg_type))
  pure (record default_draft14 {
    header = header;
    version = version;
    nonce = nonce;
    msg_type = msg_type;
  })
