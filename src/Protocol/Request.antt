-- ===== src/Protocol/Request.antt =====
-- crates/roughenough-protocol/src/request.rs: requests, in three forms.
pub mod Draft08
pub mod Draft14
pub mod Draft14Srv
pub mod Spec
pub mod Reads
pub mod Writes
pub mod Total
pub mod RoundTrip
pub mod New
use roughenough.Prelude.{
  ℕ, ◌+◌, Option, none, some, List, [], ◌∷◌, replicate, length, ltb, ◌==◌, not, if◌then◌else◌,
}
use roughenough.Protocol.Error.{
  index, bad_request_size, buffer_too_small, invalid_message_type, invalid_request_num_tags,
  unexpected_tags,
}
use roughenough.Protocol.Cursor.{
  ParseCursor, Action, ◌>>=◌, ◌>>◌, pure, fail, lift, refuse_if, gets, update, set_position,
  remaining, put_slice, try_get_u32_le,
}
use roughenough.Protocol.Tag
use roughenough.Protocol.Tag.{Tag}
use roughenough.Protocol.Header
use roughenough.Protocol.Header.{Header, check_remaining}
use roughenough.Protocol.Version.{
  VersionList, rfc_draft08, rfc_draft14, versions_to_wire, versions_wire_size, versions_from_wire_n,
  new_versions,
}
use roughenough.Protocol.Tags.{
  FixedTag, nonce_size, srv_size, fixed_default, fixed_to_wire, fixed_from_wire, MessageType,
  request, type_value, type_size, type_to_wire, type_from_wire, type_eq,
}
use roughenough.Protocol.Tags.Dele.{same_tags}
use roughenough.Protocol.Request.Draft08.{
  RequestDraft08, draft08_wire_size, draft08_to_wire, draft08_from_wire,
}
use roughenough.Protocol.Request.Draft14.{
  RequestDraft14, draft14_wire_size, draft14_to_wire, draft14_from_wire,
}
use roughenough.Protocol.Request.Draft14Srv.{
  RequestDraft14Srv, draft14_srv_wire_size, draft14_srv_to_wire, draft14_srv_from_wire,
}

abbrev pub request_size : ℕ
request_size = 1024

pub data Request : Type 0 where
  draft08 : RequestDraft08 → Request
  draft14 : RequestDraft14 → Request
  draft14_srv : RequestDraft14Srv → Request

unfoldable pub ver : Request → VersionList
ver (draft08 req) = req.version
ver (draft14 req) = req.version
ver (draft14_srv req) = req.version

unfoldable pub nonc : Request → FixedTag
nonc (draft08 req) = req.nonce
nonc (draft14 req) = req.nonce
nonc (draft14_srv req) = req.nonce

unfoldable pub srv : Request → Option FixedTag
srv (draft08 req) = none
srv (draft14 req) = none
srv (draft14_srv req) = some req.server

unfoldable pub wire_size : Request → ℕ
unfolding draft08_wire_size draft14_wire_size draft14_srv_wire_size
wire_size (draft08 req) = draft08_wire_size req
wire_size (draft14 req) = draft14_wire_size req
wire_size (draft14_srv req) = draft14_srv_wire_size req

unfoldable pub to_wire : Request → Action Unit
unfolding draft08_to_wire draft14_to_wire draft14_srv_to_wire
to_wire (draft08 req) = draft08_to_wire req
to_wire (draft14 req) = draft14_to_wire req
to_wire (draft14_srv req) = draft14_srv_to_wire req

-- The number of tags, at a position that is then set back.
unfoldable pub peek_num_tags : Action ℕ
peek_num_tags = do
  saved_pos ← gets (λ c. c.position)
  num_tags ← try_get_u32_le
  update (set_position saved_pos)
  pure num_tags

-- The `match` on the number of tags.
unfoldable pub from_num_tags : ℕ → Action Request
unfolding draft08_from_wire draft14_from_wire draft14_srv_from_wire
from_num_tags num_tags =
    if num_tags == 3
    then (do req ← draft08_from_wire; pure (draft08 req))
    else if num_tags == 4
    then (do req ← draft14_from_wire; pure (draft14 req))
    else if num_tags == 5
    then (do req ← draft14_srv_from_wire; pure (draft14_srv req))
    else fail (invalid_request_num_tags num_tags)

unfoldable pub from_wire : Action Request
unfolding peek_num_tags from_num_tags
from_wire = do
  left ← gets remaining
  refuse_if (not (left == 1012)) (bad_request_size left)
  num_tags ← peek_num_tags
  from_num_tags num_tags
