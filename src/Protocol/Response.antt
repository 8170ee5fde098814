-- ===== src/Protocol/Response.antt =====
-- crates/roughenough-protocol/src/response.rs: responses, as draft 14 has them.
pub mod Draft08
pub mod Total
pub mod Wire
pub mod RoundTrip
use roughenough.Prelude.{ℕ, ◌+◌, ◌-◌, ◌%◌, ◌^◌, List, [], ◌∷◌, length, replicate, ltb, not}
use roughenough.Protocol.Error.{index, buffer_too_small, invalid_message_type, unexpected_tags}
use roughenough.Protocol.Cursor.{
  Action, ◌>>=◌, ◌>>◌, pure, lift, refuse_if, gets, capacity, try_get_u32_le, put_u32_le,
}
use roughenough.Protocol.Tag
use roughenough.Protocol.Tag.{Tag}
use roughenough.Protocol.Header
use roughenough.Protocol.Header.{Header, check_remaining}
use roughenough.Protocol.Version.{sub_assign}
use roughenough.Protocol.Tags.{
  FixedTag, nonce_size, signature_size, public_key_size, fixed_default, fixed_to_wire,
  fixed_from_wire, MessageType, response, type_value, type_size, type_to_wire, type_from_wire,
  type_eq,
}
use roughenough.Protocol.Tags.Path.{
  MerklePath, new_path, path_wire_size, copy_from, path_to_wire, path_from_wire_n,
}
use roughenough.Protocol.Tags.Dele.{
  same_tags, Certificate, cert_header, default_dele, new_cert, cert_wire_size, cert_to_wire,
  cert_from_wire,
}
use roughenough.Protocol.Tags.Srep.{
  SignedResponse, default_srep, srep_wire_size, srep_to_wire, srep_from_wire,
}

pub record Response : Type 0 where
  pub header : Header
  pub signature : FixedTag
  pub nonce : FixedTag
  pub msg_type : MessageType
  pub path : MerklePath
  pub srep : SignedResponse
  pub cert : Certificate
  pub index : ℕ

abbrev pub response_tags : List Tag
response_tags = Tag.sig ∷ Tag.nonc ∷ Tag.type ∷ Tag.path ∷ Tag.srep ∷ Tag.cert ∷ Tag.indx ∷ []

unfoldable pub default_cert : Certificate
unfolding new_cert default_dele
default_cert = new_cert (fixed_default signature_size) default_dele

unfoldable pub default_response : Response
default_response = record {
  header = record { offsets = replicate 6 0; tags = response_tags };
  signature = fixed_default signature_size;
  nonce = fixed_default nonce_size;
  msg_type = response;
  path = new_path;
  srep = default_srep;
  cert = default_cert;
  index = 0;
}

-- All six offsets, from the sizes of the values.
unfoldable pub update_offsets : Response → Response
unfolding path_wire_size srep_wire_size
update_offsets r =
    let after_sig : ℕ = length r.signature in
    let after_nonce : ℕ = after_sig + length r.nonce in
    let after_type : ℕ = after_nonce + type_size in
    let after_path : ℕ = after_type + path_wire_size r.path in
    let after_srep : ℕ = after_path + srep_wire_size r.srep in
    let after_cert : ℕ = after_srep + cert_wire_size in
    record r {
      header = record {
        offsets = after_sig ∷ after_nonce ∷ after_type ∷ after_path ∷ after_srep ∷ after_cert ∷ [];
        tags = r.header.tags;
      };
    }

unfoldable pub set_sig : FixedTag → Response → Response
set_sig signature r = record r { signature = signature }

unfoldable pub set_nonc : FixedTag → Response → Response
set_nonc nonce r = record r { nonce = nonce }

unfoldable pub set_path : MerklePath → Response → Response
unfolding update_offsets
set_path path r = update_offsets (record r { path = path })

unfoldable pub copy_path : MerklePath → Response → Response
unfolding update_offsets copy_from
copy_path path r = update_offsets (record r { path = copy_from r.path path })

unfoldable pub set_srep : SignedResponse → Response → Response
unfolding update_offsets
set_srep srep r = update_offsets (record r { srep = srep })

unfoldable pub set_cert : Certificate → Response → Response
set_cert cert r = record r { cert = cert }

unfoldable pub set_indx : ℕ → Response → Response
set_indx idx r = record r { index = idx }

unfoldable pub from_wire : Action Response
unfolding same_tags
from_wire = do
  header ← Header.from_wire 7
  check_remaining header
  refuse_if (not (same_tags header.tags response_tags)) unexpected_tags
  signature ← fixed_from_wire signature_size
  nonce ← fixed_from_wire nonce_size
  msg_type ← type_from_wire
  refuse_if (not (type_eq msg_type response)) (invalid_message_type (type_value msg_type))
  path_end ← lift (index header.offsets 3)
  path_start ← lift (index header.offsets 2)
  path_len ← lift (sub_assign path_end path_start)
  path ← path_from_wire_n path_len
  srep ← srep_from_wire
  cert ← cert_from_wire
  idx ← try_get_u32_le
  pure (record {
    header = header;
    signature = signature;
    nonce = nonce;
    msg_type = response;
    path = path;
    srep = srep;
    cert = cert;
    index = idx;
  })

unfoldable pub wire_size : Response → ℕ
wire_size r =
    Header.wire_size 7
    + length r.signature
    + length r.nonce
    + type_size
    + path_wire_size r.path
    + srep_wire_size r.srep
    + cert_wire_size
    + 4

-- The test is on the capacity of the buffer, not on what remains of it.
unfoldable pub to_wire : Response → Action Unit
unfolding wire_size
to_wire r = do
  cap ← gets capacity
  refuse_if (ltb cap (wire_size r)) (buffer_too_small (wire_size r) cap)
  Header.to_wire 7 r.header
  fixed_to_wire r.signature
  fixed_to_wire r.nonce
  type_to_wire r.msg_type
  path_to_wire r.path
  srep_to_wire r.srep
  cert_to_wire r.cert
  put_u32_le r.index
