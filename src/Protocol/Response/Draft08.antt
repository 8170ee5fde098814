-- ===== src/Protocol/Response/Draft08.antt =====
-- crates/roughenough-protocol/src/response.rs: responses, as draft 08 has them.
use roughenough.Prelude.{ℕ, ◌+◌, List, [], ◌∷◌, length, replicate, not}
use roughenough.Protocol.Error.{index, unexpected_tags}
use roughenough.Protocol.Cursor.{
  Action, ◌>>=◌, ◌>>◌, pure, lift, refuse_if, try_get_u32_le, put_u32_le,
}
use roughenough.Protocol.Tag.{Tag}
use roughenough.Protocol.Header
use roughenough.Protocol.Header.{Header, check_remaining}
use roughenough.Protocol.Version.{
  ProtocolVersion, rfc_draft08, version_size, version_to_wire, version_from_wire, sub_assign,
}
use roughenough.Protocol.Tags.{
  FixedTag, signature_size, fixed_default, fixed_to_wire, fixed_from_wire,
}
use roughenough.Protocol.Tags.Path.{
  MerklePath, new_path, path_wire_size, copy_from, path_to_wire, path_from_wire_n,
}
use roughenough.Protocol.Tags.Dele.{
  same_tags, Certificate, cert_wire_size, cert_to_wire, cert_from_wire,
}
use roughenough.Protocol.Tags.Srep.{
  SignedResponseDraft08, default_srep08, srep08_wire_size, srep08_to_wire, srep08_from_wire,
  srep_from_draft08,
}
use roughenough.Protocol.Response.{
  Response, set_sig, set_path, set_srep, set_cert, set_indx, default_cert, default_response,
}

pub record ResponseDraft08 : Type 0 where
  pub header : Header
  pub signature : FixedTag
  pub version : ProtocolVersion
  pub path : MerklePath
  pub srep : SignedResponseDraft08
  pub cert : Certificate
  pub index : ℕ

abbrev pub response08_tags : List Tag
response08_tags = Tag.sig ∷ Tag.ver ∷ Tag.path ∷ Tag.srep ∷ Tag.cert ∷ Tag.indx ∷ []

unfoldable pub default_response08 : ResponseDraft08
default_response08 = record {
  header = record { offsets = replicate 5 0; tags = response08_tags };
  signature = fixed_default signature_size;
  version = rfc_draft08;
  path = new_path;
  srep = default_srep08;
  cert = default_cert;
  index = 0;
}

unfoldable pub update_offsets08 : ResponseDraft08 → ResponseDraft08
unfolding path_wire_size
update_offsets08 r =
    let after_sig : ℕ = length r.signature in
    let after_ver : ℕ = after_sig + version_size in
    let after_path : ℕ = after_ver + path_wire_size r.path in
    let after_srep : ℕ = after_path + srep08_wire_size in
    let after_cert : ℕ = after_srep + cert_wire_size in
    record r {
      header = record {
        offsets = after_sig ∷ after_ver ∷ after_path ∷ after_srep ∷ after_cert ∷ [];
        tags = r.header.tags;
      };
    }

unfoldable pub copy_path08 : MerklePath → ResponseDraft08 → ResponseDraft08
unfolding update_offsets08 copy_from
copy_path08 path r = update_offsets08 (record r { path = copy_from r.path path })

unfoldable pub set_srep08 : SignedResponseDraft08 → ResponseDraft08 → ResponseDraft08
unfolding update_offsets08
set_srep08 srep r = update_offsets08 (record r { srep = srep })

unfoldable pub from_wire08 : Action ResponseDraft08
unfolding same_tags
from_wire08 = do
  header ← Header.from_wire 6
  check_remaining header
  refuse_if (not (same_tags header.tags response08_tags)) unexpected_tags
  signature ← fixed_from_wire signature_size
  version ← version_from_wire
  path_end ← lift (index header.offsets 2)
  path_start ← lift (index header.offsets 1)
  path_len ← lift (sub_assign path_end path_start)
  path ← path_from_wire_n path_len
  srep ← srep08_from_wire
  cert ← cert_from_wire
  idx ← try_get_u32_le
  pure (record {
    header = header;
    signature = signature;
    version = version;
    path = path;
    srep = srep;
    cert = cert;
    index = idx;
  })

unfoldable pub wire_size08 : ResponseDraft08 → ℕ
unfolding path_wire_size
wire_size08 r =
    Header.wire_size 6
    + length r.signature
    + version_size
    + path_wire_size r.path
    + srep08_wire_size
    + cert_wire_size
    + 4

unfoldable pub to_wire08 : ResponseDraft08 → Action Unit
to_wire08 r = do
  Header.to_wire 6 r.header
  fixed_to_wire r.signature
  version_to_wire r.version
  path_to_wire r.path
  srep08_to_wire r.srep
  cert_to_wire r.cert
  put_u32_le r.index

-- `Response::from(draft08)`. The nonce stays the default.
unfoldable pub response_from_draft08 : ResponseDraft08 → Response
unfolding default_response srep_from_draft08
response_from_draft08 draft08 = set_indx draft08.index (
    set_cert draft08.cert (
      set_srep (srep_from_draft08 draft08.srep)
        (set_path draft08.path (set_sig draft08.signature default_response))))

unfoldable pub set_sig08 : FixedTag → ResponseDraft08 → ResponseDraft08
set_sig08 signature r = record r { signature = signature }

unfoldable pub set_cert08 : Certificate → ResponseDraft08 → ResponseDraft08
unfolding update_offsets08
set_cert08 cert r = update_offsets08 (record r { cert = cert })

unfoldable pub set_indx08 : ℕ → ResponseDraft08 → ResponseDraft08
set_indx08 idx r = record r { index = idx }

unfoldable pub set_path08 : MerklePath → ResponseDraft08 → ResponseDraft08
unfolding update_offsets08
set_path08 path r = update_offsets08 (record r { path = path })
