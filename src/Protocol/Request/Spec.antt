-- ===== src/Protocol/Request/Spec.antt =====
-- The bytes of a request before its padding, and the requests that request.rs reads back.
use roughenough.Prelude.{ℕ, ◌+◌, ◌≡◌, List, [], ◌∷◌, ◌++◌, length, arith, length-append}
use roughenough.Protocol.Error.{ok, index}
use roughenough.Protocol.Tag.{Tag}
use roughenough.Protocol.Header
use roughenough.Protocol.Header.{Header}
use roughenough.Protocol.Header.Spec.{IsWellFormed, encode, length-encode}
use roughenough.Protocol.Header.Reads.{Within}
use roughenough.Protocol.Version.{VersionList, versions_wire_size}
use roughenough.Protocol.Version.Wire.{IsVersionList, versions_bytes, length-versions_bytes}
use roughenough.Protocol.Tags.{nonce_size, srv_size, request}
use roughenough.Protocol.Tags.Wire.{type_bytes, length-type_bytes}
use roughenough.Protocol.Request.Draft08.{RequestDraft08, draft08_tags, draft08_wire_size}
use roughenough.Protocol.Request.Draft14.{RequestDraft14, draft14_tags, draft14_wire_size}
use roughenough.Protocol.Request.Draft14Srv.{
  RequestDraft14Srv, draft14_srv_tags, draft14_srv_wire_size,
}

-- The values between the header and the padding.
unfoldable pub draft08_values : RequestDraft08 → List ℕ
draft08_values req = versions_bytes req.version ++ req.nonce

unfoldable pub draft14_values : RequestDraft14 → List ℕ
draft14_values req = versions_bytes req.version ++ (req.nonce ++ type_bytes req.msg_type)

unfoldable pub draft14_srv_values : RequestDraft14Srv → List ℕ
draft14_srv_values req =
    versions_bytes req.version ++ (req.server ++ (req.nonce ++ type_bytes req.msg_type))

-- Where the values end, all but the last: the offsets of the second and every later value.
unfoldable pub value_ends : ℕ → List (List ℕ) → List ℕ
value_ends start [] = []
value_ends start (v ∷ []) = []
value_ends start (v ∷ (w ∷ values)) =
    (start + length v) ∷ value_ends (start + length v) (w ∷ values)

-- A header for `n` tags, these ones, whose offsets agree with the version list and lie within `size` bytes of values.
pub record Announces (n : ℕ) (tags : List Tag) (versions : VersionList) (size : ℕ) (header : Header)
    : Type 0 where
  pub well_formed : IsWellFormed n header
  pub same : header.tags ≡ tags
  pub first : index header.offsets 0 ≡ ok (versions_wire_size versions)
  pub within : Within size header.offsets

pub record IsDraft08 (req : RequestDraft08) : Type 0 where
  pub announced :
      Announces 3 draft08_tags req.version (length (draft08_values req ++ req.padding)) req.header
  pub versions : IsVersionList req.version
  pub nonce_fits : length req.nonce ≡ nonce_size

pub record IsDraft14 (req : RequestDraft14) : Type 0 where
  pub announced :
      Announces 4 draft14_tags req.version (length (draft14_values req ++ req.padding)) req.header
  pub versions : IsVersionList req.version
  pub nonce_fits : length req.nonce ≡ nonce_size
  pub typed : req.msg_type ≡ request

pub record IsDraft14Srv (req : RequestDraft14Srv) : Type 0 where
  pub announced :
      Announces 5 draft14_srv_tags req.version
        (length (draft14_srv_values req ++ req.padding))
        req.header
  pub versions : IsVersionList req.version
  pub server_fits : length req.server ≡ srv_size
  pub nonce_fits : length req.nonce ≡ nonce_size
  pub typed : req.msg_type ≡ request

unfoldable pub draft08_bytes : RequestDraft08 → List ℕ
draft08_bytes req = encode 3 req.header ++ draft08_values req

unfoldable pub draft14_bytes : RequestDraft14 → List ℕ
draft14_bytes req = encode 4 req.header ++ draft14_values req

unfoldable pub draft14_srv_bytes : RequestDraft14Srv → List ℕ
draft14_srv_bytes req = encode 5 req.header ++ draft14_srv_values req

header_length :
    (n : ℕ) (h : Header)
    → IsWellFormed (n + 1) h
    → length (encode (n + 1) h) ≡ Header.wire_size (n + 1)
header_length n h wf = length-encode (n + 1) h (omega arith) wf.num_offsets wf.num_tags

pub length-draft08 :
    (req : RequestDraft08)
    → IsDraft08 req
    → length (draft08_bytes req ++ req.padding) ≡ draft08_wire_size req
unfolding draft08_bytes draft08_values draft08_wire_size
length-draft08 req h = omega (
  arith,
  length-append (encode 3 req.header ++ (versions_bytes req.version ++ req.nonce)) req.padding,
  length-append (encode 3 req.header) (versions_bytes req.version ++ req.nonce),
  length-append (versions_bytes req.version) req.nonce,
  length-versions_bytes req.version,
  header_length 2 req.header h.announced.well_formed,
)

pub length-draft14 :
    (req : RequestDraft14)
    → IsDraft14 req
    → length (draft14_bytes req ++ req.padding) ≡ draft14_wire_size req
unfolding draft14_bytes draft14_values draft14_wire_size
length-draft14 req h = omega (
  arith,
  length-append
      (encode 4 req.header
        ++ (versions_bytes req.version ++ (req.nonce ++ type_bytes req.msg_type)))
      req.padding,
  length-append (encode 4 req.header)
      (versions_bytes req.version ++ (req.nonce ++ type_bytes req.msg_type)),
  length-append (versions_bytes req.version) (req.nonce ++ type_bytes req.msg_type),
  length-append req.nonce (type_bytes req.msg_type),
  length-type_bytes req.msg_type,
  length-versions_bytes req.version,
  header_length 3 req.header h.announced.well_formed,
)

pub length-draft14_srv :
    (req : RequestDraft14Srv)
    → IsDraft14Srv req
    → length (draft14_srv_bytes req ++ req.padding) ≡ draft14_srv_wire_size req
unfolding draft14_srv_bytes draft14_srv_values draft14_srv_wire_size
length-draft14_srv req h = omega (
  arith,
  length-append
      (encode 5 req.header
        ++ (versions_bytes req.version ++ (req.server ++ (req.nonce ++ type_bytes req.msg_type))))
      req.padding,
  length-append (encode 5 req.header)
      (versions_bytes req.version ++ (req.server ++ (req.nonce ++ type_bytes req.msg_type))),
  length-append (versions_bytes req.version) (req.server ++ (req.nonce ++ type_bytes req.msg_type)),
  length-append req.server (req.nonce ++ type_bytes req.msg_type),
  length-append req.nonce (type_bytes req.msg_type),
  length-type_bytes req.msg_type,
  length-versions_bytes req.version,
  header_length 4 req.header h.announced.well_formed,
)
