-- ===== src/Tests/Requests.antt =====
-- The theorems on requests and responses at concrete inputs.
use roughenough.Prelude.{ℕ, ◌≡◌, refl, List, [], ◌∷◌, length, replicate, arith, All}
use roughenough.Protocol.Version.{rfc_draft08, rfc_draft14, new_versions}
use roughenough.Protocol.Version.Wire.{versions_bytes}
use roughenough.Protocol.Tags.{request}
use roughenough.Protocol.Tags.Wire.{type_bytes}
use roughenough.Protocol.Request.Spec.{value_ends}
use roughenough.Prelude.Bytes.{IsByte}
use roughenough.Protocol.Error.{ok}
use roughenough.Protocol.Cursor.{new}
use roughenough.Protocol.Cursor.Total.{Outcome}
use roughenough.Protocol.Wire.{as_frame_bytes, from_frame}
use roughenough.Protocol.Request.{
  Request, draft08, draft14, draft14_srv, wire_size, to_wire, from_wire, request_size,
}
use roughenough.Protocol.Request.Draft08.{new_request_draft08}
use roughenough.Protocol.Request.Draft14.{new_request_draft14}
use roughenough.Protocol.Request.Draft14Srv.{new_request_draft14_srv}
use roughenough.Protocol.Request.New.{
  new_draft08-IsRequest, new_draft14-IsRequest, new_draft14_srv-IsRequest,
}
use roughenough.Protocol.Request.RoundTrip.{IsRequest, from_frame-as_frame_bytes}
use roughenough.Protocol.Request.Total
use roughenough.Protocol.Request.Total.{from_frame_request-Outcome}
use roughenough.Protocol.Response
use roughenough.Protocol.Response.Draft08.{from_wire08}
use roughenough.Protocol.Response.Total.{
  IsAccepted, IsAcceptedDraft08, from_frame_response-Outcome, from_frame_response08-Outcome,
}

abbrev a_nonce : List ℕ
a_nonce = replicate 32 7

abbrev a_request : Request
a_request = draft14 (new_request_draft14 a_nonce)

a_request-IsRequest : IsRequest a_request
a_request-IsRequest = (new_draft14-IsRequest a_nonce refl).0

from_frame-as_frame_bytes_example :
    (bytes : List ℕ) × (as_frame_bytes (wire_size a_request) (to_wire a_request) ≡ ok bytes)
    × (length bytes ≡ request_size)
    × (end : ℕ) × (from_frame from_wire (new bytes)
        ≡ ok (a_request, record { bytes = bytes; position = end }))
from_frame-as_frame_bytes_example = from_frame-as_frame_bytes a_request a_request-IsRequest

new_draft08-IsRequest_example :
    IsRequest (draft08 (new_request_draft08 a_nonce))
    × ((new_request_draft08 a_nonce).nonce ≡ a_nonce)
    × ((new_request_draft08 a_nonce).version ≡ new_versions (rfc_draft08 ∷ []))
    × ((new_request_draft08 a_nonce).header.offsets
        ≡ value_ends 0 (
            versions_bytes (new_request_draft08 a_nonce).version
            ∷ a_nonce
            ∷ (new_request_draft08 a_nonce).padding
            ∷ []))
new_draft08-IsRequest_example = new_draft08-IsRequest a_nonce refl

new_draft14-IsRequest_example :
    IsRequest (draft14 (new_request_draft14 a_nonce))
    × ((new_request_draft14 a_nonce).nonce ≡ a_nonce)
    × ((new_request_draft14 a_nonce).version ≡ new_versions (rfc_draft14 ∷ []))
    × ((new_request_draft14 a_nonce).header.offsets
        ≡ value_ends 0 (
            versions_bytes (new_request_draft14 a_nonce).version
            ∷ a_nonce
            ∷ type_bytes request
            ∷ (new_request_draft14 a_nonce).padding
            ∷ []))
new_draft14-IsRequest_example = new_draft14-IsRequest a_nonce refl

new_draft14_srv-IsRequest_example :
    IsRequest (draft14_srv (new_request_draft14_srv a_nonce a_nonce))
    × ((new_request_draft14_srv a_nonce a_nonce).nonce ≡ a_nonce)
    × ((new_request_draft14_srv a_nonce a_nonce).server ≡ a_nonce)
    × ((new_request_draft14_srv a_nonce a_nonce).version ≡ new_versions (rfc_draft14 ∷ []))
    × ((new_request_draft14_srv a_nonce a_nonce).header.offsets
        ≡ value_ends 0 (
            versions_bytes (new_request_draft14_srv a_nonce a_nonce).version
            ∷ a_nonce
            ∷ a_nonce
            ∷ type_bytes request
            ∷ (new_request_draft14_srv a_nonce a_nonce).padding
            ∷ []))
new_draft14_srv-IsRequest_example = new_draft14_srv-IsRequest a_nonce a_nonce refl refl

-- The magic value, and a length that is too small.
abbrev short_frame : List ℕ
short_frame =
    b'R' ∷ b'O' ∷ b'U' ∷ b'G' ∷ b'H' ∷ b'T' ∷ b'I' ∷ b'M' ∷ 4 ∷ 0 ∷ 0 ∷ 0 ∷ 255 ∷ 255 ∷ 255 ∷ 255
    ∷ []

short_frame-IsByte : All IsByte short_frame
short_frame-IsByte = ground arith

from_frame_request-Outcome_example :
    Outcome Total.IsAccepted (new short_frame) (from_frame from_wire (new short_frame))
from_frame_request-Outcome_example = from_frame_request-Outcome short_frame short_frame-IsByte

from_frame_response-Outcome_example :
    Outcome IsAccepted (new short_frame) (from_frame Response.from_wire (new short_frame))
from_frame_response-Outcome_example = from_frame_response-Outcome short_frame short_frame-IsByte

from_frame_response08-Outcome_example :
    Outcome IsAcceptedDraft08 (new short_frame) (from_frame from_wire08 (new short_frame))
from_frame_response08-Outcome_example = from_frame_response08-Outcome short_frame short_frame-IsByte
