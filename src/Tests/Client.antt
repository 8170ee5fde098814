-- ===== src/Tests/Client.antt =====
-- The theorems on the client at concrete inputs.
use roughenough.Prelude.Bytes.{IsByte}
use roughenough.Prelude.{
  ℕ, zero, suc, ◌≡◌, ◌≢◌, ◌↔◌, refl, Bool, true, none, List, [], ◌∷◌, length, replicate, arith, All,
}
use roughenough.Protocol.Error.{ok}
use roughenough.Protocol.Cursor.{ParseCursor, new}
use roughenough.Protocol.Version.{rfc_draft14, is_below}
use roughenough.Protocol.Wire.{as_frame_bytes, from_frame, frame_size}
use roughenough.Protocol.Tags.{FixedTag, response}
use roughenough.Protocol.Tags.Path.{MerklePath, elements, new_path}
use roughenough.Protocol.Tags.Path.Elements.{new_path-IsValid}
use roughenough.Protocol.Tags.Dele.{new_dele, default_dele, saturating_add, new_cert, Certificate}
use roughenough.Protocol.Tags.Dele.Made as DeleMade
use roughenough.Protocol.Tags.Srep.{srep_tags}
use roughenough.Protocol.Request.{draft14}
use roughenough.Protocol.Request.Draft14.{new_request_draft14}
use roughenough.Protocol.Response.{
  Response, response_tags, update_offsets, wire_size, to_wire, from_wire,
}
use roughenough.Protocol.Response.Draft08.{default_response08}
use roughenough.Protocol.Response.Wire.{HasValues}
use roughenough.Protocol.Response.RoundTrip.{
  IsMade, update_offsets-IsMade, from_frame-as_frame_bytes_response,
}
use roughenough.Client.Validation.{accepted, validate_draft14, validate_draft08}
use roughenough.Client.Validation.Exact.{
  IsAuthentic, IsAuthenticDraft08, validate_draft14_iff, validate_draft08_iff,
}
use roughenough.Client.Validation.Forgery.{validate_draft14-forged}
use roughenough.Client.Query.{broken, parse_and_validate}
use roughenough.Client.Query.Total.{parse_and_validate-ne-broken}
use roughenough.Client.Measurement.{Measurement, midpoint, radius}
use roughenough.Client.Causality.{CausalityViolation, validate_causality}
use roughenough.Client.Causality.Exact.{IsViolation, InOrder, validate_causality-exact}

abbrev any_signature : FixedTag → List ℕ → FixedTag → Bool
any_signature key message signature = true

abbrev no_hash : List ℕ → List ℕ
no_hash message = replicate 64 9

a_cert : Certificate
unfolding new_cert new_dele default_dele saturating_add
a_cert = new_cert (replicate 64 1) (new_dele (replicate 32 2) 100 1000)

a_cert-IsMade : DeleMade.IsMade a_cert
unfolding a_cert new_cert new_dele default_dele saturating_add
a_cert-IsMade = record {
  headed = refl;
  signed = refl;
  delegated = record { headed = refl; keyed = refl; early = omega arith; late = omega arith };
}

a_response : Response
a_response = record {
  header = record { offsets = replicate 6 0; tags = response_tags };
  signature = replicate 64 3;
  nonce = replicate 32 4;
  msg_type = response;
  path = new_path;
  srep = record {
    header = record { offsets = 4 ∷ 8 ∷ 16 ∷ 20 ∷ []; tags = srep_tags };
    version = rfc_draft14;
    radius = 5;
    midpoint = 500;
    supported_versions = rfc_draft14 ∷ [];
    merkle_root = replicate 32 5;
  };
  cert = a_cert;
  index = 0;
}

a_response-HasValues : HasValues a_response
unfolding a_response is_below
a_response-HasValues = record {
  signed = refl;
  nonced = refl;
  typed = refl;
  path_valid = new_path-IsValid;
  srep_made = record {
    headed = refl;
    radius_small = omega arith;
    midpoint_small = omega arith;
    some_versions = omega arith;
    listed = record { fits = omega arith; ordered = (refl, tt) };
    rooted = refl;
  };
  cert_made = a_cert-IsMade;
  index_small = omega arith;
}

updated_response-IsMade : IsMade (update_offsets a_response)
unfolding a_response
updated_response-IsMade = update_offsets-IsMade a_response a_response-HasValues refl

from_frame-as_frame_bytes_response_example :
    (bytes : List ℕ) × (as_frame_bytes
        (wire_size (update_offsets a_response))
        (to_wire (update_offsets a_response))
      ≡ ok bytes)
    × (length bytes ≡ frame_size (wire_size (update_offsets a_response)))
    × (path : MerklePath) × (from_frame from_wire (new bytes)
        ≡ ok (
          record (update_offsets a_response) { path = path },
          record { bytes = bytes; position = frame_size (wire_size (update_offsets a_response)) },
        ))
    × (elements path ≡ elements (update_offsets a_response).path)
from_frame-as_frame_bytes_response_example =
    from_frame-as_frame_bytes_response (update_offsets a_response) updated_response-IsMade

validate_draft14_iff_example :
    (validate_draft14 any_signature no_hash
        (record { pub_key = none })
        (replicate 1024 0)
        a_response
        []
      ≡ accepted 500)
    ↔ ((500 ≡ a_response.srep.midpoint)
        × IsAuthentic any_signature no_hash none (replicate 1024 0) a_response [])
validate_draft14_iff_example =
    validate_draft14_iff any_signature no_hash none (replicate 1024 0) a_response [] 500

validate_draft08_iff_example :
    (validate_draft08 any_signature no_hash
        (record { pub_key = none })
        (replicate 1024 0)
        default_response08
        []
      ≡ accepted 0)
    ↔ ((0 ≡ default_response08.srep.midpoint)
        × IsAuthenticDraft08 any_signature no_hash none (replicate 1024 0) default_response08 [])
validate_draft08_iff_example =
    validate_draft08_iff any_signature no_hash none (replicate 1024 0) default_response08 [] 0

validate_draft14-forged_example :
    (bytes : List ℕ) × (r : Response) × (c : ParseCursor) × (from_frame from_wire (new bytes)
      ≡ ok (r, c))
    × (validate_draft14 any_signature no_hash (record { pub_key = none }) (replicate 1024 0) r bytes
        ≡ accepted 777)
unfolding a_cert new_cert new_dele default_dele saturating_add
validate_draft14-forged_example =
    validate_draft14-forged any_signature no_hash (λ message. refl) none rfc_draft14 a_cert
      (replicate 64 3) (replicate 32 4) (replicate 96 7) (replicate 1024 0) 777 a_cert-IsMade tt
      refl refl refl (omega arith) refl (omega arith) (omega arith) (omega arith)

abbrev measured : ℕ → ℕ → Measurement (Unit {0})
measured midpoint radius = record {
  server = tt;
  hostname = [];
  public_key = none;
  request = draft14 (new_request_draft14 (replicate 32 7));
  response = record a_response {
    srep = record a_response.srep { midpoint = midpoint; radius = radius };
  };
  rand_value = none;
  prior_response = none;
}

-- The second is too early.
abbrev out_of_order : List (Measurement (Unit {0}))
out_of_order = measured 1000 5 ∷ measured 900 5 ∷ []

validate_causality-exact_example :
    (found : List (CausalityViolation (Unit {0}))) × (validate_causality out_of_order ≡ ok found)
    × ((found ≡ []) ↔ InOrder out_of_order)
    × All IsViolation found
unfolding midpoint radius
validate_causality-exact_example = validate_causality-exact out_of_order (
  record { from_zero = omega arith; to_max = omega arith },
  (record { from_zero = omega arith; to_max = omega arith }, tt),
)

zeros-IsByte : (n : ℕ) → All IsByte (replicate n 0)
zeros-IsByte zero = tt
zeros-IsByte (suc n) = (omega arith, zeros-IsByte n)

parse_and_validate-ne-broken_example :
    parse_and_validate no_hash any_signature rfc_draft14
      (record { pub_key = none })
      (replicate 1024 0)
      (replicate 416 0)
    ≢ broken
parse_and_validate-ne-broken_example =
    parse_and_validate-ne-broken no_hash any_signature rfc_draft14 none (replicate 1024 0)
      (replicate 416 0) (zeros-IsByte 416)
