-- ===== src/Client/Validation.antt =====
-- crates/roughenough-client/src/validation.rs: the checks of a response.
-- SHA-512 and the verification of Ed25519 signatures, `verify key message signature`, are parameters.
pub mod Checks
pub mod Accepts
pub mod Exact
pub mod Forgery
pub mod Safe
pub mod Genuine
use roughenough.Prelude.{
  ℕ, ◌+◌, ◌-◌, ◌<◌, Bool, Option, none, some, List, [], ◌∷◌, ◌++◌, length, take, drop, ltb, ◌==◌,
  not, if◌then◌else◌, ◌||◌,
}
use roughenough.Protocol.Error
use roughenough.Protocol.Error.{Error, Result, index, buffer_too_small}
use roughenough.Protocol.Tag.{bytes_eq}
use roughenough.Protocol.Version.{
  ProtocolVersion, rfc_draft08, rfc_draft14, dele_prefix, srep_prefix, is_supported,
}
use roughenough.Protocol.Wire.{as_bytes}
use roughenough.Protocol.Tags.{FixedTag}
use roughenough.Protocol.Tags.Path.{MerklePath}
use roughenough.Protocol.Tags.Dele.{Certificate, dele_to_wire, dele_wire_size}
use roughenough.Protocol.Tags.Srep.{SignedResponse, SignedResponseDraft08}
use roughenough.Protocol.Response.{Response}
use roughenough.Protocol.Response.Draft08.{ResponseDraft08}
use roughenough.Protocol.Request.Draft08.{framed_nonce_offset}
use roughenough.Merkle.{root_from_paths}

-- The texts of the messages are left out.
pub data ValidationError : Type 0 where
  invalid_midpoint : ValidationError
  bad_signature : ValidationError
  failed_proof : ValidationError
  invalid_message : Error → ValidationError
  version_mismatch : ProtocolVersion → ValidationError
  invalid_radius : ValidationError

-- Rust's `Result<A, ValidationError>`, with the case that the code panics.
pub data Verdict (A : Type 0) : Type 0 where
  crashed : Verdict A
  rejected : ValidationError → Verdict A
  accepted : A → Verdict A

abbrev pub ◌>>=◌ : {A B : Type 0} → Verdict A → (A → Verdict B) → Verdict B
crashed >>= k = crashed
rejected e >>= k = rejected e
accepted a >>= k = k a

infixl 5 ◌>>=◌ ◌>>◌
abbrev pub ◌>>◌ : {B : Type 0} → Verdict (Unit {0}) → Verdict B → Verdict B
m >> k = m >>= λ _. k

-- Rust's `?` on a `Result<A, Error>`.
abbrev pub convert : {A : Type 0} → Result A → Verdict A
convert Error.panic = crashed
convert (Error.err e) = rejected (invalid_message e)
convert (Error.ok a) = accepted a

-- `if b { return Err(e); }`
abbrev pub reject_if : Bool → ValidationError → Verdict (Unit {0})
reject_if b e = if b then rejected e else accepted tt

-- `&xs[start..end]`
unfoldable pub slice : ℕ → ℕ → List ℕ → Verdict (List ℕ)
slice start end xs =
    if ltb end start || ltb (length xs) end
    then crashed
    else accepted (take (end - start) (drop start xs))

-- The key is 32 bytes.
pub record ResponseValidator : Type 0 where
  pub pub_key : Option FixedTag

abbrev pub new_validator : ResponseValidator
new_validator = record { pub_key = none }

abbrev pub new_with_key : FixedTag → ResponseValidator
new_with_key key = record { pub_key = some key }

abbrev pub frame_header_size : ℕ
frame_header_size = 12

abbrev pub msg_header_size_7_tags : ℕ
msg_header_size_7_tags = 56

abbrev pub msg_header_size_6_tags : ℕ
msg_header_size_6_tags = 48

unfoldable pub check_vers_contains_ver : Response → Verdict (Unit {0})
check_vers_contains_ver response =
    reject_if (not (is_supported response.srep.supported_versions response.srep.version))
      (version_mismatch response.srep.version)

unfoldable pub check_midpoint_inner : ℕ → ℕ → ℕ → Verdict (Unit {0})
check_midpoint_inner midpoint mint maxt =
    reject_if (ltb midpoint mint) invalid_midpoint >> reject_if (ltb maxt midpoint) invalid_midpoint

unfoldable pub check_radius : ℕ → Verdict (Unit {0})
check_radius radius = reject_if (radius == 0) invalid_radius

-- The part of the framed response between two offsets of its header.
unfoldable pub srep_slice : ℕ → ℕ → ℕ → List ℕ → Verdict (List ℕ)
unfolding slice
srep_slice values_start start_offset end_offset response_bytes =
    reject_if (ltb (length response_bytes) (values_start + end_offset)) bad_signature
    >> slice (values_start + start_offset) (values_start + end_offset) response_bytes

module _ (verify : FixedTag → List ℕ → FixedTag → Bool) where
  unfoldable pub check_dele_signature_with_key :
      FixedTag → Certificate → ProtocolVersion → Verdict (Unit {0})
  check_dele_signature_with_key pub_key cert version = do
    dele ← convert (as_bytes dele_wire_size (dele_to_wire cert.delegation))
    reject_if (not (verify pub_key (dele_prefix version ++ dele) cert.signature)) bad_signature

  -- The check that the validator makes if it has a key.
  unfoldable pub check_dele_signature :
      ResponseValidator → Certificate → ProtocolVersion → Verdict (Unit {0})
  unfolding check_dele_signature_with_key
  check_dele_signature validator cert version = elim validator.pub_key [
    | none ↦ accepted tt
    | some pub_key ↦ check_dele_signature_with_key pub_key cert version
  ]

  unfoldable pub verify_srep_signature : List ℕ → List ℕ → FixedTag → FixedTag → Verdict (Unit {0})
  verify_srep_signature prefix srep_bytes sig pubk =
      reject_if (not (verify pubk (prefix ++ srep_bytes) sig)) bad_signature

  unfoldable pub check_srep_signature_draft14 : Response → List ℕ → Verdict (Unit {0})
  unfolding srep_slice verify_srep_signature
  check_srep_signature_draft14 response response_bytes = do
    srep_start ← convert (index response.header.offsets 3)
    srep_end ← convert (index response.header.offsets 4)
    srep_bytes ←
        srep_slice (frame_header_size + msg_header_size_7_tags) srep_start srep_end response_bytes
    verify_srep_signature (srep_prefix response.srep.version) srep_bytes response.signature
        response.cert.delegation.public_key

  unfoldable pub check_srep_signature_draft08 : ResponseDraft08 → List ℕ → Verdict (Unit {0})
  unfolding srep_slice verify_srep_signature
  check_srep_signature_draft08 response response_bytes = do
    srep_start ← convert (index response.header.offsets 2)
    srep_end ← convert (index response.header.offsets 3)
    srep_bytes ←
        srep_slice (frame_header_size + msg_header_size_6_tags) srep_start srep_end response_bytes
    verify_srep_signature (srep_prefix rfc_draft08) srep_bytes response.signature
        response.cert.delegation.public_key

  module _ (sha512 : List ℕ → List ℕ) where
    unfoldable pub check_merkle_proof_inner :
        List ℕ → MerklePath → ℕ → FixedTag → Verdict (Unit {0})
    check_merkle_proof_inner leaf_data response_path response_index response_root =
        reject_if
          (not (
            bytes_eq (root_from_paths sha512 response_index leaf_data response_path) response_root))
          failed_proof

    unfoldable pub check_merkle_proof_draft14 : List ℕ → Response → Verdict (Unit {0})
    unfolding check_merkle_proof_inner
    check_merkle_proof_draft14 request response =
        check_merkle_proof_inner request response.path response.index response.srep.merkle_root

    unfoldable pub check_merkle_proof_draft08 : List ℕ → ResponseDraft08 → Verdict (Unit {0})
    unfolding check_merkle_proof_inner slice
    check_merkle_proof_draft08 request response = do
      let nonce_end = framed_nonce_offset + 32
      reject_if (ltb (length request) nonce_end)
          (invalid_message (buffer_too_small nonce_end (length request)))
      nonce ← slice framed_nonce_offset nonce_end request
      check_merkle_proof_inner nonce response.path response.index response.srep.merkle_root

    unfoldable pub validate_draft14 : ResponseValidator → List ℕ → Response → List ℕ → Verdict ℕ
    unfolding check_dele_signature check_vers_contains_ver check_midpoint_inner check_radius
        check_merkle_proof_draft14 check_srep_signature_draft14
    validate_draft14 validator request response response_bytes = do
      check_dele_signature validator response.cert response.srep.version
      check_vers_contains_ver response
      check_midpoint_inner response.srep.midpoint response.cert.delegation.min_time
          response.cert.delegation.max_time
      check_radius response.srep.radius
      check_merkle_proof_draft14 request response
      check_srep_signature_draft14 response response_bytes
      accepted response.srep.midpoint

    unfoldable pub validate_draft08 :
        ResponseValidator → List ℕ → ResponseDraft08 → List ℕ → Verdict ℕ
    unfolding check_dele_signature check_midpoint_inner check_radius check_merkle_proof_draft08
        check_srep_signature_draft08
    validate_draft08 validator request response response_bytes = do
      check_dele_signature validator response.cert rfc_draft08
      check_midpoint_inner response.srep.midpoint response.cert.delegation.min_time
          response.cert.delegation.max_time
      check_radius response.srep.radius
      check_merkle_proof_draft08 request response
      check_srep_signature_draft08 response response_bytes
      accepted response.srep.midpoint
