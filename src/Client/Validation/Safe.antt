-- ===== src/Client/Validation/Safe.antt =====
-- The validator of validation.rs on responses that were parsed.
use roughenough.Prelude.{
  ℕ, suc, ◌+◌, ◌≤◌, ◌≡◌, ◌≢◌, Bool, Option, none, some, List, length, ltb, arith, All, not_ltb→le,
}
use roughenough.Prelude.Bytes.{IsByte}
use roughenough.Protocol.Error.{buffer_too_small, ok, panic, index}
use roughenough.Protocol.Cursor.{ParseCursor, new}
use roughenough.Protocol.Cursor.Total.{Outcome-ok}
use roughenough.Protocol.Header.Total.{Neighbours, neighbours}
use roughenough.Protocol.Version.{ProtocolVersion, rfc_draft08, srep_prefix}
use roughenough.Protocol.Wire.{as_bytes, from_frame}
use roughenough.Protocol.Wire.Frame.{as_bytes-Writes}
use roughenough.Protocol.Tags.{FixedTag}
use roughenough.Protocol.Tags.Path.{MerklePath}
use roughenough.Protocol.Tags.Dele.{Certificate, Delegation, dele_to_wire, dele_wire_size}
use roughenough.Protocol.Tags.Dele.Made.{
  delegation_bytes, delegation_bytes-Writes, length-delegation_bytes,
}
use roughenough.Protocol.Tags.Dele.Wire.{IsDelegation, IsCertificate}
use roughenough.Protocol.Response.{Response, from_wire}
use roughenough.Protocol.Response.Draft08.{ResponseDraft08, from_wire08}
use roughenough.Protocol.Response.Total.{
  IsAccepted, IsAcceptedDraft08, from_frame_response-Outcome, from_frame_response08-Outcome,
}
use roughenough.Client.Validation.{
  Verdict, crashed, accepted, ◌>>=◌, ◌>>◌, reject_if, invalid_midpoint, invalid_message, slice,
  srep_slice, convert, check_dele_signature, check_dele_signature_with_key, verify_srep_signature,
  check_midpoint_inner, check_radius, check_vers_contains_ver, check_merkle_proof_inner,
  check_merkle_proof_draft14, check_merkle_proof_draft08, check_srep_signature_draft14,
  check_srep_signature_draft08, validate_draft14, validate_draft08,
}
use roughenough.Client.Validation.Checks.{
  bind-ne-crashed, reject_if-ne-crashed, convert-ne-crashed, accepted-reject_if,
}

-- The delegation of a parsed certificate is written again without an error.
pub as_bytes-delegation :
    (dele : Delegation)
    → IsDelegation dele
    → as_bytes dele_wire_size (dele_to_wire dele) ≡ ok (delegation_bytes dele)
as_bytes-delegation dele d =
    as_bytes-Writes dele_wire_size (delegation_bytes-Writes dele d.headed)
      (length-delegation_bytes dele d.key.size)

then-ne-crashed :
    {B : Type 0} (m : Verdict (Unit {0})) (k : Verdict B)
    → m ≢ crashed
    → k ≢ crashed
    → (m >> k) ≢ crashed
then-ne-crashed m k h g = bind-ne-crashed m (λ _. k) h (λ _ _. g)

accepted-ne-crashed : {A : Type 0} (a : A) → accepted a ≢ crashed
accepted-ne-crashed a e = cc

slice-ne-crashed :
    (start end : ℕ) (xs : List ℕ) → start ≤ end → end ≤ length xs → slice start end xs ≢ crashed
unfolding slice
slice-ne-crashed start end xs h k = ground arith

srep_slice-ne-crashed :
    (headers start end : ℕ) (bytes : List ℕ)
    → start ≤ end
    → srep_slice headers start end bytes ≢ crashed
unfolding srep_slice
srep_slice-ne-crashed headers start end bytes h =
    bind-ne-crashed _ _ (reject_if-ne-crashed _ _) λ u e.
      slice-ne-crashed (headers + start) (headers + end) bytes (omega arith)
        (not_ltb→le (length bytes) (headers + end) (accepted-reject_if _ _ e))

index-ok-ne-panic : (xs : List ℕ) (i x : ℕ) → index xs i ≡ ok x → index xs i ≢ panic
index-ok-ne-panic xs i x h e = cc

vers-ne-crashed : (r : Response) → check_vers_contains_ver r ≢ crashed
unfolding check_vers_contains_ver
vers-ne-crashed r = reject_if-ne-crashed _ _

midpoint-ne-crashed : (midpoint mint maxt : ℕ) → check_midpoint_inner midpoint mint maxt ≢ crashed
unfolding check_midpoint_inner
midpoint-ne-crashed midpoint mint maxt =
    then-ne-crashed (reject_if (ltb midpoint mint) invalid_midpoint)
      (reject_if (ltb maxt midpoint) invalid_midpoint) (reject_if-ne-crashed _ _)
      (reject_if-ne-crashed _ _)

radius-ne-crashed : (radius : ℕ) → check_radius radius ≢ crashed
unfolding check_radius
radius-ne-crashed radius = reject_if-ne-crashed _ _

module _ (verify : FixedTag → List ℕ → FixedTag → Bool) (sha512 : List ℕ → List ℕ) where
  dele-ne-crashed :
      (key : Option FixedTag) (cert : Certificate) (version : ProtocolVersion)
      → IsCertificate cert
      → check_dele_signature verify (record { pub_key = key }) cert version ≢ crashed
  unfolding check_dele_signature check_dele_signature_with_key
  dele-ne-crashed none cert version h = accepted-ne-crashed tt
  dele-ne-crashed (some key) cert version h =
      bind-ne-crashed (convert (as_bytes dele_wire_size (dele_to_wire cert.delegation))) _
        (convert-ne-crashed (as_bytes dele_wire_size (dele_to_wire cert.delegation))
          (rw (as_bytes-delegation cert.delegation h.delegates) (λ e. cc)))
        λ _ _. reject_if-ne-crashed _ _

  signature-ne-crashed :
      (offsets : List ℕ) (i headers : ℕ) (bytes : List ℕ) (k : List ℕ → Verdict (Unit {0}))
      → Neighbours offsets i
      → ((ys : List ℕ) → k ys ≢ crashed)
      → (convert (index offsets i) >>= λ start.
          (convert (index offsets (suc i)) >>= λ end. (srep_slice headers start end bytes >>= k)))
        ≢ crashed
  signature-ne-crashed offsets i headers bytes k n h =
      rw (n.at_start, n.at_end)
        (bind-ne-crashed (srep_slice headers n.start n.end bytes) k
          (srep_slice-ne-crashed headers n.start n.end bytes n.in_order) (λ ys _. h ys))

  proof-ne-crashed :
      (leaf : List ℕ) (path : MerklePath) (i : ℕ) (root : FixedTag)
      → check_merkle_proof_inner verify sha512 leaf path i root ≢ crashed
  unfolding check_merkle_proof_inner
  proof-ne-crashed leaf path i root = reject_if-ne-crashed _ _

  proof08-ne-crashed :
      (request : List ℕ) (r : ResponseDraft08)
      → check_merkle_proof_draft08 verify sha512 request r ≢ crashed
  unfolding check_merkle_proof_draft08
  proof08-ne-crashed request r =
      bind-ne-crashed
        (reject_if (ltb (length request) 72)
          (invalid_message (buffer_too_small 72 (length request))))
        _ (reject_if-ne-crashed _ _)
        λ u e.
          bind-ne-crashed (slice 40 72 request) _
            (slice-ne-crashed 40 72 request (omega arith) (
              not_ltb→le (length request) 72
                (accepted-reject_if _ (invalid_message (buffer_too_small 72 (length request))) e)))
            λ ys _. proof-ne-crashed ys r.path r.index r.srep.merkle_root

  signed-ne-crashed :
      (prefix ys : List ℕ) (sig pubk : FixedTag)
      → verify_srep_signature verify prefix ys sig pubk ≢ crashed
  unfolding verify_srep_signature
  signed-ne-crashed prefix ys sig pubk = reject_if-ne-crashed _ _

  module _ (key : Option FixedTag) (request bytes : List ℕ) where
    validate14-ne-crashed :
        (r : Response)
        → IsAccepted r
        → validate_draft14 verify sha512 (record { pub_key = key }) request r bytes ≢ crashed
    unfolding validate_draft14 check_merkle_proof_draft14 check_srep_signature_draft14
    validate14-ne-crashed r a =
        then-ne-crashed
          (check_dele_signature verify (record { pub_key = key }) r.cert r.srep.version) _
          (dele-ne-crashed key r.cert r.srep.version a.certified)
          (then-ne-crashed (check_vers_contains_ver r) _ (vers-ne-crashed r) (
            then-ne-crashed
              (check_midpoint_inner r.srep.midpoint r.cert.delegation.min_time
                r.cert.delegation.max_time)
              _
              (midpoint-ne-crashed r.srep.midpoint r.cert.delegation.min_time
                r.cert.delegation.max_time)
              (then-ne-crashed (check_radius r.srep.radius) _ (radius-ne-crashed r.srep.radius) (
                then-ne-crashed (check_merkle_proof_draft14 verify sha512 request r) _
                  (proof-ne-crashed request r.path r.index r.srep.merkle_root)
                  (then-ne-crashed (check_srep_signature_draft14 verify r bytes) _
                    (signature-ne-crashed r.header.offsets 3 68 bytes _
                      (neighbours 3 0 r.header.offsets a.headed.offsets_ascend
                        (omega (arith, a.headed.num_offsets)))
                      (λ ys.
                        signed-ne-crashed (srep_prefix r.srep.version) ys r.signature
                          r.cert.delegation.public_key))
                    (accepted-ne-crashed r.srep.midpoint))))))

    validate08-ne-crashed :
        (r : ResponseDraft08)
        → IsAcceptedDraft08 r
        → validate_draft08 verify sha512 (record { pub_key = key }) request r bytes ≢ crashed
    unfolding validate_draft08 check_srep_signature_draft08
    validate08-ne-crashed r a =
        then-ne-crashed (check_dele_signature verify (record { pub_key = key }) r.cert rfc_draft08)
          _ (dele-ne-crashed key r.cert rfc_draft08 a.certified)
          (then-ne-crashed
            (check_midpoint_inner r.srep.midpoint r.cert.delegation.min_time
              r.cert.delegation.max_time)
            _
            (midpoint-ne-crashed r.srep.midpoint r.cert.delegation.min_time
              r.cert.delegation.max_time)
            (then-ne-crashed (check_radius r.srep.radius) _ (radius-ne-crashed r.srep.radius) (
              then-ne-crashed (check_merkle_proof_draft08 verify sha512 request r) _
                (proof08-ne-crashed request r)
                (then-ne-crashed (check_srep_signature_draft08 verify r bytes) _
                  (signature-ne-crashed r.header.offsets 2 60 bytes _
                    (neighbours 2 0 r.header.offsets a.headed.offsets_ascend
                      (omega (arith, a.headed.num_offsets)))
                    (λ ys.
                      signed-ne-crashed (srep_prefix rfc_draft08) ys r.signature
                        r.cert.delegation.public_key))
                  (accepted-ne-crashed r.srep.midpoint)))))

    -- Whatever bytes arrive, if they parse as a framed draft-14 response, then `validate_draft14` does not panic on that
    -- response, with or without a key, whatever the request is.
    pub validate_draft14-ne-crashed :
        (datagram : List ℕ) (r : Response) (c : ParseCursor)
        → All IsByte datagram
        → from_frame from_wire (new datagram) ≡ ok (r, c)
        → validate_draft14 verify sha512 (record { pub_key = key }) request r bytes ≢ crashed
    validate_draft14-ne-crashed datagram r c octets parsed =
        validate14-ne-crashed r
          (Outcome-ok r c (from_frame_response-Outcome datagram octets) parsed)

    -- Whatever bytes arrive, if they parse as a framed draft-08 response, then `validate_draft08` does not panic on that
    -- response, with or without a key, whatever the request is.
    pub validate_draft08-ne-crashed :
        (datagram : List ℕ) (r : ResponseDraft08) (c : ParseCursor)
        → All IsByte datagram
        → from_frame from_wire08 (new datagram) ≡ ok (r, c)
        → validate_draft08 verify sha512 (record { pub_key = key }) request r bytes ≢ crashed
    validate_draft08-ne-crashed datagram r c octets parsed =
        validate08-ne-crashed r
          (Outcome-ok r c (from_frame_response08-Outcome datagram octets) parsed)
