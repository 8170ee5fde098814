-- ===== src/Client/Validation/Exact.antt =====
-- `validate_draft14` and `validate_draft08` of validation.rs accept exactly the responses that pass every check.
use roughenough.Prelude.{
  ℕ, ◌≤◌, ◌≡◌, ◌↔◌, refl, ap, ◌∙◌, sym, Bool, true, Option, List, length, take, drop, arith,
  le→not_ltb,
}
use roughenough.Protocol.Error.{buffer_too_small}
use roughenough.Protocol.Tag.{bytes_eq}
use roughenough.Protocol.Tag.Wire.{bytes_eq→eq}
use roughenough.Protocol.Version.{rfc_draft08, is_supported}
use roughenough.Protocol.Tags.{FixedTag}
use roughenough.Protocol.Tags.Path.{MerklePath}
use roughenough.Protocol.Response.{Response}
use roughenough.Protocol.Response.Draft08.{ResponseDraft08}
use roughenough.Merkle.{root_from_paths}
use roughenough.Client.Validation.{
  failed_proof, version_mismatch, invalid_message, accepted, slice, check_dele_signature,
  check_midpoint_inner, check_radius, check_vers_contains_ver, check_srep_signature_draft14,
  check_srep_signature_draft08, check_merkle_proof_inner, check_merkle_proof_draft14,
  check_merkle_proof_draft08, validate_draft14, validate_draft08,
}
use roughenough.Client.Validation.Checks.{
  accepted-bind, bind-accepted, accepted-then, then-accepted, reject_if-accepted,
  accepted-reject_unless, reject_unless-accepted,
}
use roughenough.Client.Validation.Accepts.{
  Certifies, IsInSpan, SignedBetween, slice_iff, bytes_eq_refl, midpoint_iff, radius_iff,
  check_dele_signature_iff, signature_check, signature_sound, signature_complete,
}

module _ (verify : FixedTag → List ℕ → FixedTag → Bool) (sha512 : List ℕ → List ℕ) where
  proof_iff :
      (leaf : List ℕ) (path : MerklePath) (i : ℕ) (root : FixedTag)
      → (check_merkle_proof_inner verify sha512 leaf path i root ≡ accepted tt)
        ↔ (root_from_paths sha512 i leaf path ≡ root)
  unfolding check_merkle_proof_inner
  proof_iff leaf path i root = (
    (λ h.
        bytes_eq→eq (root_from_paths sha512 i leaf path) root
          (accepted-reject_unless _ failed_proof h)),
    (λ e. reject_unless-accepted _ failed_proof (
        ap (bytes_eq (root_from_paths sha512 i leaf path)) (sym e)
        ∙ bytes_eq_refl (root_from_paths sha512 i leaf path))),
  )

  -- What a client knows of a draft-14 response that it accepts.
  pub record IsAuthentic (key : Option FixedTag) (request : List ℕ) (r : Response) (bytes : List ℕ)
      : Type 0 where
    pub certified : Certifies verify key r.cert r.srep.version
    pub listed : is_supported r.srep.supported_versions r.srep.version ≡ true
    pub in_span : IsInSpan r.srep.midpoint r.srep.radius r.cert.delegation
    pub included : root_from_paths sha512 r.index request r.path ≡ r.srep.merkle_root
    pub signed :
        SignedBetween verify 68 r.header.offsets 3 4 r.srep.version r.signature r.cert.delegation
          bytes

  pub record IsAuthenticDraft08 (key : Option FixedTag) (request : List ℕ) (r : ResponseDraft08)
      (bytes : List ℕ) : Type 0 where
    pub certified : Certifies verify key r.cert rfc_draft08
    pub in_span : IsInSpan r.srep.midpoint r.srep.radius r.cert.delegation
    pub long_enough : 72 ≤ length request
    pub included :
        root_from_paths sha512 r.index (take 32 (drop 40 request)) r.path ≡ r.srep.merkle_root
    pub signed :
        SignedBetween verify 60 r.header.offsets 2 3 rfc_draft08 r.signature r.cert.delegation bytes

  module _ (key : Option FixedTag) (request : List ℕ) (r : Response) (bytes : List ℕ)
      (time : ℕ) where
    sound :
        validate_draft14 verify sha512 (record { pub_key = key }) request r bytes ≡ accepted time
        → (time ≡ r.srep.midpoint) × IsAuthentic key request r bytes
    unfolding validate_draft14 check_vers_contains_ver check_merkle_proof_draft14
        check_srep_signature_draft14 signature_check
    sound h =
        let (dele, h₁) =
          accepted-then
            (check_dele_signature verify (record { pub_key = key }) r.cert r.srep.version) _ time
            h in
        let (vers, h₂) = accepted-then (check_vers_contains_ver r) _ time h₁ in
        let (midp, h₃) =
          accepted-then
            (check_midpoint_inner r.srep.midpoint r.cert.delegation.min_time
              r.cert.delegation.max_time)
            _ time h₂ in
        let (radi, h₄) = accepted-then (check_radius r.srep.radius) _ time h₃ in
        let (root, h₅) =
          accepted-then (check_merkle_proof_draft14 verify sha512 request r) _ time h₄ in
        let (sig, h₆) = accepted-then (check_srep_signature_draft14 verify r bytes) _ time h₅ in
        let span : (r.cert.delegation.min_time ≤ r.srep.midpoint)
            × (r.srep.midpoint ≤ r.cert.delegation.max_time) =
          (midpoint_iff r.srep.midpoint r.cert.delegation.min_time r.cert.delegation.max_time).0
            midp in
        (
          cc,
          record {
            certified = (check_dele_signature_iff verify key r.cert r.srep.version).0 dele;
            listed = accepted-reject_unless _ (version_mismatch r.srep.version) vers;
            in_span = record {
              not_before = span.0;
              not_after = span.1;
              uncertain = (radius_iff r.srep.radius).0 radi;
            };
            included = (proof_iff request r.path r.index r.srep.merkle_root).0 root;
            signed =
                signature_sound verify r.header.offsets 3 4 68 r.srep.version r.signature
                  r.cert.delegation bytes sig;
          },
        )

    complete :
        (time ≡ r.srep.midpoint) × IsAuthentic key request r bytes
        → validate_draft14 verify sha512 (record { pub_key = key }) request r bytes ≡ accepted time
    unfolding validate_draft14 check_vers_contains_ver check_merkle_proof_draft14
        check_srep_signature_draft14 signature_check
    complete (e, a) =
        then-accepted _ _ time
          ((check_dele_signature_iff verify key r.cert r.srep.version).1 a.certified)
          (then-accepted _ _ time
            (reject_unless-accepted _ (version_mismatch r.srep.version) a.listed)
            (then-accepted _ _ time
              ((midpoint_iff r.srep.midpoint r.cert.delegation.min_time
                  r.cert.delegation.max_time).1
                (a.in_span.not_before, a.in_span.not_after))
              (then-accepted _ _ time ((radius_iff r.srep.radius).1 a.in_span.uncertain) (
                then-accepted _ _ time
                  ((proof_iff request r.path r.index r.srep.merkle_root).1 a.included)
                  (then-accepted _ _ time
                    (signature_complete verify r.header.offsets 3 4 68 r.srep.version r.signature
                      r.cert.delegation bytes a.signed)
                    (ap (λ t. accepted t) (sym e)))))))

    -- `validate_draft14` gives a time for a draft-14 response exactly if that time is its midpoint and all of this holds: the
    -- certificate has the long-term key's signature over the delegation, if the validator has a key; VER is listed in VERS;
    -- the midpoint lies between MINT and MAXT; the radius is not 0; INDX and PATH lead from the hash of the request to
    -- ROOT; the delegated key's signature is good for the received bytes between the fourth and the fifth offset, which
    -- are in order and inside of those bytes. Nothing else is asked, so not that the bits of INDX beyond the elements of
    -- PATH are zero, as RFC section 5.3.1 wants.
    pub validate_draft14_iff :
        (validate_draft14 verify sha512 (record { pub_key = key }) request r bytes ≡ accepted time)
        ↔ ((time ≡ r.srep.midpoint) × IsAuthentic key request r bytes)
    validate_draft14_iff = (sound, complete)

  module _ (key : Option FixedTag) (request : List ℕ) (r : ResponseDraft08) (bytes : List ℕ)
      (time : ℕ) where
    proof08_sound :
        check_merkle_proof_draft08 verify sha512 request r ≡ accepted tt
        → (72 ≤ length request)
          × (root_from_paths sha512 r.index (take 32 (drop 40 request)) r.path ≡ r.srep.merkle_root)
    unfolding check_merkle_proof_draft08
    proof08_sound h =
        let (long, h₁) = accepted-then _ _ tt h in
        let (nonce, cut, h₂) = accepted-bind (slice 40 72 request) _ tt h₁ in
        let (le, fits, same) = (slice_iff 40 72 request nonce).0 cut in
        (
          fits,
          ap (λ n. root_from_paths sha512 r.index n r.path) (sym same)
              ∙ (proof_iff nonce r.path r.index r.srep.merkle_root).0 h₂,
        )

    proof08_complete :
        72 ≤ length request
        → root_from_paths sha512 r.index (take 32 (drop 40 request)) r.path ≡ r.srep.merkle_root
        → check_merkle_proof_draft08 verify sha512 request r ≡ accepted tt
    unfolding check_merkle_proof_draft08
    proof08_complete fits e =
        then-accepted _ _ tt
          (reject_if-accepted _ (invalid_message (buffer_too_small 72 (length request)))
            (le→not_ltb (length request) 72 fits))
          (bind-accepted _ _ (take 32 (drop 40 request)) tt
            ((slice_iff 40 72 request _).1 (omega arith, fits, refl))
            ((proof_iff (take 32 (drop 40 request)) r.path r.index r.srep.merkle_root).1 e))

    sound08 :
        validate_draft08 verify sha512 (record { pub_key = key }) request r bytes ≡ accepted time
        → (time ≡ r.srep.midpoint) × IsAuthenticDraft08 key request r bytes
    unfolding validate_draft08 check_srep_signature_draft08 signature_check
    sound08 h =
        let (dele, h₁) =
          accepted-then (check_dele_signature verify (record { pub_key = key }) r.cert rfc_draft08)
            _ time h in
        let (midp, h₃) =
          accepted-then
            (check_midpoint_inner r.srep.midpoint r.cert.delegation.min_time
              r.cert.delegation.max_time)
            _ time h₁ in
        let (radi, h₄) = accepted-then (check_radius r.srep.radius) _ time h₃ in
        let (root, h₅) =
          accepted-then (check_merkle_proof_draft08 verify sha512 request r) _ time h₄ in
        let (sig, h₆) = accepted-then (check_srep_signature_draft08 verify r bytes) _ time h₅ in
        let span : (r.cert.delegation.min_time ≤ r.srep.midpoint)
            × (r.srep.midpoint ≤ r.cert.delegation.max_time) =
          (midpoint_iff r.srep.midpoint r.cert.delegation.min_time r.cert.delegation.max_time).0
            midp in
        let (long, included) = proof08_sound root in
        (
          cc,
          record {
            certified = (check_dele_signature_iff verify key r.cert rfc_draft08).0 dele;
            in_span = record {
              not_before = span.0;
              not_after = span.1;
              uncertain = (radius_iff r.srep.radius).0 radi;
            };
            long_enough = long;
            included = included;
            signed =
                signature_sound verify r.header.offsets 2 3 60 rfc_draft08 r.signature
                  r.cert.delegation bytes sig;
          },
        )

    complete08 :
        (time ≡ r.srep.midpoint) × IsAuthenticDraft08 key request r bytes
        → validate_draft08 verify sha512 (record { pub_key = key }) request r bytes ≡ accepted time
    unfolding validate_draft08 check_srep_signature_draft08 signature_check
    complete08 (e, a) =
        then-accepted _ _ time
          ((check_dele_signature_iff verify key r.cert rfc_draft08).1 a.certified)
          (then-accepted _ _ time
            ((midpoint_iff r.srep.midpoint r.cert.delegation.min_time r.cert.delegation.max_time).1
              (a.in_span.not_before, a.in_span.not_after))
            (then-accepted _ _ time ((radius_iff r.srep.radius).1 a.in_span.uncertain) (
              then-accepted _ _ time (proof08_complete a.long_enough a.included) (
                then-accepted _ _ time
                  (signature_complete verify r.header.offsets 2 3 60 rfc_draft08 r.signature
                    r.cert.delegation bytes a.signed)
                  (ap (λ t. accepted t) (sym e))))))

    -- `validate_draft08` gives a time for a draft-08 response exactly if that time is its midpoint and all of this holds: the
    -- certificate has the long-term key's signature over the delegation, if the validator has a key; the midpoint lies
    -- between MINT and MAXT; the radius is not 0; the request is long enough to hold a nonce, and INDX and PATH lead from
    -- the hash of its nonce to ROOT; the delegated key's signature is good for the received bytes between the third and
    -- the fourth offset, which are in order and inside of those bytes.
    pub validate_draft08_iff :
        (validate_draft08 verify sha512 (record { pub_key = key }) request r bytes ≡ accepted time)
        ↔ ((time ≡ r.srep.midpoint) × IsAuthenticDraft08 key request r bytes)
    validate_draft08_iff = (sound08, complete08)
