-- ===== src/Client/Validation/Forgery.antt =====
-- A response of validation.rs whose checked signature is not that of the values that it carries.
use roughenough.Prelude.{
  ℕ, ◌+◌, ◌-◌, ◌%◌, ◌^◌, ◌≤◌, ◌<◌, ◌≡◌, refl, ap, ◌∙◌, Bool, true, Option, List, [], ◌∷◌, ◌++◌,
  length, take, drop, arith, length-append, drop-append, take_all,
}
use roughenough.Protocol.Error.{ok}
use roughenough.Protocol.Cursor.{ParseCursor, new}
use roughenough.Protocol.Header.Spec.{encode}
use roughenough.Protocol.Version.{
  ProtocolVersion, rfc_draft08, rfc_draft14, is_supported, version_eq, version_value,
  versions_wire_size, is_below, srep_prefix,
}
use roughenough.Protocol.Wire.{from_frame, frame_size}
use roughenough.Protocol.Wire.Frame.{frame_bytes, length-frame_bytes, from_frame-Parses, Parses-new}
use roughenough.Protocol.Tags.{FixedTag, response, signature_size, nonce_size, root_size}
use roughenough.Protocol.Tags.Path.{new_path, path_wire_size}
use roughenough.Protocol.Tags.Path.Elements.{new_path-IsValid, elements-new_path}
use roughenough.Protocol.Tags.Dele.{Certificate}
use roughenough.Protocol.Tags.Dele.Made
use roughenough.Protocol.Tags.Srep.{SignedResponse, srep_tags, srep_wire_size}
use roughenough.Protocol.Response.{Response, response_tags, from_wire, wire_size}
use roughenough.Protocol.Response.Wire.{
  HasValues, Announces, response_values, response_bytes, length-response_values, response-Parses,
}
use roughenough.Protocol.Response.RoundTrip.{response_tags-Sorted}
use roughenough.Protocol.Header.Spec.{length-encode}
use roughenough.Protocol.Tags.Path.RoundTrip.{reread, elements-reread}
use roughenough.Merkle.{hash_leaf, root_loop, root_from_paths}
use roughenough.Merkle.Inclusion.{wide_leaf}
use roughenough.Client.Validation.{accepted, validate_draft14}
use roughenough.Client.Validation.Accepts.{Certifies, SignedBetween}
use roughenough.Client.Validation.Exact.{validate_draft14_iff}

-- An SREP that anybody can make.
unfoldable made_srep : ProtocolVersion → ℕ → FixedTag → SignedResponse
made_srep version time root = record {
  header = record { offsets = 4 ∷ 8 ∷ 16 ∷ 20 ∷ []; tags = srep_tags };
  version = version;
  radius = 5;
  midpoint = time;
  supported_versions = version ∷ [];
  merkle_root = root;
}

-- The response that carries it, with offsets that give SREP a place behind INDX.
unfoldable forged :
    ProtocolVersion → ℕ → FixedTag → FixedTag → FixedTag → Certificate → ℕ → Response
unfolding made_srep
forged version time root nonce sig cert len = record {
  header = record {
    offsets = 64 ∷ 96 ∷ 348 ∷ 348 ∷ (348 + len) ∷ (348 + len) ∷ [];
    tags = response_tags;
  };
  signature = sig;
  nonce = nonce;
  msg_type = response;
  path = new_path;
  srep = made_srep version time root;
  cert = cert;
  index = 0;
}

alone_supported : (version : ProtocolVersion) → is_supported (version ∷ []) version ≡ true
unfolding is_supported version_eq version_value
alone_supported rfc_draft08 = refl
alone_supported rfc_draft14 = refl

empty_path :
    (sha512 : List ℕ → List ℕ) (request : List ℕ)
    → root_from_paths sha512 0 request (reread new_path) ≡ hash_leaf sha512 request
unfolding root_from_paths root_loop
empty_path sha512 request =
    ap (root_loop sha512 0 (hash_leaf sha512 request))
      (elements-reread new_path new_path-IsValid ∙ elements-new_path)

module _ (version : ProtocolVersion) (time : ℕ) (root nonce sig : FixedTag) (cert : Certificate)
    (g : List ℕ) (time_small : time < 2 ^ 64) (rooted : length root ≡ root_size)
    (nonced : length nonce ≡ nonce_size) (sig_size : length sig ≡ signature_size)
    (made : Made.IsMade cert) where
  it : Response
  it = forged version time root nonce sig cert (length g)

  it-HasValues : HasValues it
  unfolding it forged made_srep is_below
  it-HasValues = record {
    signed = sig_size;
    nonced = nonced;
    typed = refl;
    path_valid = new_path-IsValid;
    srep_made = record {
      headed = refl;
      radius_small = omega arith;
      midpoint_small = time_small;
      some_versions = omega arith;
      listed = record { fits = omega arith; ordered = (refl, tt) };
      rooted = rooted;
    };
    cert_made = made;
    index_small = omega arith;
  }

  length-it : length (response_values it) ≡ 348
  unfolding it forged made_srep wire_size srep_wire_size versions_wire_size path_wire_size new_path
  length-it = omega (arith, length-response_values it it-HasValues, sig_size, nonced)

  it-Announces :
      length g % 4 ≡ 0
      → length g < 2 ^ 30
      → Announces (path_wire_size it.path) (length (response_values it ++ g)) it.header
  unfolding it forged path_wire_size new_path
  it-Announces whole small =
      let size : length (response_values it ++ g) ≡ 348 + length g =
        omega (arith, length-it, length-append (response_values it) g) in
      record {
        well_formed = record {
          num_offsets = refl;
          num_tags = refl;
          offsets_ascend = (
            omega arith,
            omega arith,
            omega arith,
            (
              omega arith,
              omega arith,
              omega arith,
              (
                omega arith,
                omega arith,
                omega arith,
                (
                  omega arith,
                  omega arith,
                  omega arith,
                  (
                    omega arith,
                    omega arith,
                    omega arith,
                    (omega arith, omega arith, omega arith, tt),
                  ),
                ),
              ),
            ),
          );
          tags_ascend = response_tags-Sorted;
        };
        same = refl;
        path_start = 348;
        at_start = refl;
        at_end = refl;
        within = (
          omega arith,
          (omega arith, (omega arith, (omega arith, (omega arith, (omega arith, tt))))),
        );
      }

  length-encoded : length (response_bytes it) ≡ 404
  unfolding response_bytes it forged
  length-encoded = omega (
    arith,
    length-append (encode 7 it.header) (response_values it),
    length-encode 7 it.header (omega arith) refl refl,
    length-it,
  )

  packet : List ℕ
  packet = frame_bytes (length (response_bytes it) + length g) (response_bytes it) ++ g

  length-front :
      length (frame_bytes (length (response_bytes it) + length g) (response_bytes it)) ≡ 68 + 348
  unfolding frame_size
  length-front = omega (
    arith,
    length-frame_bytes (length (response_bytes it) + length g) (response_bytes it),
    length-encoded,
  )

  -- Behind the two headers and the values stands what was appended.
  appended : take (348 + length g - 348) (drop (68 + 348) packet) ≡ g
  unfolding packet
  appended =
      ap (take (348 + length g - 348)) (
        drop-append (68 + 348)
          (frame_bytes (length (response_bytes it) + length g) (response_bytes it)) g length-front)
      ∙ take_all (348 + length g - 348) g (omega arith)

  length-packet : length packet ≡ 68 + 348 + length g
  unfolding packet
  length-packet = omega (
    arith,
    length-front,
    length-append (frame_bytes (length (response_bytes it) + length g) (response_bytes it)) g,
  )

  parsed :
      length g % 4 ≡ 0
      → length g < 2 ^ 30
      → (c : ParseCursor) × (from_frame from_wire (new packet)
          ≡ ok (record it { path = reread it.path }, c))
  unfolding packet
  parsed whole small = (
    _,
    Parses-new (frame_bytes (length (response_bytes it) + length g) (response_bytes it)) g (
        from_frame-Parses (response_bytes it) g (omega (arith, length-encoded))
          (omega (arith, length-encoded))
          (response-Parses it g it-HasValues (it-Announces whole small)
            (omega (arith, length-it, length-append (response_values it) g)))),
  )

module _ (verify : FixedTag → List ℕ → FixedTag → Bool) (sha512 : List ℕ → List ℕ)
    (digest_len : (m : List ℕ) → length (sha512 m) ≡ 64) where
  -- The signature that `validate_draft14` checks need not be that of the SREP that it reports: from a signature of the
  -- delegated key over any bytes `g` (such as a genuine SREP, sent in answer to someone else), and a certificate that the
  -- validator's key signed, anyone can make, for any request and any time in the span of the delegation, a datagram that
  -- `from_frame` parses as a response that `validate_draft14` accepts for that request and with that time. The length of `g` is a
  -- multiple of four and less than 2 ^ 30. (The offsets of the header lead to `g`, which stands behind INDX.)
  pub validate_draft14-forged :
      (key : Option FixedTag) (version : ProtocolVersion) (cert : Certificate)
      (sig nonce g request : List ℕ) (time : ℕ)
      → Made.IsMade cert
      → Certifies verify key cert version
      → length sig ≡ signature_size
      → length nonce ≡ nonce_size
      → length g % 4 ≡ 0
      → length g < 2 ^ 30
      → verify cert.delegation.public_key (srep_prefix version ++ g) sig ≡ true
      → time < 2 ^ 64
      → cert.delegation.min_time ≤ time
      → time ≤ cert.delegation.max_time
      → (bytes : List ℕ) × (r : Response) × (c : ParseCursor) × (from_frame from_wire (new bytes)
          ≡ ok (r, c))
        × (validate_draft14 verify sha512 (record { pub_key = key }) request r bytes
            ≡ accepted time)
  unfolding it forged made_srep SignedBetween
  validate_draft14-forged key version cert sig nonce g request time made certified sig_size nonced
        whole small good time_small before after =
      let root : FixedTag = hash_leaf sha512 request in
      let rooted : length root ≡ root_size = wide_leaf sha512 digest_len request in
      let r : Response =
        it version time root nonce sig cert g time_small rooted nonced sig_size made in
      let (c, run) =
        parsed version time root nonce sig cert g time_small rooted nonced sig_size made whole
          small in
      (
        packet version time root nonce sig cert g time_small rooted nonced sig_size made,
        record r { path = reread r.path },
        c,
        run,
        (validate_draft14_iff verify sha512 key request (record r { path = reread r.path })
              (packet version time root nonce sig cert g time_small rooted nonced sig_size made)
              time).1
            (
              refl,
              record {
                certified = certified;
                listed = alone_supported version;
                in_span = record { not_before = before; not_after = after; uncertain = λ e. cc };
                included = empty_path sha512 request;
                signed = (
                  348,
                  348 + length g,
                  refl,
                  refl,
                  record {
                    in_order = omega arith;
                    inside = omega (
                      arith,
                      length-packet version time root nonce sig cert g time_small rooted nonced
                          sig_size made,
                    );
                    verified =
                        ap (λ xs. verify cert.delegation.public_key (srep_prefix version ++ xs) sig)
                          (appended version time root nonce sig cert g time_small rooted nonced
                            sig_size made)
                        ∙ good;
                  },
                );
              },
            ),
      )
