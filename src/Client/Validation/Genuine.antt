-- ===== src/Client/Validation/Genuine.antt =====
-- validation.rs on responses that were written by `to_frame`.
use roughenough.Prelude.{
  ℕ, ◌+◌, ◌-◌, ◌≤◌, ◌≡◌, refl, ap, ◌∙◌, Bool, true, Option, List, ◌++◌, length, take, drop, arith,
  length-append, take-append, drop-append, append_assoc,
}
use roughenough.Prelude.Bytes.{to_le_bytes, to_be_bytes, length-to_le_bytes, length-to_be_bytes}
use roughenough.Protocol.Error.{ok}
use roughenough.Protocol.Cursor.{ParseCursor, new}
use roughenough.Protocol.Header.Spec.{encode, length-encode}
use roughenough.Protocol.Version.{is_supported, srep_prefix}
use roughenough.Protocol.Wire.{from_frame, frame_size, frame_magic}
use roughenough.Protocol.Wire.Frame.{frame_bytes, length-frame_bytes}
use roughenough.Protocol.Tags.{FixedTag}
use roughenough.Protocol.Tags.Wire.{type_bytes, length-type_bytes}
use roughenough.Protocol.Tags.Path.{MerklePath, elements, paths, path_wire_size}
use roughenough.Protocol.Tags.Path.RoundTrip.{reread, elements-reread, length-paths}
use roughenough.Protocol.Tags.Dele.Made.{certificate_bytes}
use roughenough.Protocol.Tags.Srep.{srep_wire_size}
use roughenough.Protocol.Tags.Srep.Made.{srep_bytes, length-made_bytes}
use roughenough.Protocol.Response.{Response, from_wire, wire_size}
use roughenough.Protocol.Response.Wire.{response_values, response_bytes, length-response_bytes}
use roughenough.Protocol.Response.RoundTrip.{
  IsMade, value_offsets, made-IsWellFormed, from_frame-response_bytes,
}
use roughenough.Merkle.{root_loop, root_from_paths, hash_leaf}
use roughenough.Client.Validation.{accepted, validate_draft14}
use roughenough.Client.Validation.Accepts.{Certifies, IsInSpan, SignedBetween}
use roughenough.Client.Validation.Exact.{validate_draft14_iff}

pub root_from_paths-reread :
    (sha512 : List ℕ → List ℕ) (i : ℕ) (leaf : List ℕ) (p q : MerklePath)
    → elements p ≡ elements q
    → root_from_paths sha512 i leaf p ≡ root_from_paths sha512 i leaf q
unfolding root_from_paths
root_from_paths-reread sha512 i leaf p q e = ap (root_loop sha512 i (hash_leaf sha512 leaf)) e

module _ (r : Response) (m : IsMade r) where
  unfoldable pub packet : List ℕ
  packet = frame_bytes (wire_size r) (response_bytes r)

  -- Everything before SREP, and everything behind it.
  before : List ℕ
  before =
      to_be_bytes 8 frame_magic
      ++ (to_le_bytes 4 (wire_size r)
          ++ (encode 7 r.header
              ++ (r.signature ++ (r.nonce ++ (type_bytes r.msg_type ++ paths r.path)))))

  behind : List ℕ
  behind = certificate_bytes r.cert ++ to_le_bytes 4 r.index

  split : packet ≡ before ++ (srep_bytes r.srep ++ behind)
  unfolding packet before behind frame_bytes response_bytes response_values
  split = simp append_assoc

  length-before : length before ≡ 68 + (100 + path_wire_size r.path)
  unfolding before
  length-before = omega (
    arith,
    length-append (to_be_bytes 8 frame_magic) (
        to_le_bytes 4 (wire_size r)
        ++ (encode 7 r.header
            ++ (r.signature ++ (r.nonce ++ (type_bytes r.msg_type ++ paths r.path))))),
    length-append (to_le_bytes 4 (wire_size r)) (
        encode 7 r.header ++ (r.signature ++ (r.nonce ++ (type_bytes r.msg_type ++ paths r.path)))),
    length-append (encode 7 r.header)
        (r.signature ++ (r.nonce ++ (type_bytes r.msg_type ++ paths r.path))),
    length-append r.signature (r.nonce ++ (type_bytes r.msg_type ++ paths r.path)),
    length-append r.nonce (type_bytes r.msg_type ++ paths r.path),
    length-append (type_bytes r.msg_type) (paths r.path),
    length-to_be_bytes 8 frame_magic,
    length-to_le_bytes 4 (wire_size r),
    length-encode 7 r.header (omega arith) (made-IsWellFormed r m).num_offsets
        (made-IsWellFormed r m).num_tags,
    m.values.signed,
    m.values.nonced,
    length-type_bytes r.msg_type,
    length-paths r.path m.values.path_valid,
  )

  -- SREP stands where the fourth and the fifth offset say.
  srep_slice :
      (start end : ℕ)
      → start ≡ 100 + path_wire_size r.path
      → end ≡ start + srep_wire_size r.srep
      → take (end - start) (drop (68 + start) packet) ≡ srep_bytes r.srep
  srep_slice start end at_start at_end =
      ap (λ xs. take (end - start) (drop (68 + start) xs)) split
      ∙ ap (take (end - start)) (
          drop-append (68 + start) before (srep_bytes r.srep ++ behind)
            (omega (arith, length-before)))
      ∙ take-append (end - start) (srep_bytes r.srep) behind
          (omega (arith, length-made_bytes r.srep m.values.srep_made))

  length-packet : length packet ≡ 12 + wire_size r
  unfolding packet frame_size
  length-packet = omega (
    arith,
    length-frame_bytes (wire_size r) (response_bytes r),
    length-response_bytes r (made-IsWellFormed r m) m.values,
  )

  fits : 68 + (100 + path_wire_size r.path + srep_wire_size r.srep) ≤ length packet
  unfolding wire_size
  fits = omega (arith, length-packet, m.values.signed, m.values.nonced)

  -- A draft-14 response whose values are good and whose signature is that of its own SREP is accepted, from the bytes that
  -- `to_frame` writes.
  pub validate-made :
      (verify : FixedTag → List ℕ → FixedTag → Bool) (sha512 : List ℕ → List ℕ)
      (key : Option FixedTag) (request : List ℕ)
      → Certifies verify key r.cert r.srep.version
      → is_supported r.srep.supported_versions r.srep.version ≡ true
      → IsInSpan r.srep.midpoint r.srep.radius r.cert.delegation
      → root_from_paths sha512 r.index request r.path ≡ r.srep.merkle_root
      → verify r.cert.delegation.public_key
          (srep_prefix r.srep.version ++ srep_bytes r.srep)
          r.signature
        ≡ true
      → (read : Response) × (c : ParseCursor) × (from_frame from_wire (new packet) ≡ ok (read, c))
        × (validate_draft14 verify sha512 (record { pub_key = key }) request read packet
            ≡ accepted r.srep.midpoint)
        × (read.nonce ≡ r.nonce)
  unfolding packet SignedBetween value_offsets wire_size
  validate-made verify sha512 key request certified listed span included good =
      let start : ℕ = 100 + path_wire_size r.path in
      let end : ℕ = 100 + path_wire_size r.path + srep_wire_size r.srep in
      (
        record r { path = reread r.path },
        _,
        from_frame-response_bytes r m,
        (validate_draft14_iff verify sha512 key request (record r { path = reread r.path }) packet
              r.srep.midpoint).1
            (
              refl,
              record {
                certified = certified;
                listed = listed;
                in_span = span;
                included =
                    root_from_paths-reread sha512 r.index request (reread r.path) r.path
                      (elements-reread r.path m.values.path_valid)
                    ∙ included;
                signed = (
                  start,
                  end,
                  rw m.measured,
                  rw m.measured,
                  record {
                    in_order = omega arith;
                    inside = fits;
                    verified =
                        ap
                          (λ xs.
                            verify r.cert.delegation.public_key (srep_prefix r.srep.version ++ xs)
                              r.signature)
                          (srep_slice start end refl refl)
                        ∙ good;
                  },
                );
              },
            ),
        refl,
      )
