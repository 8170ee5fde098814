-- ===== src/Protocol/Request/Reads.antt =====
-- What `from_wire` of request.rs gives before the bytes of a request.
use roughenough.Prelude.{
  ℕ, ◌^◌, ◌<◌, ◌≡◌, refl, ap, ◌∙◌, true, false, List, [], ◌∷◌, ◌++◌, length, replicate, arith, not,
  eq→==,
}
use roughenough.Protocol.Error.{index, invalid_message_type, unexpected_tags}
use roughenough.Protocol.Cursor.{Action, ◌>>=◌, ◌>>◌, pure, lift, refuse_if}
use roughenough.Protocol.Tag
use roughenough.Protocol.Tag.{Tag}
use roughenough.Protocol.Header
use roughenough.Protocol.Header.{Header, check_remaining}
use roughenough.Protocol.Header.Spec.{encode}
use roughenough.Protocol.Version.{VersionList, versions_wire_size, versions_from_wire_n}
use roughenough.Protocol.Version.Wire.{IsVersionList, versions_bytes, versions_from_wire_n-Parses}
use roughenough.Protocol.Tags.{
  FixedTag, fixed_from_wire, type_from_wire, nonce_size, srv_size, MessageType, request, type_value,
  type_eq,
}
use roughenough.Protocol.Tags.Wire.{type_bytes, type_from_wire-Parses, fixed_from_wire-Parses}
use roughenough.Protocol.Tags.Dele.{same_tags}
use roughenough.Protocol.Request.Draft08.{
  RequestDraft08, default_draft08, draft08_tags, draft08_from_wire, draft08_padding,
}
use roughenough.Protocol.Request.Draft14.{
  RequestDraft14, default_draft14, draft14_tags, draft14_from_wire, draft14_padding,
}
use roughenough.Protocol.Request.Draft14Srv.{
  RequestDraft14Srv, default_draft14_srv, draft14_srv_tags, draft14_srv_from_wire,
  draft14_srv_padding,
}
use roughenough.Protocol.Request.Spec.{
  Announces, IsDraft08, IsDraft14, IsDraft14Srv, draft08_values, draft14_values, draft14_srv_values,
  draft08_bytes, draft14_bytes, draft14_srv_bytes,
}
use roughenough.Protocol.Cursor.Reads.{
  Parses, Parses-pure, Parses-bind, Parses-then, Parses-last, Parses-test, Parses-map, Parses-lift,
}
use roughenough.Protocol.Header.Reads.{from_wire-encode, check_remaining-Parses}

same_tags_refl : (tags : List Tag) → same_tags tags tags ≡ true
unfolding same_tags
same_tags_refl [] = refl
same_tags_refl (t ∷ ts) =
    rw (eq→== (Tag.tag_value t) (Tag.tag_value t) refl, same_tags) (same_tags_refl ts)

-- The steps that the three forms share: the header, its tests, the version list.
announced :
    {A : Type 0} (n : ℕ) (tags : List Tag) (header : Header) (vs : VersionList) (body rest : List ℕ)
    (f : Header → VersionList → Action A) {a : A}
    → 0 < n
    → n < 2 ^ 32
    → length ((versions_bytes vs ++ body) ++ rest) < 2 ^ 32
    → Announces n tags vs (length ((versions_bytes vs ++ body) ++ rest)) header
    → IsVersionList vs
    → Parses (f header vs) body a rest
    → Parses
        (do
          h ← Header.from_wire n
          check_remaining h
          refuse_if (not (same_tags h.tags tags)) unexpected_tags
          ver_len ← lift (index h.offsets 0)
          version ← versions_from_wire_n ver_len
          f h version)
        (encode n header ++ (versions_bytes vs ++ body))
        a
        rest
announced n tags header vs body rest f pos many small h v p =
    let values : List ℕ = versions_bytes vs ++ body in
    Parses-bind _ (encode n header) values rest
      (from_wire-encode n header (values ++ rest) pos many h.well_formed)
      (Parses-then _ values rest (check_remaining-Parses header (values ++ rest) small h.within) (
        Parses-test (not (same_tags header.tags tags)) unexpected_tags _ values rest
          (ap (λ ts. not (same_tags ts tags)) h.same ∙ ap not (same_tags_refl tags))
          (Parses-then _ values rest
            (Parses-lift (index header.offsets 0) (versions_wire_size vs) (values ++ rest) h.first)
            (Parses-bind _ (versions_bytes vs) body rest
              (versions_from_wire_n-Parses vs (body ++ rest) v) p))))

-- A nonce and the message type, with the test that it is a request.
nonce_and_type :
    {A : Type 0} (nonce : FixedTag) (t : MessageType) (rest : List ℕ)
    (g : FixedTag → MessageType → A)
    → length nonce ≡ nonce_size
    → t ≡ request
    → Parses
        (do
          nonce ← fixed_from_wire nonce_size
          t ← type_from_wire
          refuse_if (not (type_eq t request)) (invalid_message_type (type_value t))
          pure (g nonce t))
        (nonce ++ type_bytes t)
        (g nonce t)
        rest
unfolding type_eq type_value
nonce_and_type nonce t rest g fits is = rw is (
    Parses-bind _ nonce (type_bytes request) rest
      (fixed_from_wire-Parses nonce_size nonce (type_bytes request ++ rest) fits)
      (Parses-last _ (type_bytes request) rest (type_from_wire-Parses request rest (λ e. cc)) (
        Parses-test false (invalid_message_type 0) _ [] rest refl
          (Parses-pure (g nonce request) rest))))

-- What is read back of a request has the padding that a new one has.
pub draft08_from_wire-Parses :
    (req : RequestDraft08)
    → length (draft08_values req ++ req.padding) < 2 ^ 32
    → IsDraft08 req
    → Parses draft08_from_wire
        (draft08_bytes req)
        (record req { padding = replicate draft08_padding 0 })
        req.padding
unfolding draft08_from_wire draft08_bytes draft08_values default_draft08
draft08_from_wire-Parses req small h =
    announced 3 draft08_tags req.header req.version req.nonce req.padding _ (omega arith)
      (omega arith) small h.announced h.versions
      (Parses-map _ req.nonce req.padding
        (fixed_from_wire-Parses nonce_size req.nonce req.padding h.nonce_fits))

pub draft14_from_wire-Parses :
    (req : RequestDraft14)
    → length (draft14_values req ++ req.padding) < 2 ^ 32
    → IsDraft14 req
    → Parses draft14_from_wire
        (draft14_bytes req)
        (record req { padding = replicate draft14_padding 0 })
        req.padding
unfolding draft14_from_wire draft14_bytes draft14_values default_draft14
draft14_from_wire-Parses req small h =
    announced 4 draft14_tags req.header req.version (req.nonce ++ type_bytes req.msg_type)
      req.padding _ (omega arith) (omega arith) small h.announced h.versions
      (nonce_and_type req.nonce req.msg_type req.padding _ h.nonce_fits h.typed)

pub draft14_srv_from_wire-Parses :
    (req : RequestDraft14Srv)
    → length (draft14_srv_values req ++ req.padding) < 2 ^ 32
    → IsDraft14Srv req
    → Parses draft14_srv_from_wire
        (draft14_srv_bytes req)
        (record req { padding = replicate draft14_srv_padding 0 })
        req.padding
unfolding draft14_srv_from_wire draft14_srv_bytes draft14_srv_values default_draft14_srv
draft14_srv_from_wire-Parses req small h =
    announced 5 draft14_srv_tags req.header req.version
      (req.server ++ (req.nonce ++ type_bytes req.msg_type)) req.padding _ (omega arith)
      (omega arith) small h.announced h.versions
      (Parses-bind _ req.server (req.nonce ++ type_bytes req.msg_type) req.padding
        (fixed_from_wire-Parses srv_size req.server
          ((req.nonce ++ type_bytes req.msg_type) ++ req.padding) h.server_fits)
        (nonce_and_type req.nonce req.msg_type req.padding _ h.nonce_fits h.typed))
