-- ===== src/Protocol/Request/RoundTrip.antt =====
-- Requests through `as_frame_bytes` and back through `from_frame`.
use roughenough.Prelude.{
  ℕ, ◌+◌, ◌^◌, ◌<◌, ◌≡◌, refl, ap, sym, ◌∙◌, subst, List, [], ◌++◌, length, replicate, arith, ◌==◌,
  not, eq→==, append_assoc, length-append,
}
use roughenough.Protocol.Error.{ok, bad_request_size}
use roughenough.Protocol.Cursor.{Action, ◌>>=◌, pure, gets, update, set_position, skip}
use roughenough.Protocol.Header.{Header}
use roughenough.Protocol.Header.Spec.{encode}
use roughenough.Protocol.Request.Draft08.{draft08_wire_size, draft08_from_wire, draft08_padding}
use roughenough.Protocol.Request.Draft14.{draft14_wire_size, draft14_from_wire, draft14_padding}
use roughenough.Protocol.Request.Draft14Srv.{
  draft14_srv_wire_size, draft14_srv_from_wire, draft14_srv_padding,
}
use roughenough.Protocol.Request.{
  Request, draft08, draft14, draft14_srv, wire_size, to_wire, from_wire, peek_num_tags,
  from_num_tags,
}
use roughenough.Protocol.Request.Spec.{
  IsDraft08, IsDraft14, IsDraft14Srv, draft08_values, draft14_values, draft14_srv_values,
  draft08_bytes, draft14_bytes, draft14_srv_bytes, length-draft08, length-draft14,
  length-draft14_srv,
}
use roughenough.Protocol.Cursor.{new}
use roughenough.Prelude.Bytes.{to_le_bytes}
use roughenough.Protocol.Header.Spec.{offset_bytes, tag_bytes}
use roughenough.Protocol.Cursor.Reads.{
  Holds, Parses, Parses-remaining, Parses-test, Parses-then, Parses-map, Parses-try_get_u32_le,
}
use roughenough.Protocol.Cursor.Writes.{Writes}
use roughenough.Protocol.Wire.{frame_size, as_frame_bytes, from_frame}
use roughenough.Protocol.Wire.Frame.{
  frame_bytes, length-frame_bytes, as_frame_bytes-Writes, from_frame-Parses, Parses-new,
}
use roughenough.Protocol.Request.{request_size}
use roughenough.Protocol.Request.Reads.{
  draft08_from_wire-Parses, draft14_from_wire-Parses, draft14_srv_from_wire-Parses,
}
use roughenough.Protocol.Request.Writes.{
  draft08_to_wire-Writes, draft14_to_wire-Writes, draft14_srv_to_wire-Writes,
}

-- A request of the right size, padded with zeros.
abbrev pub IsRequest : Request → Type 0
IsRequest (draft08 req) =
    IsDraft08 req × (req.padding ≡ replicate draft08_padding 0) × (draft08_wire_size req ≡ 1012)
IsRequest (draft14 req) =
    IsDraft14 req × (req.padding ≡ replicate draft14_padding 0) × (draft14_wire_size req ≡ 1012)
IsRequest (draft14_srv req) =
    IsDraft14Srv req
    × (req.padding ≡ replicate draft14_srv_padding 0)
    × (draft14_srv_wire_size req ≡ 1012)

-- The bytes of a request up to its padding, and the padding.
unfoldable pub message : Request → List ℕ
message (draft08 req) = draft08_bytes req
message (draft14 req) = draft14_bytes req
message (draft14_srv req) = draft14_srv_bytes req

unfoldable pub padding : Request → List ℕ
padding (draft08 req) = req.padding
padding (draft14 req) = req.padding
padding (draft14_srv req) = req.padding

-- The number of tags stands first, and the cursor is set back behind it.
peek_num_tags-Parses :
    (n : ℕ) (xs rest : List ℕ)
    → n < 2 ^ 32
    → Parses peek_num_tags [] n ((to_le_bytes 4 n ++ xs) ++ rest)
unfolding peek_num_tags ◌>>=◌ gets update set_position skip
peek_num_tags-Parses n xs rest small = record {
  at = λ c h.
      let h' : Holds c (to_le_bytes 4 n ++ (xs ++ rest)) =
        rw (append_assoc (to_le_bytes 4 n) xs rest) at h in
      rw ((Parses-try_get_u32_le n (xs ++ rest) small).at c h', ◌>>=◌)
        (ap (λ p. ok (n, record { bytes = c.bytes; position = p })) (omega arith));
}

-- Where the form is known, `from_wire` is that form's.
from_wire-form :
    {A : Type 0} (n : ℕ) (f : A → Request) {m : Action A} (header : Header) (values rest : List ℕ)
    {a : A}
    → n < 2 ^ 32
    → length ((encode n header ++ values) ++ rest) ≡ 1012
    → from_num_tags n ≡ (do a ← m; pure (f a))
    → Parses m (encode n header ++ values) a rest
    → Parses from_wire (encode n header ++ values) (f a) rest
unfolding from_wire encode
from_wire-form n f {m} header values rest {a} small size form p =
    let xs : List ℕ = encode n header ++ values in
    let left : length xs + length rest ≡ 1012 = omega (arith, size, length-append xs rest) in
    Parses-remaining _ xs rest (
      Parses-test (not (length xs + length rest == 1012))
        (bad_request_size (length xs + length rest)) _ xs rest
        (ap not (eq→== (length xs + length rest) 1012 left))
        (Parses-then _ xs rest
          (subst (λ ys. Parses peek_num_tags [] n (ys ++ rest))
            (sym (
              append_assoc (to_le_bytes 4 n) (offset_bytes header.offsets ++ tag_bytes header.tags)
                values))
            (peek_num_tags-Parses n (offset_bytes header.offsets ++ tag_bytes header.tags ++ values)
              rest small))
          (subst (λ k. Parses k xs (f a) rest) (sym form) (Parses-map f xs rest p))))

padded :
    (n : ℕ) (h : Header) (values rest : List ℕ)
    → length ((encode n h ++ values) ++ rest) ≡ 1012
    → length (values ++ rest) < 2 ^ 32
padded n h values rest e = omega (
  arith,
  e,
  length-append (encode n h ++ values) rest,
  length-append (encode n h) values,
  length-append values rest,
)

pub message-Parses :
    (req : Request) → IsRequest req → Parses from_wire (message req) req (padding req)
unfolding message padding draft08_bytes draft14_bytes draft14_srv_bytes from_num_tags
message-Parses (draft08 req) (h, zeros, size) =
    let whole : length ((encode 3 req.header ++ draft08_values req) ++ req.padding) ≡ 1012 =
      unfold draft08_bytes in (length-draft08 req h ∙ size) in
    from_wire-form 3 draft08 req.header (draft08_values req) req.padding (omega arith) whole refl (
      subst
        (λ p. Parses draft08_from_wire (draft08_bytes req) (record req { padding = p }) req.padding)
        (sym zeros)
        (draft08_from_wire-Parses req (padded 3 req.header (draft08_values req) req.padding whole)
          h))
message-Parses (draft14 req) (h, zeros, size) =
    let whole : length ((encode 4 req.header ++ draft14_values req) ++ req.padding) ≡ 1012 =
      unfold draft14_bytes in (length-draft14 req h ∙ size) in
    from_wire-form 4 draft14 req.header (draft14_values req) req.padding (omega arith) whole refl (
      subst
        (λ p. Parses draft14_from_wire (draft14_bytes req) (record req { padding = p }) req.padding)
        (sym zeros)
        (draft14_from_wire-Parses req (padded 4 req.header (draft14_values req) req.padding whole)
          h))
message-Parses (draft14_srv req) (h, zeros, size) =
    let whole : length ((encode 5 req.header ++ draft14_srv_values req) ++ req.padding) ≡ 1012 =
      unfold draft14_srv_bytes in (length-draft14_srv req h ∙ size) in
    from_wire-form 5 draft14_srv req.header (draft14_srv_values req) req.padding (omega arith) whole
      refl
      (subst
        (λ p.
          Parses draft14_srv_from_wire (draft14_srv_bytes req) (record req { padding = p })
            req.padding)
        (sym zeros)
        (draft14_srv_from_wire-Parses req
          (padded 5 req.header (draft14_srv_values req) req.padding whole) h))

pub message-Writes :
    (req : Request) → IsRequest req → Writes (to_wire req) (message req ++ padding req)
unfolding message padding to_wire
message-Writes (draft08 req) h = draft08_to_wire-Writes req h.0
message-Writes (draft14 req) h = draft14_to_wire-Writes req h.0
message-Writes (draft14_srv req) h = draft14_srv_to_wire-Writes req h.0

pub length-message : (req : Request) → IsRequest req → length (message req ++ padding req) ≡ 1012
unfolding message padding
length-message (draft08 req) (h, _, size) = length-draft08 req h ∙ size
length-message (draft14 req) (h, _, size) = length-draft14 req h ∙ size
length-message (draft14_srv req) (h, _, size) = length-draft14_srv req h ∙ size

wire_size_lem : (req : Request) → IsRequest req → wire_size req ≡ 1012
unfolding wire_size
wire_size_lem (draft08 req) (_, _, size) = size
wire_size_lem (draft14 req) (_, _, size) = size
wire_size_lem (draft14_srv req) (_, _, size) = size

-- Writing a request to a new frame gives `request_size` bytes, and reading them gives the request
-- back, for every request of that size that is padded with zeros.
pub from_frame-as_frame_bytes :
    (req : Request)
    → IsRequest req
    → (bytes : List ℕ) × (as_frame_bytes (wire_size req) (to_wire req) ≡ ok bytes)
      × (length bytes ≡ request_size)
      × (end : ℕ) × (from_frame from_wire (new bytes)
          ≡ ok (req, record { bytes = bytes; position = end }))
unfolding frame_size
from_frame-as_frame_bytes req h =
    let size : length (message req ++ padding req) ≡ 1012 = length-message req h in
    let parts : length (message req) + length (padding req) ≡ 1012 =
      omega (arith, size, length-append (message req) (padding req)) in
    let framed : frame_bytes 1012 (message req ++ padding req)
        ≡ frame_bytes 1012 (message req) ++ padding req =
      unfold frame_bytes in simp append_assoc in
    let reads : Parses (from_frame from_wire) (frame_bytes 1012 (message req)) req (padding req) =
      subst (λ n. Parses (from_frame from_wire) (frame_bytes n (message req)) req (padding req))
        parts
        (from_frame-Parses (message req) (padding req) (omega arith) (omega arith)
          (message-Parses req h)) in
    (
      frame_bytes 1012 (message req) ++ padding req,
      rw (wire_size_lem req h) (
          as_frame_bytes-Writes 1012 (omega arith) (message-Writes req h) size
          ∙ ap (λ bs. ok bs) framed),
      (sym (ap length framed)
          ∙ length-frame_bytes 1012 (message req ++ padding req)
          ∙ rw (size, frame_size)),
      length (frame_bytes 1012 (message req)),
      Parses-new (frame_bytes 1012 (message req)) (padding req) reads,
    )
