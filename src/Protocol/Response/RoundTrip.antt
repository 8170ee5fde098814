-- ===== src/Protocol/Response/RoundTrip.antt =====
-- Draft-14 responses of response.rs through `as_frame_bytes` and back through `from_frame`.
use roughenough.Prelude.{
  ℕ, ◌+◌, ◌%◌, sym, subst, ◌^◌, ◌≤◌, ◌<◌, ◌≡◌, refl, ap, ◌∙◌, List, [], ◌∷◌, length, arith, ltb,
  le→not_ltb, length-append, append-nil,
}
use roughenough.Protocol.Error.{ok, buffer_too_small}
use roughenough.Protocol.Cursor.{Action, ◌>>=◌, gets, capacity, refuse_if, new}
use roughenough.Protocol.Cursor.Reads.{Parses}
use roughenough.Protocol.Cursor.Writes.{Writes, Writes-bind, Writes-put_u32_le}
use roughenough.Protocol.Header.Spec.{IsWellFormed, Ascending, Sorted}
use roughenough.Protocol.Header.Reads.{Within}
use roughenough.Protocol.Header.Writes.{to_wire-encode}
use roughenough.Protocol.Wire.{frame_size, as_frame_bytes, from_frame}
use roughenough.Protocol.Wire.Frame.{
  frame_bytes, length-frame_bytes, as_frame_bytes-Writes, from_frame-Parses, Parses-whole,
}
use roughenough.Protocol.Version.{versions_wire_size}
use roughenough.Protocol.Tags.Wire.{fixed_to_wire-Writes, type_to_wire-Writes}
use roughenough.Protocol.Tags.Path.{MerklePath, elements, path_wire_size}
use roughenough.Protocol.Tags.Path.RoundTrip.{reread, elements-reread, path_to_wire-Writes}
use roughenough.Protocol.Tags.Dele.Made.{certificate_bytes-Writes}
use roughenough.Protocol.Tags.Srep.{srep_wire_size}
use roughenough.Protocol.Tags.Srep.Made.{srep_bytes-Writes}
use roughenough.Protocol.Tag
use roughenough.Protocol.Response.{
  Response, response_tags, update_offsets, from_wire, to_wire, wire_size,
}
use roughenough.Protocol.Response.Wire.{
  HasValues, Announces, response_values, response_bytes, length-response_values,
  length-response_bytes, response-Parses,
}

-- The test for room with which `to_wire` begins looks at the whole buffer.
Writes-capacity :
    (n : ℕ) (f : Unit {0} → Action Unit) {xs : List ℕ}
    → n ≤ length xs
    → Writes (f tt) xs
    → Writes (gets capacity >>= λ cap. (refuse_if (ltb cap n) (buffer_too_small n cap) >>= f)) xs
unfolding ◌>>=◌ gets capacity
Writes-capacity n f fits p = record {
  at = λ c h. rw (le→not_ltb (length c.bytes) n (omega (arith, h.room))) (p.at c h);
}

pub response-Writes :
    (r : Response) → IsWellFormed 7 r.header → HasValues r → Writes (to_wire r) (response_bytes r)
unfolding to_wire response_bytes response_values
response-Writes r wf h =
    Writes-capacity (wire_size r) _
      (unfold response_bytes response_values in omega (arith, length-response_bytes r wf h))
      (Writes-bind _ (to_wire-encode 7 r.header (omega arith) wf.num_offsets wf.num_tags) (
        Writes-bind _ (fixed_to_wire-Writes r.signature) (
          Writes-bind _ (fixed_to_wire-Writes r.nonce) (
            Writes-bind _ (type_to_wire-Writes r.msg_type) (
              Writes-bind _ (path_to_wire-Writes r.path h.path_valid) (
                Writes-bind _ (srep_bytes-Writes r.srep h.srep_made) (
                  Writes-bind _ (certificate_bytes-Writes r.cert h.cert_made)
                    (Writes-put_u32_le r.index))))))))

pub response_tags-Sorted : Sorted Tag.invalid response_tags
unfolding Tag.lt
response_tags-Sorted = (
  refl,
  (λ e. cc),
  (
    refl,
    (λ e. cc),
    (
      refl,
      (λ e. cc),
      (refl, (λ e. cc), (refl, (λ e. cc), (refl, (λ e. cc), (refl, (λ e. cc), tt)))),
    ),
  ),
)

-- Sums of sizes that are multiples of four.
ascending :
    (p s : ℕ)
    → p % 4 ≡ 0
    → s % 4 ≡ 0
    → p + s < 2 ^ 31
    → Ascending 0 (64 ∷ 96 ∷ 100 ∷ (100 + p) ∷ (100 + p + s) ∷ (100 + p + s + 152) ∷ [])
ascending p s hp hs small = (
  omega arith,
  omega arith,
  omega arith,
  (
    omega arith,
    omega arith,
    omega arith,
    (
      omega arith,
      omega arith,
      omega arith,
      (
        omega arith,
        omega arith,
        omega arith,
        (omega arith, omega arith, omega arith, (omega arith, omega arith, omega arith, tt)),
      ),
    ),
  ),
)

ends_in_order :
    (p s size : ℕ)
    → 100 + p + s + 152 ≤ size
    → Within size (64 ∷ 96 ∷ 100 ∷ (100 + p) ∷ (100 + p + s) ∷ (100 + p + s + 152) ∷ [])
ends_in_order p s size h =
    (omega arith, (omega arith, (omega arith, (omega arith, (omega arith, (omega arith, tt))))))

unfoldable pub value_offsets : Response → List ℕ
unfolding path_wire_size srep_wire_size versions_wire_size
value_offsets r =
    let p : ℕ = path_wire_size r.path in
    let s : ℕ = srep_wire_size r.srep in
    64 ∷ 96 ∷ 100 ∷ (100 + p) ∷ (100 + p + s) ∷ (100 + p + s + 152) ∷ []

-- A response with its values, and offsets that are right for their sizes.
pub record IsMade (r : Response) : Type 0 where
  pub values : HasValues r
  pub tagged : r.header.tags ≡ response_tags
  pub measured : r.header.offsets ≡ value_offsets r

-- `update_offsets` makes the offsets right.
pub update_offsets-IsMade :
    (r : Response) → HasValues r → r.header.tags ≡ response_tags → IsMade (update_offsets r)
unfolding update_offsets value_offsets path_wire_size srep_wire_size versions_wire_size
update_offsets-IsMade r h tags = record {
  values = record {
    signed = h.signed;
    nonced = h.nonced;
    typed = h.typed;
    path_valid = h.path_valid;
    srep_made = h.srep_made;
    cert_made = h.cert_made;
    index_small = h.index_small;
  };
  tagged = tags;
  measured = rw (h.signed, h.nonced);
}

module _ (r : Response) (m : IsMade r) where
  few : path_wire_size r.path + srep_wire_size r.srep < 2 ^ 31
  unfolding path_wire_size srep_wire_size versions_wire_size
  few = omega (arith, m.values.path_valid.fits, m.values.srep_made.listed.fits)

  pub made-IsWellFormed : IsWellFormed 7 r.header
  unfolding value_offsets path_wire_size srep_wire_size versions_wire_size
  made-IsWellFormed = record {
    num_offsets = ap length m.measured;
    num_tags = ap length m.tagged;
    offsets_ascend =
        subst (Ascending 0) (sym m.measured) (
          ascending (path_wire_size r.path) (srep_wire_size r.srep) (omega arith) (omega arith)
            few);
    tags_ascend = subst (Sorted Tag.invalid) (sym m.tagged) response_tags-Sorted;
  }

  pub made-Announces : Announces (path_wire_size r.path) (length (response_values r)) r.header
  unfolding value_offsets path_wire_size srep_wire_size versions_wire_size wire_size
  made-Announces = record {
    well_formed = made-IsWellFormed;
    same = m.tagged;
    path_start = 100;
    at_start = rw m.measured;
    at_end = rw m.measured;
    within = subst (Within (length (response_values r))) (sym m.measured) (
        ends_in_order (path_wire_size r.path) (srep_wire_size r.srep) (length (response_values r))
          (omega (arith, m.values.signed, m.values.nonced, length-response_values r m.values)));
  }

  size_large : 100 ≤ wire_size r
  unfolding wire_size
  size_large = omega (arith, m.values.signed)

  pub size_small : wire_size r < 2 ^ 31
  unfolding path_wire_size srep_wire_size versions_wire_size wire_size
  size_small = omega (
    arith, m.values.signed, m.values.nonced, m.values.path_valid.fits,
    m.values.srep_made.listed.fits,
  )

  pub as_frame_bytes-response :
      as_frame_bytes (wire_size r) (to_wire r) ≡ ok (frame_bytes (wire_size r) (response_bytes r))
  as_frame_bytes-response =
      as_frame_bytes-Writes (wire_size r) (omega (arith, size_small))
        (response-Writes r made-IsWellFormed m.values)
        (length-response_bytes r made-IsWellFormed m.values)

  pub from_frame-response_bytes :
      from_frame from_wire (new (frame_bytes (wire_size r) (response_bytes r)))
      ≡ ok (
        record r { path = reread r.path },
        record {
          bytes = frame_bytes (wire_size r) (response_bytes r);
          position = frame_size (wire_size r);
        },
      )
  from_frame-response_bytes =
      let full : length (response_bytes r) ≡ wire_size r =
        length-response_bytes r made-IsWellFormed m.values in
      Parses-whole (frame_size (wire_size r)) (frame_bytes (wire_size r) (response_bytes r))
        (subst
          (λ n.
            Parses (from_frame from_wire) (frame_bytes n (response_bytes r))
              (record r { path = reread r.path }) [])
          (omega (arith, full))
          (from_frame-Parses (response_bytes r) [] (omega (arith, full, size_large))
            (omega (arith, full, size_small))
            (response-Parses r [] m.values
              (subst (λ xs. Announces (path_wire_size r.path) (length xs) r.header)
                (sym (append-nil (response_values r))) made-Announces)
              (omega (
                arith,
                length-append (response_values r) [],
                length-response_values r m.values,
                size_small,
              )))))
        (length-frame_bytes (wire_size r) (response_bytes r) ∙ ap frame_size full)

-- A draft-14 response with values of the right sizes, and the offsets that `update_offsets` sets, becomes a frame
-- of `frame_size` bytes, and `from_frame` reads the response back from that frame, and reads all of it. Only the
-- buffer of its path may differ: there zeros stand behind the elements, which are the same.
pub from_frame-as_frame_bytes_response :
    (r : Response)
    → IsMade r
    → (bytes : List ℕ) × (as_frame_bytes (wire_size r) (to_wire r) ≡ ok bytes)
      × (length bytes ≡ frame_size (wire_size r))
      × (path : MerklePath) × (from_frame from_wire (new bytes)
          ≡ ok (
            record r { path = path },
            record { bytes = bytes; position = frame_size (wire_size r) },
          ))
      × (elements path ≡ elements r.path)
from_frame-as_frame_bytes_response r m = (
  frame_bytes (wire_size r) (response_bytes r),
  as_frame_bytes-response r m,
  length-frame_bytes (wire_size r) (response_bytes r)
      ∙ ap frame_size (length-response_bytes r (made-IsWellFormed r m) m.values),
  reread r.path,
  from_frame-response_bytes r m,
  elements-reread r.path m.values.path_valid,
)
