-- ===== src/Protocol/Response/Wire.antt =====
-- Draft-14 responses on the wire: what response.rs reads before the bytes of a response.
use roughenough.Prelude.{
  ℕ, ◌+◌, ◌^◌, ◌<◌, ◌≡◌, ap, ◌∙◌, sym, subst, List, [], ◌++◌, length, arith, not, length-append,
}
use roughenough.Prelude.Bytes.{to_le_bytes, length-to_le_bytes}
use roughenough.Protocol.Error.{ok, index, invalid_message_type, unexpected_tags}
use roughenough.Protocol.Cursor.{lift}
use roughenough.Protocol.Cursor.Reads.{
  Parses, Parses-bind, Parses-then, Parses-map, Parses-lift, Parses-test, Parses-try_get_u32_le,
}
use roughenough.Protocol.Tag
use roughenough.Protocol.Header.{Header}
use roughenough.Protocol.Header.Spec.{IsWellFormed, encode, length-encode}
use roughenough.Protocol.Header.Reads.{Within, from_wire-encode, check_remaining-Parses}
use roughenough.Protocol.Version.{sub_assign}
use roughenough.Protocol.Version.Wire.{sub_assign-ok}
use roughenough.Protocol.Tags.{signature_size, nonce_size, response, type_value, type_eq}
use roughenough.Protocol.Tags.Wire.{
  type_bytes, length-type_bytes, type_from_wire-Parses, fixed_from_wire-Parses,
}
use roughenough.Protocol.Tags.Path.{paths, path_wire_size}
use roughenough.Protocol.Tags.Path.Elements
use roughenough.Protocol.Tags.Path.RoundTrip.{reread, length-paths, path_from_wire_n-Parses}
use roughenough.Protocol.Tags.Dele.{same_tags}
use roughenough.Protocol.Tags.Dele.Made
use roughenough.Protocol.Tags.Dele.Made.{
  certificate_bytes, certificate_bytes-Parses, length-certificate_bytes,
}
use roughenough.Protocol.Tags.Srep.Made as SrepMade
use roughenough.Protocol.Tags.Srep.Made.{srep_bytes, srep_bytes-Parses, length-made_bytes}
use roughenough.Protocol.Response.{Response, response_tags, from_wire, wire_size}

-- The values that a response holds. The header is not looked at.
pub record HasValues (r : Response) : Type 0 where
  pub signed : length r.signature ≡ signature_size
  pub nonced : length r.nonce ≡ nonce_size
  pub typed : r.msg_type ≡ response
  pub path_valid : Elements.IsValid r.path
  pub srep_made : SrepMade.IsMade r.srep
  pub cert_made : Made.IsMade r.cert
  pub index_small : r.index < 2 ^ 32

-- A header that lets the values be read: it tells the length of PATH, and its offsets lie within `size` bytes.
-- Nothing else ties the offsets to the values.
pub record Announces (path_size size : ℕ) (header : Header) : Type 0 where
  pub well_formed : IsWellFormed 7 header
  pub same : header.tags ≡ response_tags
  pub path_start : ℕ
  pub at_start : index header.offsets 2 ≡ ok path_start
  pub at_end : index header.offsets 3 ≡ ok (path_start + path_size)
  pub within : Within size header.offsets

-- The values between the header and INDX, and with INDX.
unfoldable pub response_values : Response → List ℕ
response_values r =
    r.signature
    ++ (r.nonce
        ++ (type_bytes r.msg_type
            ++ (paths r.path
                ++ (srep_bytes r.srep ++ (certificate_bytes r.cert ++ to_le_bytes 4 r.index)))))

unfoldable pub response_bytes : Response → List ℕ
response_bytes r = encode 7 r.header ++ response_values r

pub length-response_values :
    (r : Response) → HasValues r → length (response_values r) + 56 ≡ wire_size r
unfolding response_values wire_size
length-response_values r h = omega (
  arith,
  h.signed,
  h.nonced,
  length-append r.signature (
      r.nonce
      ++ (type_bytes r.msg_type
          ++ (paths r.path
              ++ (srep_bytes r.srep ++ (certificate_bytes r.cert ++ to_le_bytes 4 r.index))))),
  length-append r.nonce (
      type_bytes r.msg_type
      ++ (paths r.path
          ++ (srep_bytes r.srep ++ (certificate_bytes r.cert ++ to_le_bytes 4 r.index)))),
  length-append (type_bytes r.msg_type)
      (paths r.path ++ (srep_bytes r.srep ++ (certificate_bytes r.cert ++ to_le_bytes 4 r.index))),
  length-append (paths r.path)
      (srep_bytes r.srep ++ (certificate_bytes r.cert ++ to_le_bytes 4 r.index)),
  length-append (srep_bytes r.srep) (certificate_bytes r.cert ++ to_le_bytes 4 r.index),
  length-append (certificate_bytes r.cert) (to_le_bytes 4 r.index),
  length-type_bytes r.msg_type,
  length-paths r.path h.path_valid,
  length-made_bytes r.srep h.srep_made,
  length-certificate_bytes r.cert h.cert_made,
  length-to_le_bytes 4 r.index,
)

pub length-response_bytes :
    (r : Response) → IsWellFormed 7 r.header → HasValues r → length (response_bytes r) ≡ wire_size r
unfolding response_bytes
length-response_bytes r wf h = omega (
  arith,
  length-append (encode 7 r.header) (response_values r),
  length-encode 7 r.header (omega arith) wf.num_offsets wf.num_tags,
  length-response_values r h,
)

path_length :
    (r : Response) (start : ℕ) (rest : List ℕ)
    → Parses
        (lift (sub_assign (start + path_wire_size r.path) start))
        []
        (path_wire_size r.path)
        rest
path_length r start rest = Parses-lift _ (path_wire_size r.path) rest (
    sub_assign-ok (start + path_wire_size r.path) start (omega arith)
    ∙ ap (λ k. ok k) (omega arith))

behind :
    (r : Response) (rest : List ℕ)
    → HasValues r
    → length (response_values r ++ rest) < 2 ^ 31
    → length ((certificate_bytes r.cert ++ to_le_bytes 4 r.index) ++ rest) < 2 ^ 31
unfolding wire_size
behind r rest h few = omega (
  arith,
  few,
  length-response_values r h,
  length-append (response_values r) rest,
  length-append (certificate_bytes r.cert ++ to_le_bytes 4 r.index) rest,
  length-append (certificate_bytes r.cert) (to_le_bytes 4 r.index),
  length-certificate_bytes r.cert h.cert_made,
  length-to_le_bytes 4 r.index,
)

parse_response :
    (r : Response) (rest : List ℕ)
    → HasValues r
    → Announces (path_wire_size r.path) (length (response_values r ++ rest)) r.header
    → length (response_values r ++ rest) < 2 ^ 31
    → Parses from_wire
        (response_bytes r)
        (record r { msg_type = response; path = reread r.path })
        rest
unfolding from_wire response_bytes response_values same_tags type_eq type_value Tag.tag_value
parse_response r rest h a few =
    let typ : List ℕ = type_bytes r.msg_type in
    let pat : List ℕ = paths r.path in
    let sre : List ℕ = srep_bytes r.srep in
    let cer : List ℕ = certificate_bytes r.cert in
    let idx : List ℕ = to_le_bytes 4 r.index in
    let values : List ℕ = r.signature ++ (r.nonce ++ (typ ++ (pat ++ (sre ++ (cer ++ idx))))) in
    Parses-bind _ (encode 7 r.header) values rest
      (from_wire-encode 7 r.header (values ++ rest) (omega arith) (omega arith) a.well_formed)
      (Parses-then _ values rest
        (check_remaining-Parses r.header (values ++ rest) (omega (arith, few)) a.within)
        (Parses-test (not (same_tags r.header.tags response_tags)) unexpected_tags _ values rest
          (rw (a.same, same_tags))
          (Parses-bind _ r.signature (r.nonce ++ (typ ++ (pat ++ (sre ++ (cer ++ idx))))) rest
            (fixed_from_wire-Parses signature_size r.signature _ h.signed)
            (Parses-bind _ r.nonce (typ ++ (pat ++ (sre ++ (cer ++ idx)))) rest
              (fixed_from_wire-Parses nonce_size r.nonce _ h.nonced)
              (Parses-bind _ typ (pat ++ (sre ++ (cer ++ idx))) rest
                (type_from_wire-Parses r.msg_type _ (rw h.typed (λ e. cc)))
                (Parses-test (not (type_eq r.msg_type response))
                  (invalid_message_type (type_value r.msg_type)) _ (pat ++ (sre ++ (cer ++ idx)))
                  rest (rw (h.typed, type_eq))
                  (Parses-then _ (pat ++ (sre ++ (cer ++ idx))) rest
                    (Parses-lift (index r.header.offsets 3) (a.path_start + path_wire_size r.path) _
                      a.at_end)
                    (Parses-then _ (pat ++ (sre ++ (cer ++ idx))) rest
                      (Parses-lift (index r.header.offsets 2) a.path_start _ a.at_start)
                      (Parses-then _ (pat ++ (sre ++ (cer ++ idx))) rest
                        (path_length r a.path_start _)
                        (Parses-bind _ pat (sre ++ (cer ++ idx)) rest
                          (path_from_wire_n-Parses r.path ((sre ++ (cer ++ idx)) ++ rest)
                            h.path_valid)
                          (Parses-bind _ sre (cer ++ idx) rest
                            (srep_bytes-Parses r.srep h.srep_made ((cer ++ idx) ++ rest)
                              (behind r rest h few))
                            (Parses-bind _ cer idx rest
                              (certificate_bytes-Parses r.cert h.cert_made (idx ++ rest))
                              (Parses-map _ idx rest
                                (Parses-try_get_u32_le r.index rest h.index_small))))))))))))))

-- Before the bytes of a response `from_wire` gives that response, whatever its offsets are as long as the header
-- announces its path: a path is read with zeros behind its elements.
pub response-Parses :
    (r : Response) (rest : List ℕ)
    → HasValues r
    → Announces (path_wire_size r.path) (length (response_values r ++ rest)) r.header
    → length (response_values r ++ rest) < 2 ^ 31
    → Parses from_wire (response_bytes r) (record r { path = reread r.path }) rest
response-Parses r rest h a few =
    subst
      (λ t.
        Parses from_wire (response_bytes r) (record r { msg_type = t; path = reread r.path }) rest)
      (sym h.typed) (parse_response r rest h a few)
