-- ===== src/Protocol/Response/Total.antt =====
-- `from_wire` and `from_frame` of response.rs on any bytes.
use roughenough.Prelude.{ℕ, ◌≡◌, refl, List, arith, not, All}
use roughenough.Prelude.Bytes.{IsByte}
use roughenough.Protocol.Error.{index, invalid_message_type, unexpected_tags}
use roughenough.Protocol.Cursor.{new}
use roughenough.Protocol.Cursor.Total.{
  Total, IsBytes, IsU32, Outcome, new-IsValid, Total-pure, Total-bind, Total-refuse_if,
  Total-try_get_u32_le, Total-lift_ok,
}
use roughenough.Protocol.Header.Total.{
  from_wire-Total, check_remaining-Total, Neighbours, neighbours,
}
use roughenough.Protocol.Header.Spec.{IsWellFormed}
use roughenough.Protocol.Version.Wire.{version_from_wire-Total, sub_assign-Total}
use roughenough.Protocol.Wire.{from_frame}
use roughenough.Protocol.Wire.Frame.{from_frame-Total}
use roughenough.Protocol.Tags.{nonce_size, signature_size, response, type_value, type_eq}
use roughenough.Protocol.Tags.Wire.{fixed_from_wire-Total, type_from_wire-Total}
use roughenough.Protocol.Tags.Path.Elements
use roughenough.Protocol.Tags.Path.Wire.{path_from_wire_n-Total}
use roughenough.Protocol.Tags.Dele.{same_tags}
use roughenough.Protocol.Tags.Dele.Wire.{IsCertificate, cert_from_wire-Total}
use roughenough.Protocol.Tags.Srep.Wire.{
  IsSrep, IsSrepDraft08, srep_from_wire-Total, srep08_from_wire-Total,
}
use roughenough.Protocol.Response.{Response, response_tags, from_wire}
use roughenough.Protocol.Response.Draft08.{ResponseDraft08, response08_tags, from_wire08}

-- What an accepted response is sure to hold.
pub record IsAccepted (r : Response) : Type 0 where
  pub headed : IsWellFormed 7 r.header
  pub signed : IsBytes signature_size r.signature
  pub nonced : IsBytes nonce_size r.nonce
  pub is_response : r.msg_type ≡ response
  pub path_valid : Elements.IsValid r.path
  pub srep_valid : IsSrep r.srep
  pub certified : IsCertificate r.cert
  pub indexed : IsU32 r.index

pub record IsAcceptedDraft08 (r : ResponseDraft08) : Type 0 where
  pub headed : IsWellFormed 6 r.header
  pub signed : IsBytes signature_size r.signature
  pub path_valid : Elements.IsValid r.path
  pub srep_valid : IsSrepDraft08 r.srep
  pub certified : IsCertificate r.cert
  pub indexed : IsU32 r.index

from_wire_response-Total : Total from_wire IsAccepted
unfolding from_wire
from_wire_response-Total = Total-bind _ _ (from_wire-Total 7) λ h wf.
    let n : Neighbours h.offsets 2 =
      neighbours 2 0 h.offsets wf.offsets_ascend (omega (arith, wf.num_offsets)) in
    Total-bind _ _ (check_remaining-Total h) λ _ _.
      Total-bind _ _ (Total-refuse_if (not (same_tags h.tags response_tags)) unexpected_tags) λ _ _.
        Total-bind _ _ (fixed_from_wire-Total signature_size) λ sig b.
          Total-bind _ _ (fixed_from_wire-Total nonce_size) λ nonce b'.
            Total-bind _ _ type_from_wire-Total λ t _.
              Total-bind _ _
                (Total-refuse_if (not (type_eq t response)) (invalid_message_type (type_value t)))
                λ _ _.
                  Total-bind _ _ (Total-lift_ok (index h.offsets 3) n.end n.at_end)
                    λ path_end is_end.
                      Total-bind _ _ (Total-lift_ok (index h.offsets 2) n.start n.at_start)
                        λ path_start is_start.
                          Total-bind _ _
                            (sub_assign-Total path_end path_start
                              (omega (arith, n.in_order, is_end, is_start)))
                            λ path_len _. Total-bind _ _ (path_from_wire_n-Total path_len) λ path p.
                              Total-bind _ _ srep_from_wire-Total λ srep s.
                                Total-bind _ _ cert_from_wire-Total λ cert c.
                                  Total-bind _ _ Total-try_get_u32_le λ idx i.
                                    Total-pure
                                      (record {
                                        header = h;
                                        signature = sig;
                                        nonce = nonce;
                                        msg_type = response;
                                        path = path;
                                        srep = srep;
                                        cert = cert;
                                        index = idx;
                                      })
                                      (record {
                                        headed = wf;
                                        signed = b;
                                        nonced = b';
                                        is_response = refl;
                                        path_valid = p;
                                        srep_valid = s;
                                        certified = c;
                                        indexed = i;
                                      })

from_wire08-Total : Total from_wire08 IsAcceptedDraft08
unfolding from_wire08
from_wire08-Total = Total-bind _ _ (from_wire-Total 6) λ h wf.
    let n : Neighbours h.offsets 1 =
      neighbours 1 0 h.offsets wf.offsets_ascend (omega (arith, wf.num_offsets)) in
    Total-bind _ _ (check_remaining-Total h) λ _ _.
      Total-bind _ _ (Total-refuse_if (not (same_tags h.tags response08_tags)) unexpected_tags)
        λ _ _. Total-bind _ _ (fixed_from_wire-Total signature_size) λ sig b.
          Total-bind _ _ version_from_wire-Total λ version _.
            Total-bind _ _ (Total-lift_ok (index h.offsets 2) n.end n.at_end) λ path_end is_end.
              Total-bind _ _ (Total-lift_ok (index h.offsets 1) n.start n.at_start)
                λ path_start is_start.
                  Total-bind _ _
                    (sub_assign-Total path_end path_start
                      (omega (arith, n.in_order, is_end, is_start)))
                    λ path_len _. Total-bind _ _ (path_from_wire_n-Total path_len) λ path p.
                      Total-bind _ _ srep08_from_wire-Total λ srep s.
                        Total-bind _ _ cert_from_wire-Total λ cert c.
                          Total-bind _ _ Total-try_get_u32_le λ idx i.
                            Total-pure
                              (record {
                                header = h;
                                signature = sig;
                                version = version;
                                path = path;
                                srep = srep;
                                cert = cert;
                                index = idx;
                              })
                              (record {
                                headed = wf;
                                signed = b;
                                path_valid = p;
                                srep_valid = s;
                                certified = c;
                                indexed = i;
                              })

-- Whatever bytes arrive, parsing them as a framed draft-14 response does not panic: it gives an error, or
-- a response with offsets and tags in order and every value of its size: a path of at most 32 elements in a buffer of 1024 bytes,
-- and in order the versions that the server supports.
pub from_frame_response-Outcome :
    (bytes : List ℕ)
    → All IsByte bytes
    → Outcome IsAccepted (new bytes) (from_frame from_wire (new bytes))
from_frame_response-Outcome bytes h =
    (from_frame-Total from_wire_response-Total).at (new bytes) (new-IsValid bytes h)

-- Whatever bytes arrive, parsing them as a framed draft-08 response does not panic: it gives an error, or
-- a response with offsets and tags in order and every value of its size: a signature of 64 bytes, a path of at most 32
-- elements in a buffer of 1024 bytes, an SREP with its three tags, a radius of 32 bits, a midpoint of 64 bits and a root of 32 bytes,
-- a certificate and an index of 32 bits.
pub from_frame_response08-Outcome :
    (bytes : List ℕ)
    → All IsByte bytes
    → Outcome IsAcceptedDraft08 (new bytes) (from_frame from_wire08 (new bytes))
from_frame_response08-Outcome bytes h =
    (from_frame-Total from_wire08-Total).at (new bytes) (new-IsValid bytes h)
