-- ===== src/Protocol/Request/Writes.antt =====
-- What `to_wire` of request.rs writes.
use roughenough.Prelude.{ℕ, ◌+◌, ◌≡◌, ◌++◌, arith, append_assoc}
use roughenough.Protocol.Header
use roughenough.Protocol.Header.{Header, check_remaining}
use roughenough.Protocol.Header.Spec.{IsWellFormed, encode}
use roughenough.Protocol.Version.Wire.{versions_bytes, versions_to_wire-Writes}
use roughenough.Protocol.Tags.Wire.{type_bytes, type_to_wire-Writes, fixed_to_wire-Writes}
use roughenough.Protocol.Request.Draft08.{RequestDraft08, draft08_wire_size, draft08_to_wire}
use roughenough.Protocol.Request.Draft14.{RequestDraft14, draft14_wire_size, draft14_to_wire}
use roughenough.Protocol.Request.Draft14Srv.{
  RequestDraft14Srv, draft14_srv_wire_size, draft14_srv_to_wire,
}
use roughenough.Protocol.Request.Spec.{
  IsDraft08, IsDraft14, IsDraft14Srv, draft08_values, draft14_values, draft14_srv_values,
  draft08_bytes, draft14_bytes, draft14_srv_bytes, length-draft08, length-draft14,
  length-draft14_srv,
}
use roughenough.Protocol.Cursor.Writes.{
  Writes, Writes-bind, Writes-eq, Writes-put_slice, Writes-room,
}
use roughenough.Protocol.Header.Writes.{to_wire-encode}

header_Writes :
    (n : ℕ) (h : Header)
    → IsWellFormed (n + 1) h
    → Writes (Header.to_wire (n + 1) h) (encode (n + 1) h)
header_Writes n h wf = to_wire-encode (n + 1) h (omega arith) wf.num_offsets wf.num_tags

regrouped_draft08 :
    (req : RequestDraft08)
    → encode 3 req.header ++ (versions_bytes req.version ++ (req.nonce ++ req.padding))
      ≡ draft08_bytes req ++ req.padding
unfolding draft08_bytes draft08_values
regrouped_draft08 req = simp append_assoc

pub draft08_to_wire-Writes :
    (req : RequestDraft08)
    → IsDraft08 req
    → Writes (draft08_to_wire req) (draft08_bytes req ++ req.padding)
unfolding draft08_to_wire
draft08_to_wire-Writes req h =
    Writes-room (draft08_wire_size req) _ (omega (arith, length-draft08 req h)) (
      Writes-eq (regrouped_draft08 req) (
        Writes-bind _ (header_Writes 2 req.header h.announced.well_formed) (
          Writes-bind _ (versions_to_wire-Writes req.version)
            (Writes-bind _ (fixed_to_wire-Writes req.nonce) (Writes-put_slice req.padding)))))

regrouped_draft14 :
    (req : RequestDraft14)
    → encode 4 req.header
        ++ (versions_bytes req.version ++ (req.nonce ++ (type_bytes req.msg_type ++ req.padding)))
      ≡ draft14_bytes req ++ req.padding
unfolding draft14_bytes draft14_values
regrouped_draft14 req = simp append_assoc

pub draft14_to_wire-Writes :
    (req : RequestDraft14)
    → IsDraft14 req
    → Writes (draft14_to_wire req) (draft14_bytes req ++ req.padding)
unfolding draft14_to_wire
draft14_to_wire-Writes req h =
    Writes-room (draft14_wire_size req) _ (omega (arith, length-draft14 req h)) (
      Writes-eq (regrouped_draft14 req) (
        Writes-bind _ (header_Writes 3 req.header h.announced.well_formed) (
          Writes-bind _ (versions_to_wire-Writes req.version) (
            Writes-bind _ (fixed_to_wire-Writes req.nonce)
              (Writes-bind _ (type_to_wire-Writes req.msg_type) (Writes-put_slice req.padding))))))

regrouped_draft14_srv :
    (req : RequestDraft14Srv)
    → encode 5 req.header
        ++ (versions_bytes req.version
            ++ (req.server ++ (req.nonce ++ (type_bytes req.msg_type ++ req.padding))))
      ≡ draft14_srv_bytes req ++ req.padding
unfolding draft14_srv_bytes draft14_srv_values
regrouped_draft14_srv req = simp append_assoc

pub draft14_srv_to_wire-Writes :
    (req : RequestDraft14Srv)
    → IsDraft14Srv req
    → Writes (draft14_srv_to_wire req) (draft14_srv_bytes req ++ req.padding)
unfolding draft14_srv_to_wire
draft14_srv_to_wire-Writes req h =
    Writes-room (draft14_srv_wire_size req) _ (omega (arith, length-draft14_srv req h)) (
      Writes-eq (regrouped_draft14_srv req) (
        Writes-bind _ (header_Writes 4 req.header h.announced.well_formed) (
          Writes-bind _ (versions_to_wire-Writes req.version) (
            Writes-bind _ (fixed_to_wire-Writes req.server) (
              Writes-bind _ (fixed_to_wire-Writes req.nonce) (
                Writes-bind _ (type_to_wire-Writes req.msg_type)
                  (Writes-put_slice req.padding)))))))
