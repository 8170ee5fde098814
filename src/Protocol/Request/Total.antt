-- ===== src/Protocol/Request/Total.antt =====
-- `from_wire` and `from_frame` of request.rs on any bytes.
use roughenough.Prelude.{ℕ, ◌<◌, ap, sym, subst, List, length, arith, ◌==◌, not}
use roughenough.Protocol.Error.{
  Result, ok, err, panic, index, bad_request_size, invalid_message_type, invalid_request_num_tags,
  unexpected_tags,
}
use roughenough.Protocol.Cursor.{
  Action, ◌>>=◌, ◌>>◌, pure, lift, refuse_if, gets, update, remaining, try_get_u32_le, set_position,
}
use roughenough.Protocol.Tag.{Tag}
use roughenough.Protocol.Header
use roughenough.Protocol.Header.{Header, check_remaining}
use roughenough.Protocol.Version.{VersionList, versions_from_wire_n}
use roughenough.Protocol.Version.Wire.{IsVersionList, versions_from_wire_n-Total}
use roughenough.Protocol.Tags.{nonce_size, srv_size, request, type_value, type_eq}
use roughenough.Protocol.Tags.Wire.{type_from_wire-Total, fixed_from_wire-Total}
use roughenough.Protocol.Tags.Dele.{same_tags}
use roughenough.Protocol.Request.Draft08.{default_draft08, draft08_tags, draft08_from_wire}
use roughenough.Protocol.Request.Draft14.{default_draft14, draft14_tags, draft14_from_wire}
use roughenough.Protocol.Request.Draft14Srv.{
  default_draft14_srv, draft14_srv_tags, draft14_srv_from_wire,
}
use roughenough.Protocol.Request.{
  Request, draft08, draft14, draft14_srv, from_wire, peek_num_tags, from_num_tags, nonc, ver,
}
use roughenough.Prelude.{All}
use roughenough.Prelude.Bytes.{IsByte}
use roughenough.Protocol.Cursor.{ParseCursor, new}
use roughenough.Protocol.Wire.{from_frame}
use roughenough.Protocol.Wire.Frame.{from_frame-Total}
use roughenough.Protocol.Cursor.Total.{
  Total, IsValid, IsBytes, Total-pure, Total-fail, Total-if, Total-bind, Total-refuse_if,
  Total-gets, Total-try_get_u32_le, Outcome, new-IsValid, returns, refuses, IsU32,
}
use roughenough.Protocol.Header.Total.{from_wire-Total, check_remaining-Total, first_offset-Total}

-- What an accepted request is sure to hold.
pub record IsAccepted (req : Request) : Type 0 where
  pub nonce : IsBytes nonce_size (nonc req)
  pub versions : IsVersionList (ver req)

-- The steps that the three forms share.
announced :
    {A : Type 0} {P : A → Type 0} (n : ℕ) (tags : List Tag) (f : Header → VersionList → Action A)
    → 1 < n
    → ((h : Header) (vs : VersionList) → IsVersionList vs → Total (f h vs) P)
    → Total
        (do
          h ← Header.from_wire n
          check_remaining h
          refuse_if (not (same_tags h.tags tags)) unexpected_tags
          ver_len ← lift (index h.offsets 0)
          version ← versions_from_wire_n ver_len
          f h version)
        P
announced n tags f many p = Total-bind _ _ (from_wire-Total n) λ h wf.
    Total-bind _ _ (check_remaining-Total h) λ _ _.
      Total-bind _ _ (Total-refuse_if (not (same_tags h.tags tags)) unexpected_tags) λ _ _.
        Total-bind _ _ (first_offset-Total n h many wf) λ ver_len aligned.
          Total-bind _ _ (versions_from_wire_n-Total ver_len aligned) λ vs v. p h vs v

draft08_from_wire-Total :
    Total draft08_from_wire (λ req. IsBytes nonce_size req.nonce × IsVersionList req.version)
unfolding draft08_from_wire default_draft08
draft08_from_wire-Total = announced 3 draft08_tags _ (omega arith) λ h vs v.
    Total-bind _ _ (fixed_from_wire-Total nonce_size) λ nonce b.
      Total-pure (record default_draft08 { header = h; version = vs; nonce = nonce }) (b, v)

draft14_from_wire-Total :
    Total draft14_from_wire (λ req. IsBytes nonce_size req.nonce × IsVersionList req.version)
unfolding draft14_from_wire default_draft14
draft14_from_wire-Total = announced 4 draft14_tags _ (omega arith) λ h vs v.
    Total-bind _ _ (fixed_from_wire-Total nonce_size) λ nonce b.
      Total-bind _ _ type_from_wire-Total λ t _.
        Total-bind _ _
          (Total-refuse_if (not (type_eq t request)) (invalid_message_type (type_value t)))
          λ _ _.
            Total-pure
              (record default_draft14 { header = h; version = vs; nonce = nonce; msg_type = t })
              (b, v)

draft14_srv_from_wire-Total :
    Total draft14_srv_from_wire (λ req. IsBytes nonce_size req.nonce × IsVersionList req.version)
unfolding draft14_srv_from_wire default_draft14_srv
draft14_srv_from_wire-Total = announced 5 draft14_srv_tags _ (omega arith) λ h vs v.
    Total-bind _ _ (fixed_from_wire-Total srv_size) λ server _.
      Total-bind _ _ (fixed_from_wire-Total nonce_size) λ nonce b.
        Total-bind _ _ type_from_wire-Total λ t _.
          Total-bind _ _
            (Total-refuse_if (not (type_eq t request)) (invalid_message_type (type_value t)))
            λ _ _.
              Total-pure
                (record default_draft14_srv {
                  header = h;
                  version = vs;
                  server = server;
                  nonce = nonce;
                  msg_type = t;
                })
                (b, v)

peek_num_tags-Total : Total peek_num_tags (λ _. Unit {0})
unfolding peek_num_tags ◌>>=◌ gets update set_position
peek_num_tags-Total = record {
  at = λ c v. set_back c v (try_get_u32_le c) (Total-try_get_u32_le.at c v);
}
  where
    set_back :
        (c : ParseCursor)
        → IsValid c
        → (r : Result (ℕ × ParseCursor)) → Outcome IsU32 c r
        → Outcome
            (λ _. Unit {0})
            c
            (elim r [
              | ok (n, c') ↦ ok (n, record c' { position = c.position })
              | err e ↦ err e
              | panic ↦ panic
            ])
    set_back c v _ (returns n c' h w same) =
        returns n (record c' { position = c.position }) tt
          (record {
            inside = omega (arith, v.inside, ap length same);
            octets = subst (All IsByte) (sym same) v.octets;
          })
          same
    set_back c v _ (refuses e) = refuses e

wrapped :
    {A : Type 0} {P : A → Type 0} {m : Action A} (f : A → Request)
    → Total m P
    → ((a : A) → P a → IsAccepted (f a))
    → Total (do a ← m; pure (f a)) IsAccepted
wrapped f p g = Total-bind _ _ p λ a h. Total-pure (f a) (g a h)

-- `from_wire` does not panic, whatever the bytes are.
pub from_wire_request-Total : Total from_wire IsAccepted
unfolding from_wire from_num_tags nonc ver
from_wire_request-Total = Total-bind _ _ (Total-gets remaining) λ left _.
    Total-bind _ _ (Total-refuse_if (not (left == 1012)) (bad_request_size left)) λ _ _.
      Total-bind _ _ peek_num_tags-Total λ n _.
        Total-if (n == 3) _ _
          (λ _.
            wrapped draft08 draft08_from_wire-Total λ req h. record { nonce = h.0; versions = h.1 })
          λ _.
            Total-if (n == 4) _ _
              (λ _.
                wrapped draft14 draft14_from_wire-Total
                  λ req h. record { nonce = h.0; versions = h.1 })
              λ _.
                Total-if (n == 5) _ _
                  (λ _.
                    wrapped draft14_srv draft14_srv_from_wire-Total
                      λ req h. record { nonce = h.0; versions = h.1 })
                  λ _. Total-fail (invalid_request_num_tags n)

-- Whatever bytes arrive, parsing them as a framed request does not panic: it gives a request or an
-- error. A request that it gives has a nonce of 32 bytes and at most 32 versions, in order.
pub from_frame_request-Outcome :
    (bytes : List ℕ)
    → All IsByte bytes
    → Outcome IsAccepted (new bytes) (from_frame from_wire (new bytes))
from_frame_request-Outcome bytes h =
    (from_frame-Total from_wire_request-Total).at (new bytes) (new-IsValid bytes h)
