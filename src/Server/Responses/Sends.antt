-- ===== src/Server/Responses/Sends.antt =====
-- How responses.rs writes one response into its buffer and sends it.
use roughenough.Prelude.{
  ℕ, ◌+◌, ◌^◌, ◌≤◌, ◌<◌, ◌≡◌, refl, ap, ◌∙◌, List, ◌++◌, length, drop, arith, le→not_ltb,
  length-append, length-drop, take-append,
}
use roughenough.Protocol.Error.{ok}
use roughenough.Protocol.Cursor.{Action, new, written}
use roughenough.Protocol.Cursor.Writes.{Writes}
use roughenough.Protocol.Version.{versions_wire_size}
use roughenough.Protocol.Wire.{frame_size, to_frame}
use roughenough.Protocol.Wire.Frame.{frame_bytes, to_frame-Writes, length-frame_bytes}
use roughenough.Protocol.Tags.{FixedTag, fixed_default, nonce_size, signature_size}
use roughenough.Protocol.Tags.Path.{MerklePath, new_path, path_wire_size, copy_from}
use roughenough.Protocol.Tags.Path.Elements
use roughenough.Protocol.Tags.Path.Elements.{
  new_path-IsValid, elements-copy_from, copy_from-IsValid,
}
use roughenough.Protocol.Tags.Dele.{Certificate}
use roughenough.Protocol.Tags.Dele.Made as DeleMade
use roughenough.Protocol.Tags.Srep.{SignedResponse, srep_wire_size}
use roughenough.Protocol.Tags.Srep.Made as SrepMade
use roughenough.Protocol.Request.{Request, nonc}
use roughenough.Protocol.Response.{
  Response, default_response, set_sig, set_srep, set_cert, set_nonc, set_indx, copy_path,
  update_offsets, to_wire, wire_size,
}
use roughenough.Protocol.Response.Wire.{response_bytes, length-response_bytes}
use roughenough.Protocol.Response.RoundTrip.{
  IsMade, value_offsets, made-IsWellFormed, response-Writes, size_small,
}
use roughenough.Client.Validation.Genuine.{packet, root_from_paths-reread}
use roughenough.Merkle.{root_from_paths}
use roughenough.Keys.{expect_ok}
use roughenough.Server.Metrics.{add_bytes_sent}
use roughenough.Server.Responses.{Sending, send_frame, respond14}

-- The buffers as every use leaves them.
pub record IsReady (s : Sending) : Type 0 where
  pub path_valid : Elements.IsValid s.merkle_path
  pub buffered : length s.response_buf ≡ 1024

module _ (m : Action (Unit {0})) (xs : List ℕ) where
  -- The front of the buffer is sent.
  send-Writes :
      (size : ℕ) (s : Sending)
      → Writes (to_frame size m) xs
      → length xs ≡ frame_size size
      → length xs ≤ 1024
      → IsReady s
      → (s' : Sending) × (send_frame size m s ≡ ok (xs, s')) × IsReady s'
  unfolding send_frame new written expect_ok
  send-Writes size s p full fits ready =
      let back : List ℕ = drop (0 + length xs) s.response_buf in
      let run : to_frame size m (new s.response_buf) ≡ ok (tt, written xs (new s.response_buf)) =
        p.at (new s.response_buf)
          (unfold new in record { room = omega (arith, fits, ready.buffered) }) in
      let whole : length (xs ++ back) ≡ 1024 = omega (
        arith,
        fits,
        ready.buffered,
        length-append xs back,
        length-drop (0 + length xs) s.response_buf,
      ) in
      (
        record s {
          response_metrics = add_bytes_sent (frame_size size) s.response_metrics;
          response_buf = xs ++ back;
        },
        rw run (
            rw
              (le→not_ltb (length (xs ++ back)) (frame_size size)
                (omega (arith, whole, fits, full)))
              (ap
                (λ ys. ok (
                  ys,
                  record s {
                    response_metrics = add_bytes_sent (frame_size size) s.response_metrics;
                    response_buf = xs ++ back;
                  },
                ))
                (take-append (frame_size size) xs back full))),
        record { path_valid = ready.path_valid; buffered = whole },
      )

-- A response that fits is sent as its frame.
pub send_frame-made :
    (r : Response) (m : IsMade r) (s : Sending)
    → frame_size (wire_size r) ≤ 1024
    → IsReady s
    → (s' : Sending) × (send_frame (wire_size r) (to_wire r) s ≡ ok (packet r m, s')) × IsReady s'
unfolding packet
send_frame-made r m s fits ready =
    let size : length (frame_bytes (wire_size r) (response_bytes r)) ≡ frame_size (wire_size r) =
      length-frame_bytes (wire_size r) (response_bytes r)
      ∙ ap frame_size (length-response_bytes r (made-IsWellFormed r m) m.values) in
    send-Writes (to_wire r) (frame_bytes (wire_size r) (response_bytes r)) (wire_size r) s
      (to_frame-Writes (wire_size r) (omega (arith, size_small r m))
        (response-Writes r (made-IsWellFormed r m) m.values))
      size (omega (arith, size, fits)) ready

-- What the responses of a batch share.
unfoldable pub common : SignedResponse → FixedTag → Certificate → Response
unfolding set_sig set_srep set_cert default_response update_offsets
common srep sig cert = set_sig sig (set_srep srep (set_cert cert default_response))

module _ (srep : SignedResponse) (sig : FixedTag) (cert : Certificate) (path : MerklePath) (idx : ℕ)
    (request : Request) (srep_made : SrepMade.IsMade srep) (signed : length sig ≡ signature_size)
    (cert_made : DeleMade.IsMade cert) (path_valid : Elements.IsValid path) (small : idx < 2 ^ 32)
    (nonced : length (nonc request) ≡ nonce_size) where
  pub respond14-IsMade : IsMade (respond14 (common srep sig cert) path idx request)
  unfolding respond14 common set_sig set_srep set_cert set_nonc set_indx copy_path update_offsets
      default_response value_offsets path_wire_size srep_wire_size versions_wire_size copy_from
      fixed_default
  respond14-IsMade = record {
    values = record {
      signed = signed;
      nonced = nonced;
      typed = refl;
      path_valid = copy_from-IsValid new_path path new_path-IsValid path_valid;
      srep_made = srep_made;
      cert_made = cert_made;
      index_small = omega (arith, small);
    };
    tagged = refl;
    measured = rw signed;
  }

  pub respond14-path :
      (sha512 : List ℕ → List ℕ) (leaf : List ℕ)
      → root_from_paths sha512 idx leaf (respond14 (common srep sig cert) path idx request).path
        ≡ root_from_paths sha512 idx leaf path
  unfolding respond14 common set_sig set_srep set_cert set_nonc set_indx copy_path update_offsets
      default_response
  respond14-path sha512 leaf =
      root_from_paths-reread sha512 idx leaf (copy_from new_path path) path
        (elements-copy_from new_path path new_path-IsValid path_valid)

  -- A batch of at most 64 has paths of at most 6 elements, and the response fits into the buffer.
  pub respond14-fits :
      path.num_paths ≤ 19
      → srep_wire_size srep ≡ 92
      → frame_size (wire_size (respond14 (common srep sig cert) path idx request)) ≤ 1024
  unfolding respond14 common set_sig set_srep set_cert set_nonc set_indx copy_path update_offsets
      default_response path_wire_size frame_size copy_from wire_size
  respond14-fits shallow size = omega (arith, shallow, size, signed, nonced)
