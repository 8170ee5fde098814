-- ===== src/Server/Requests.antt =====
-- crates/roughenough-server/src/requests.rs: from datagrams to the batch, and from the batch to responses.
pub mod Counts
use roughenough.Prelude.{ℕ, ◌+◌, List, length, ltb, if◌then◌else◌}
use roughenough.Protocol.Error.{Result, ok, err, panic, ◌>>=◌}
use roughenough.Protocol.Cursor.{new}
use roughenough.Protocol.Wire.{from_frame}
use roughenough.Protocol.Tags.{FixedTag}
use roughenough.Protocol.Request.{Request, from_wire, request_size}
use roughenough.Keys.{Ed25519}
use roughenough.Server.Metrics.{RequestMetrics, default_request_metrics, ResponseMetrics}
use roughenough.Server.Responses.{
  ResponseHandler, add_request, process_responses, clear_handler, replace_online_key, public_key,
  reset_handler_metrics,
}

module _ (ed : Ed25519) (Address : Type 0) where
  pub record RequestHandler : Type 0 where
    pub responder : ResponseHandler ed Address
    pub metrics : RequestMetrics

  unfoldable pub new_request_handler : ResponseHandler ed Address → RequestHandler
  new_request_handler handler = record { responder = handler; metrics = default_request_metrics }

  unfoldable pub count_runt : RequestHandler → RequestHandler
  count_runt h = record h {
    metrics = record h.metrics { num_runt_requests = h.metrics.num_runt_requests + 1 };
  }

  unfoldable pub count_jumbo : RequestHandler → RequestHandler
  count_jumbo h = record h {
    metrics = record h.metrics { num_jumbo_requests = h.metrics.num_jumbo_requests + 1 };
  }

  unfoldable pub count_bad : RequestHandler → RequestHandler
  count_bad h = record h {
    metrics = record h.metrics { num_bad_requests = h.metrics.num_bad_requests + 1 };
  }

  unfoldable pub count_ok : ResponseHandler ed Address → RequestHandler → RequestHandler
  count_ok responder h = record {
    responder = responder;
    metrics = record h.metrics { num_ok_requests = h.metrics.num_ok_requests + 1 };
  }

  module _ (sha512 : List ℕ → List ℕ) where
    unfoldable pub collect_request : List ℕ → Address → RequestHandler → Result RequestHandler
    unfolding count_runt count_jumbo count_bad count_ok add_request
    collect_request request_bytes src_addr h =
        if ltb (length request_bytes) request_size
        then ok (count_runt h)
        else if ltb request_size (length request_bytes)
        then ok (count_jumbo h)
        else elim (from_frame from_wire (new request_bytes)) [
          | ok (request, c) ↦ do
            responder ← add_request ed Address sha512 request_bytes request src_addr h.responder
            ok (count_ok responder h)
          | err e ↦ ok (count_bad h)
          | panic ↦ panic
        ]

    unfoldable pub generate_responses :
        ℕ → RequestHandler → Result (List (Address × List ℕ) × RequestHandler)
    unfolding process_responses clear_handler
    generate_responses now h = do
      (sent, responder) ← process_responses ed Address sha512 now h.responder
      ok (sent, record h { responder = clear_handler ed Address responder })

  unfoldable pub replace_key : ℕ → ed.KeyPair → RequestHandler → Result RequestHandler
  unfolding replace_online_key
  replace_key now signer h = do
    responder ← replace_online_key ed Address now signer h.responder
    ok (record h { responder = responder })

  unfoldable pub reset_request_metrics : RequestHandler → RequestHandler
  unfolding reset_handler_metrics
  reset_request_metrics h = record {
    responder = reset_handler_metrics ed Address h.responder;
    metrics = default_request_metrics;
  }
