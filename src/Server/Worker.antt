-- ===== src/Server/Worker.antt =====
-- crates/roughenough-server/src/worker.rs: the loop that a worker runs.
-- The clock, the socket, the random jitter and the generated key pairs are arguments. Times are in seconds.
pub mod Rounds
use roughenough.Prelude.{
  ℕ, zero, suc, ◌+◌, ◌-◌, ◌≤◌, Bool, true, false, List, [], ◌∷◌, leb, ltb, if◌then◌else◌,
}
use roughenough.Protocol.Error.{Result, ok, panic, ◌>>=◌}
use roughenough.Keys.{Ed25519}
use roughenough.Server.Metrics.{NetworkMetrics, RequestMetrics, ResponseMetrics}
use roughenough.Server.Requests.{
  RequestHandler, generate_responses, replace_key, reset_request_metrics,
}
use roughenough.Server.Network.{
  NetworkHandler, Received, CollectResult, new_network, collect_requests, count_send, reset_network,
}

pub record WorkerMetrics : Type 0 where
  pub worker_id : ℕ
  pub network : NetworkMetrics
  pub request : RequestMetrics
  pub response : ResponseMetrics

-- The results of sending the responses of one round, counted.
unfoldable pub count_sends :
    {Response : Type 0} → List Response → ℕ → (ℕ → Bool) → NetworkHandler → NetworkHandler
unfolding count_send
count_sends [] i send_ok net = net
count_sends (response ∷ sent) i send_ok net =
    count_sends sent (i + 1) send_ok (count_send (send_ok i) net)

module _ (ed : Ed25519) (Address : Type 0) where
  pub record Worker : Type 0 where
    pub worker_id : ℕ
    pub net_handler : NetworkHandler
    pub req_handler : RequestHandler ed Address
    pub key_replacement_interval : ℕ
    pub metrics_publish_interval : ℕ
    pub next_key_replacement : ℕ
    pub next_metrics_publication : ℕ

  unfoldable pub new_worker : ℕ → ℕ → ℕ → ℕ → RequestHandler ed Address → ℕ → Worker
  unfolding new_network
  new_worker worker_id batch_size rotation_interval metrics_interval req_handler now = record {
    worker_id = worker_id;
    net_handler = new_network batch_size;
    req_handler = req_handler;
    key_replacement_interval = rotation_interval;
    metrics_publish_interval = metrics_interval;
    next_key_replacement = now;
    next_metrics_publication = now + metrics_interval;
  }

  -- `interval - jitter` on `u64`, which must not pass below 0.
  unfoldable pub replace_online_key : ℕ → ed.KeyPair → ℕ → Worker → Result Worker
  unfolding replace_key
  replace_online_key now signer jitter w = do
    req_handler ← replace_key ed Address now signer w.req_handler
    elapsed ←
        if ltb w.key_replacement_interval jitter
        then panic
        else ok (w.key_replacement_interval - jitter)
    ok (record w {
      req_handler = req_handler;
      next_key_replacement = w.next_key_replacement + elapsed;
    })

  -- The snapshot that is sent, and the worker with its metrics reset.
  unfoldable pub publish_metrics : ℕ → Worker → WorkerMetrics × Worker
  unfolding reset_network reset_request_metrics
  publish_metrics now w = (
    record {
      worker_id = w.worker_id;
      network = w.net_handler.metrics;
      request = w.req_handler.metrics;
      response = w.req_handler.responder.sending.response_metrics;
    },
    record w {
      net_handler = reset_network w.net_handler;
      req_handler = reset_request_metrics ed Address w.req_handler;
      next_metrics_publication = now + w.metrics_publish_interval;
    },
  )

  -- What a turn of the loop does before it polls.
  unfoldable pub check_timers : ℕ → ed.KeyPair → ℕ → Worker → Result Worker
  unfolding publish_metrics replace_online_key
  check_timers now signer jitter w =
      let w₁ : Worker =
        if leb w.next_metrics_publication now then (publish_metrics now w).1 else w in
      if leb w₁.next_key_replacement now then replace_online_key now signer jitter w₁ else ok w₁

  -- A turn of the inner loop: requests are collected, answered, and the responses sent.
  unfoldable pub serve_round :
      (List ℕ → List ℕ)
      → (ℕ → Received Address)
      → ℕ
      → (ℕ → Bool)
      → Worker
      → Result (CollectResult × List (Address × List ℕ) × Worker)
  unfolding collect_requests generate_responses count_sends
  serve_round sha512 recv now send_ok w = do
    (result, net, h) ← collect_requests ed Address sha512 recv w.net_handler w.req_handler
    (sent, h') ← generate_responses ed Address sha512 now h
    ok (result, sent, record w { net_handler = count_sends sent 0 send_ok net; req_handler = h' })
