-- ===== src/Server/Network.antt =====
-- crates/roughenough-server/src/network.rs: datagrams in and out.
-- What the socket gives is an argument: the result of the first receipt, of the second, and so on.
pub mod Expected
pub mod Steps
pub mod Batches
use roughenough.Prelude.{ℕ, zero, suc, ◌+◌, Bool, true, false, List, take}
use roughenough.Protocol.Error.{Result, ok, ◌>>=◌}
use roughenough.Keys.{Ed25519}
use roughenough.Server.Metrics.{NetworkMetrics, default_network}
use roughenough.Server.Requests.{RequestHandler, collect_request}

abbrev pub recv_buffer_size : ℕ
recv_buffer_size = 1024

-- The results of `recv_from`: a datagram and where it is from, or one of two kinds of errors.
pub data Received (Address : Type 0) : Type 0 where
  datagram : List ℕ → Address → Received Address
  would_block : Received Address
  failed : Received Address

pub data CollectResult : Type 0 where
  empty more_data : CollectResult

pub record NetworkHandler : Type 0 where
  pub batch_size : ℕ
  pub metrics : NetworkMetrics

unfoldable pub new_network : ℕ → NetworkHandler
new_network batch_size = record { batch_size = batch_size; metrics = default_network }

unfoldable pub count_wouldblock : NetworkHandler → NetworkHandler
count_wouldblock net = record net {
  metrics = record net.metrics { num_recv_wouldblock = net.metrics.num_recv_wouldblock + 1 };
}

unfoldable pub count_failed_recv : NetworkHandler → NetworkHandler
count_failed_recv net = record net {
  metrics = record net.metrics { num_failed_recvs = net.metrics.num_failed_recvs + 1 };
}

-- The part of `send_response` behind `send_to`, which tells whether it sent.
unfoldable pub count_send : Bool → NetworkHandler → NetworkHandler
count_send true net = record net {
  metrics = record net.metrics { num_successful_sends = net.metrics.num_successful_sends + 1 };
}
count_send false net = record net {
  metrics = record net.metrics { num_failed_sends = net.metrics.num_failed_sends + 1 };
}

unfoldable pub record_failed_poll : NetworkHandler → NetworkHandler
record_failed_poll net = record net {
  metrics = record net.metrics { num_failed_polls = net.metrics.num_failed_polls + 1 };
}

unfoldable pub reset_network : NetworkHandler → NetworkHandler
reset_network net = record net { metrics = default_network }

module _ (ed : Ed25519) (Address : Type 0) (sha512 : List ℕ → List ℕ) where
  -- The loop with `rounds` to go, at the receipt `i`. A datagram is cut at the size of the buffer.
  unfoldable pub collect_loop :
      ℕ
      → ℕ
      → (ℕ → Received Address)
      → NetworkHandler
      → RequestHandler ed Address
      → Result (CollectResult × NetworkHandler × RequestHandler ed Address)
  unfolding collect_request count_wouldblock count_failed_recv
  collect_loop zero i recv net h = ok (more_data, net, h)
  collect_loop (suc rounds) i recv net h = elim (recv i) [
    | datagram bytes addr ↦ do
      h' ← collect_request ed Address sha512 (take recv_buffer_size bytes) addr h
      collect_loop rounds (i + 1) recv net h'
    | would_block ↦ ok (empty, count_wouldblock net, h)
    | failed ↦ ok (more_data, count_failed_recv net, h)
  ]

  unfoldable pub collect_requests :
      (ℕ → Received Address)
      → NetworkHandler
      → RequestHandler ed Address
      → Result (CollectResult × NetworkHandler × RequestHandler ed Address)
  unfolding collect_loop
  collect_requests recv net h = collect_loop net.batch_size 0 recv net h
