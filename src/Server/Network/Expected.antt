-- ===== src/Server/Network/Expected.antt =====
-- What a socket gives in a turn of the loop in network.rs.
use roughenough.Prelude.{ℕ, zero, suc, ◌+◌, ◌≡◌, List, [], ◌∷◌, take}
use roughenough.Server.Network.{
  Received, datagram, would_block, failed, CollectResult, empty, more_data, NetworkHandler,
}

module _ {Address : Type 0} where
  -- The datagrams that the socket gives, up to a number of them, before it gives anything else.
  unfoldable pub received : ℕ → ℕ → (ℕ → Received Address) → List (List ℕ × Address)
  received zero i recv = []
  received (suc n) i recv = elim (recv i) [
    | datagram bytes addr ↦ (take 1024 bytes, addr) ∷ received n (i + 1) recv
    | would_block ↦ []
    | failed ↦ []
  ]

  -- How the loop ends after it has read some datagrams, with the network's counters.
  pub data Ended (batch_size : ℕ) (recv : ℕ → Received Address) (net : NetworkHandler)
      (datagrams : ℕ) : CollectResult → NetworkHandler → Type 0 where
    full : datagrams ≡ batch_size → Ended batch_size recv net datagrams more_data net
    blocked :
        recv datagrams ≡ would_block
        → Ended batch_size recv net datagrams empty (record net {
          metrics = record net.metrics {
            num_recv_wouldblock = net.metrics.num_recv_wouldblock + 1;
          };
        })
    broken :
        recv datagrams ≡ failed
        → Ended batch_size recv net datagrams more_data (record net {
          metrics = record net.metrics { num_failed_recvs = net.metrics.num_failed_recvs + 1 };
        })
