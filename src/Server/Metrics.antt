-- ===== src/Server/Metrics.antt =====
-- crates/roughenough-server/src/metrics/types.rs: what the server counts.
-- Counters of `usize` are natural numbers; the counts of batches by size are bytes, and a sum of them that is no byte
-- is a panic.
pub mod Consistent
use roughenough.Prelude.{
  ℕ, zero, suc, ◌+◌, ◌-◌, ◌≤◌, List, [], ◌∷◌, ltb, leb, ◌&&◌, replicate, if◌then◌else◌,
}
use roughenough.Protocol.Error.{Result, ok, panic, assert, ◌>>=◌, ◌>>◌}

pub record NetworkMetrics : Type 0 where
  pub num_recv_wouldblock : ℕ
  pub num_successful_sends : ℕ
  pub num_failed_sends : ℕ
  pub num_failed_polls : ℕ
  pub num_failed_recvs : ℕ

abbrev pub default_network : NetworkMetrics
default_network = record {
  num_recv_wouldblock = 0;
  num_successful_sends = 0;
  num_failed_sends = 0;
  num_failed_polls = 0;
  num_failed_recvs = 0;
}

unfoldable pub add_network : NetworkMetrics → NetworkMetrics → NetworkMetrics
add_network m rhs = record {
  num_recv_wouldblock = m.num_recv_wouldblock + rhs.num_recv_wouldblock;
  num_successful_sends = m.num_successful_sends + rhs.num_successful_sends;
  num_failed_sends = m.num_failed_sends + rhs.num_failed_sends;
  num_failed_polls = m.num_failed_polls + rhs.num_failed_polls;
  num_failed_recvs = m.num_failed_recvs + rhs.num_failed_recvs;
}

pub record RequestMetrics : Type 0 where
  pub num_ok_requests : ℕ
  pub num_bad_requests : ℕ
  pub num_runt_requests : ℕ
  pub num_jumbo_requests : ℕ

abbrev pub default_request_metrics : RequestMetrics
default_request_metrics = record {
  num_ok_requests = 0;
  num_bad_requests = 0;
  num_runt_requests = 0;
  num_jumbo_requests = 0;
}

unfoldable pub add_request_metrics : RequestMetrics → RequestMetrics → RequestMetrics
add_request_metrics m rhs = record {
  num_ok_requests = m.num_ok_requests + rhs.num_ok_requests;
  num_bad_requests = m.num_bad_requests + rhs.num_bad_requests;
  num_runt_requests = m.num_runt_requests + rhs.num_runt_requests;
  num_jumbo_requests = m.num_jumbo_requests + rhs.num_jumbo_requests;
}

abbrev pub max_batch_size : ℕ
max_batch_size = 64

pub record ResponseMetrics : Type 0 where
  pub num_responses : ℕ
  pub num_bytes_sent : ℕ
  pub batch_sizes : List ℕ

unfoldable pub default_response_metrics : ResponseMetrics
default_response_metrics = record {
  num_responses = 0;
  num_bytes_sent = 0;
  batch_sizes = replicate max_batch_size 0;
}

-- `+=` on a byte.
unfoldable pub add_u8 : ℕ → ℕ → Result ℕ
add_u8 a b = if ltb (a + b) 256 then ok (a + b) else panic

-- `counts[i] += n`
unfoldable pub add_at : List ℕ → ℕ → ℕ → Result (List ℕ)
unfolding add_u8
add_at [] i n = panic
add_at (count ∷ counts) zero n = add_u8 count n >>= λ sum. ok (sum ∷ counts)
add_at (count ∷ counts) (suc i) n = add_at counts i n >>= λ rest. ok (count ∷ rest)

-- `batch_size` is a byte.
unfoldable pub add_batch_size : ℕ → ResponseMetrics → Result ResponseMetrics
unfolding add_at
add_batch_size batch_size m = do
  assert (ltb 0 batch_size && leb batch_size max_batch_size)
  counts ← add_at m.batch_sizes (batch_size - 1) 1
  ok (record m { num_responses = m.num_responses + batch_size; batch_sizes = counts })

unfoldable pub add_bytes_sent : ℕ → ResponseMetrics → ResponseMetrics
add_bytes_sent num_bytes m = record m { num_bytes_sent = m.num_bytes_sent + num_bytes }

-- `clear` and `resize` give the counts that a default has.
unfoldable pub reset_metrics : ResponseMetrics → ResponseMetrics
reset_metrics m = record {
  num_responses = 0;
  num_bytes_sent = 0;
  batch_sizes = replicate max_batch_size 0;
}

-- The loop of `add_assign`: `self.batch_sizes[idx] += count` for each count of `rhs`.
unfoldable pub add_counts : List ℕ → List ℕ → Result (List ℕ)
unfolding add_u8
add_counts counts [] = ok counts
add_counts [] (n ∷ ns) = panic
add_counts (count ∷ counts) (n ∷ ns) = do
  sum ← add_u8 count n
  rest ← add_counts counts ns
  ok (sum ∷ rest)

unfoldable pub add_response_metrics : ResponseMetrics → ResponseMetrics → Result ResponseMetrics
unfolding add_counts
add_response_metrics m rhs = do
  counts ← add_counts m.batch_sizes rhs.batch_sizes
  ok (record {
    num_responses = m.num_responses + rhs.num_responses;
    num_bytes_sent = m.num_bytes_sent + rhs.num_bytes_sent;
    batch_sizes = counts;
  })
