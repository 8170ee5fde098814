-- ===== src/Tests/Server.antt =====
-- The theorems on keys and on the server at concrete inputs.
use roughenough.Prelude.{
  codes, Bool, false, ltb, ◌&&◌, Bool-cases, inl, inr, ltb→lt, ℕ, zero, suc, ◌+◌, ◌*◌, ◌≤◌, ◌≡◌,
  refl, true, some, List, [], ◌∷◌, ◌++◌, length, replicate, arith, All,
}
use roughenough.Prelude.Bytes.{IsByte}
use roughenough.Protocol.Error.{ok}
use roughenough.Protocol.Version.{rfc_draft14, srep_prefix}
use roughenough.Protocol.Tags.Path.{new_path}
use roughenough.Protocol.Tags.Path.Elements.{new_path-IsValid}
use roughenough.Protocol.Tags.Dele.{saturating_add}
use roughenough.Protocol.Tags.Srep.Made.{srep_bytes}
use roughenough.Protocol.Request.{draft14, nonc}
use roughenough.Protocol.Request.Draft14.{new_request_draft14}
use roughenough.Merkle.{new_tree, hash_leaf}
use roughenough.Keys.{
  Ed25519, LongTermIdentity, OnlineKeyDraft14, new_draft14, make_srep14, make_online_key_draft14,
  as_secs,
}
use roughenough.Keys.Signing.{IsOnline, srep_at, new_draft14-IsOnline, make_srep14-signs}
use roughenough.Keys.Delegating.{IsDelegated, make_online_key_draft14-IsDelegated}
use roughenough.Server.Metrics.{
  ResponseMetrics, default_response_metrics, add_batch_size, add_response_metrics,
}
use roughenough.Server.Metrics.Consistent.{
  IsConsistent, Fit, default-IsConsistent, add_batch_size-IsConsistent,
  add_response_metrics-IsConsistent,
}
use roughenough.Server.Responses.{
  Sending, ResponseHandler, PendingRequest, draft14_key, process_responses,
}
use roughenough.Server.Responses.Sends.{IsReady}
use roughenough.Server.Responses.Batch.{IsBatch, Answers}
use roughenough.Server.Responses.Served.{CanSign, process_responses-Answers}
use roughenough.Server.Requests.{RequestHandler, new_request_handler, collect_request}
use roughenough.Server.Requests.Counts.{Collected, collect_request-Collected}
use roughenough.Server.Network.{
  Received, datagram, would_block, NetworkHandler, new_network, CollectResult, collect_requests,
}
use roughenough.Server.Network.Expected.{received, Ended}
use roughenough.Server.Network.Steps.{AreBytes, IsGood}
use roughenough.Server.Network.Batches.{IsAfter, collect_requests-IsAfter}
use roughenough.Server.Worker.{Worker, new_worker}

-- A scheme of one key pair, whose signatures are all the same.
abbrev toy : Ed25519
toy = record {
  KeyPair = Unit;
  public_key = λ key. replicate 32 1;
  sign = λ key message. replicate 64 2;
  verify = λ key message signature. true;
  length-public_key = λ key. refl;
  length-sign = λ key message. refl;
  verify-sign = λ key message. refl;
}

abbrev no_hash : List ℕ → List ℕ
no_hash message = replicate 64 9

abbrev identity : LongTermIdentity
identity = record {
  seed = record {
    seed_len = 32;
    public_key_bytes = replicate 32 1;
    seed_sign = λ message. some (replicate 64 2);
  };
  version = rfc_draft14;
}

abbrev a_day : ℕ
a_day = 86400 * 1000000000

make_srep14-signs_example :
    (next : OnlineKeyDraft14 toy) × (make_srep14 toy
        (replicate 32 3)
        1000
        (new_draft14 toy rfc_draft14 tt)
      ≡ ok (
        srep_at toy rfc_draft14 (replicate 32 3) 1000,
        toy.sign tt
            (srep_prefix rfc_draft14 ++ srep_bytes (srep_at toy rfc_draft14 (replicate 32 3) 1000)),
        next,
      ))
    × IsOnline toy rfc_draft14 next
    × (next.signer ≡ tt)
    × (next.cert ≡ (new_draft14 toy rfc_draft14 tt).cert)
make_srep14-signs_example =
    make_srep14-signs toy rfc_draft14 (new_draft14 toy rfc_draft14 tt) (replicate 32 3) 1000
      (new_draft14-IsOnline toy rfc_draft14 tt) refl (omega arith)

make_online_key_draft14-IsDelegated_example :
    (key : OnlineKeyDraft14 toy) × (make_online_key_draft14 toy
        (record { identity = identity; validity_length = a_day })
        1000
        tt
      ≡ ok key)
    × IsOnline toy identity.version key
    × IsDelegated toy
        (toy.public_key tt)
        identity.version
        (toy.public_key tt)
        1000
        (as_secs a_day)
        key.cert
    × (key.signer ≡ tt)
make_online_key_draft14-IsDelegated_example =
    make_online_key_draft14-IsDelegated toy identity tt (λ message. refl) a_day 1000 tt
      (omega arith)

add_batch_size-IsConsistent_example :
    (m' : ResponseMetrics) × (add_batch_size 3 default_response_metrics ≡ ok m')
    × IsConsistent m'
    × (m'.num_responses ≡ default_response_metrics.num_responses + 3)
unfolding default_response_metrics
add_batch_size-IsConsistent_example =
    add_batch_size-IsConsistent 3 0 default_response_metrics default-IsConsistent (omega arith)
      (omega arith) refl (omega arith)

zeros-Fit : (n : ℕ) → Fit (replicate n 0) (replicate n 0)
zeros-Fit zero = tt
zeros-Fit (suc n) = (omega arith, zeros-Fit n)

add_response_metrics-IsConsistent_example :
    (sum : ResponseMetrics) × (add_response_metrics default_response_metrics
        default_response_metrics
      ≡ ok sum)
    × IsConsistent sum
    × (sum.num_responses
        ≡ default_response_metrics.num_responses + default_response_metrics.num_responses)
    × (sum.num_bytes_sent
        ≡ default_response_metrics.num_bytes_sent + default_response_metrics.num_bytes_sent)
unfolding default_response_metrics
add_response_metrics-IsConsistent_example =
    add_response_metrics-IsConsistent default_response_metrics default_response_metrics
      default-IsConsistent default-IsConsistent (zeros-Fit 64)

an_online_key :
    (key : OnlineKeyDraft14 toy) × (make_online_key_draft14 toy
        (record { identity = identity; validity_length = a_day })
        1000
        tt
      ≡ ok key)
    × IsOnline toy identity.version key
    × IsDelegated toy
        (toy.public_key tt)
        identity.version
        (toy.public_key tt)
        1000
        (as_secs a_day)
        key.cert
    × (key.signer ≡ tt)
an_online_key =
    make_online_key_draft14-IsDelegated toy identity tt (λ message. refl) a_day 1000 tt
      (omega arith)

abbrev online : OnlineKeyDraft14 toy
online = an_online_key.0

online-CanSign : CanSign toy Unit no_hash (λ message. refl) rfc_draft14 (replicate 32 1) 2000 online
unfolding saturating_add
online-CanSign = record {
  online = an_online_key.2;
  since = 1000;
  validity = as_secs a_day;
  delegated = an_online_key.3;
  late = λ e. cc;
  begun = omega arith;
  not_over = grind arith;
  small = omega arith;
}

abbrev sending : Sending
sending = record {
  merkle_path = new_path;
  response_metrics = default_response_metrics;
  response_buf = replicate 1024 0;
}

sending-IsReady : IsReady sending
sending-IsReady = record { path_valid = new_path-IsValid; buffered = refl }

abbrev handler : List (PendingRequest toy Unit) → ResponseHandler toy Unit
handler requests = record {
  batch_size = 8;
  merkle_tree = new_tree;
  sending = sending;
  key_source = record { identity = identity; validity_length = a_day };
  online_key = draft14_key online;
  requests = requests;
  protocol_version = rfc_draft14;
}

handler-IsBatch : IsBatch toy Unit no_hash (handler [])
unfolding new_tree
handler-IsBatch = record {
  texts = [];
  above = [];
  levels = refl;
  paired = refl;
  within = omega arith;
}

abbrev collector : RequestHandler toy Unit
collector = new_request_handler toy Unit (handler [])

collector-IsGood : IsGood toy Unit no_hash collector
unfolding new_request_handler
collector-IsGood = record { batch = handler-IsBatch; nonced = tt }

zeros-IsByte : (n : ℕ) → All IsByte (replicate n 0)
zeros-IsByte zero = tt
zeros-IsByte (suc n) = (omega arith, zeros-IsByte n)

-- The frame of the request that a draft-14 client makes for a nonce of sevens.
abbrev a_frame : List ℕ
a_frame =
    codes "ROUGHTIM"
    ++ (244 ∷ 3 ∷ 0 ∷ 0 ∷ 4 ∷ 0 ∷ 0 ∷ 0 ∷ 4 ∷ 0 ∷ 0 ∷ 0 ∷ 36 ∷ 0 ∷ 0 ∷ 0 ∷ 40 ∷ 0 ∷ 0 ∷ 0 ∷ [])
    ++ codes "VER"
    ++ (0 ∷ [])
    ++ codes "NONCTYPEZZZZ"
    ++ (12 ∷ 0 ∷ 0 ∷ 128 ∷ [])
    ++ replicate 32 7
    ++ replicate 944 0

are_bytes : List ℕ → Bool
are_bytes [] = true
are_bytes (x ∷ xs) = ltb x 256 && are_bytes xs

are_bytes-IsByte : (xs : List ℕ) → are_bytes xs ≡ true → All IsByte xs
unfolding are_bytes
are_bytes-IsByte [] h = tt
are_bytes-IsByte (x ∷ xs) h = elim (Bool-cases (ltb x 256)) [
  | inl small ↦ (ltb→lt x 256 small, are_bytes-IsByte xs (rw small at h))
  | inr large ↦ absurd (refused (rw large at h))
]
  where
    refused : false ≡ true → ⊥
    refused e = cc

a_frame-IsByte : All IsByte a_frame
unfolding are_bytes
a_frame-IsByte = are_bytes-IsByte a_frame refl

collect_request-Collected_example :
    (texts : List (List ℕ)) × Collected toy Unit no_hash collector handler-IsBatch.texts
      handler-IsBatch.above a_frame tt
      (collect_request toy Unit no_hash a_frame tt collector)
      texts
unfolding new_request_handler
collect_request-Collected_example =
    collect_request-Collected toy Unit no_hash a_frame tt collector handler-IsBatch a_frame-IsByte
      (omega arith)

-- A request, a datagram that is none, then nothing more.
abbrev two_datagrams : ℕ → Received (Unit {0})
two_datagrams zero = datagram a_frame tt
two_datagrams (suc zero) = datagram (replicate 1024 0) tt
two_datagrams (suc (suc j)) = would_block

two_datagrams-AreBytes : (j : ℕ) → AreBytes (two_datagrams j)
two_datagrams-AreBytes zero = a_frame-IsByte
two_datagrams-AreBytes (suc zero) = zeros-IsByte 1024
two_datagrams-AreBytes (suc (suc j)) = tt

collect_requests-IsAfter_example :
    (result : CollectResult) × (net' : NetworkHandler) × (h' : RequestHandler toy Unit)
    × (collect_requests toy Unit no_hash two_datagrams (new_network 8) collector
        ≡ ok (result, net', h'))
    × Ended 8 two_datagrams (new_network 8) (length (received 8 0 two_datagrams)) result net'
    × (length (received 8 0 two_datagrams) ≤ 8)
    × IsAfter toy Unit no_hash collector collector-IsGood (received 8 0 two_datagrams) h'
unfolding new_network new_request_handler
collect_requests-IsAfter_example =
    collect_requests-IsAfter toy Unit no_hash two_datagrams (new_network 8) collector
      collector-IsGood two_datagrams-AreBytes refl (omega arith)

abbrev one_request : List (PendingRequest toy Unit)
one_request =
    record { request = draft14 (new_request_draft14 (replicate 32 7)); src_addr = tt } ∷ []

abbrev with_one : ResponseHandler toy Unit
with_one = record (handler one_request) {
  merkle_tree = record { levels = (hash_leaf no_hash (replicate 1024 0) ∷ []) ∷ [] };
}

with_one-IsBatch : IsBatch toy Unit no_hash with_one
with_one-IsBatch = record {
  texts = replicate 1024 0 ∷ [];
  above = [];
  levels = refl;
  paired = refl;
  within = omega arith;
}

process_responses-Answers_example :
    (sent : List (Unit {0} × List ℕ)) × (h' : ResponseHandler toy Unit) × (process_responses toy
        Unit no_hash 2000 with_one
      ≡ ok (sent, h'))
    × Answers toy Unit no_hash (replicate 32 1) 2000 (with_one-IsBatch.texts) one_request sent
    × IsReady h'.sending
    × (next : OnlineKeyDraft14 toy) × (h'.online_key ≡ draft14_key next)
    × IsOnline toy rfc_draft14 next
    × (next.cert ≡ online.cert)
unfolding default_response_metrics nonc new_request_draft14
process_responses-Answers_example =
    process_responses-Answers toy Unit no_hash (λ message. refl) rfc_draft14 (replicate 32 1) 2000
      online online-CanSign with_one with_one-IsBatch 0 refl refl (omega arith) (omega arith)
      (refl, tt) sending-IsReady default-IsConsistent refl (omega arith)

abbrev a_worker : Worker toy Unit
a_worker = new_worker toy Unit 1 8 43200 60 collector 2000
