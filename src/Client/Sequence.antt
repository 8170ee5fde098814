-- ===== src/Client/Sequence.antt =====
-- crates/roughenough-client/src/sequence.rs: measurements of several servers, each chained to the one before.
-- The random bytes and what the transport returns are arguments, one of each for every query.
pub mod Chain
use roughenough.Prelude.{
  ℕ, zero, suc, ◌+◌, ◌*◌, Bool, true, false, Option, none, some, List, [], ◌∷◌, ◌++◌, length, take,
  ltb, if◌then◌else◌,
}
use roughenough.Protocol.Version.{ProtocolVersion, rfc_draft08, rfc_draft14}
use roughenough.Protocol.Wire.{as_frame_bytes}
use roughenough.Protocol.Tags.{FixedTag}
use roughenough.Protocol.Request
use roughenough.Protocol.Request.{Request, draft08, draft14, draft14_srv}
use roughenough.Protocol.Request.Draft08.{new_request_draft08}
use roughenough.Protocol.Request.Draft14Srv.{new_request_draft14_srv}
use roughenough.Protocol.Response.{Response}
use roughenough.Client.Measurement.{Measurement}
use roughenough.Client.Query.{
  ClientError, invalid_configuration, Reply, broken, failure, success, ◌>>=◌, of_result, Exchange,
  Client, calculate_chained_nonce, parse_and_validate,
}

abbrev pub min_servers : ℕ
min_servers = 3

abbrev pub default_rounds : ℕ
default_rounds = 2

unfoldable pub new_sequence :
    {Address : Type 0} → List (Client Address) → Reply (List (Client Address))
new_sequence clients =
    if ltb (length clients) min_servers then failure invalid_configuration else success clients

-- A query's share of randomness and of the network.
pub record Step : Type 0 where
  pub random : List ℕ
  pub exchange : Exchange

module _ (sha512 : List ℕ → List ℕ) where
  -- The nonce, and the random value that it is chained with.
  unfoldable pub generate_nonce : Option Response → List ℕ → Reply (FixedTag × Option (List ℕ))
  unfolding calculate_chained_nonce
  generate_nonce none random = success (random, none)
  generate_nonce (some prior) random =
      calculate_chained_nonce sha512 prior random >>= λ nonce. success (nonce, some random)

module _ {Address : Type 0} where
  -- `unwrap` on the commitment of a client that has none is a panic.
  unfoldable pub sequence_request : Client Address → FixedTag → Reply Request
  unfolding new_request_draft08 new_request_draft14_srv
  sequence_request client nonce = elim client.protocol_version [
    | rfc_draft08 ↦ success (draft08 (new_request_draft08 nonce))
    | rfc_draft14 ↦ elim client.srv_commit [
      | some srv_commit ↦ success (draft14_srv (new_request_draft14_srv nonce srv_commit))
      | none ↦ broken
    ]
  ]

  -- The test that every server has a public key.
  unfoldable pub all_keyed : List (Client Address) → Bool
  all_keyed [] = true
  all_keyed (client ∷ clients) = elim client.public_key [
    | none ↦ false
    | some key ↦ all_keyed clients
  ]

module _ (sha512 : List ℕ → List ℕ) (verify : FixedTag → List ℕ → FixedTag → Bool)
    {Address : Type 0} where
  unfoldable pub query : Client Address → Option Response → Step → Reply (Measurement Address)
  unfolding generate_nonce sequence_request parse_and_validate
  query client prior_response step = do
    (nonce, rand_value) ← generate_nonce sha512 prior_response step.random
    request ← sequence_request client nonce
    request_bytes ← of_result (as_frame_bytes (Request.wire_size request) (Request.to_wire request))
    count ← step.exchange.sent
    received ← step.exchange.received
    response ←
        parse_and_validate sha512 verify client.protocol_version client.validator request_bytes
          (take 1024 received)
    success (record {
      server = client.server;
      hostname = client.hostname;
      public_key = client.public_key;
      request = request;
      response = response;
      rand_value = rand_value;
      prior_response = prior_response;
    })

  -- The inner loop, from the query `i` on: the measurements, and the last response.
  unfoldable pub run_round :
      List (Client Address)
      → ℕ
      → (ℕ → Step)
      → Option Response
      → Reply (List (Measurement Address) × Option Response)
  unfolding query
  run_round [] i steps prior = success ([], prior)
  run_round (client ∷ clients) i steps prior = do
    measurement ← query client prior (steps i)
    (measurements, last) ← run_round clients (i + 1) steps (some measurement.response)
    success (measurement ∷ measurements, last)

  unfoldable pub run_rounds :
      ℕ
      → List (Client Address)
      → ℕ
      → (ℕ → Step)
      → Option Response
      → Reply (List (Measurement Address))
  unfolding run_round
  run_rounds zero clients i steps prior = success []
  run_rounds (suc rounds) clients i steps prior = do
    (measurements, last) ← run_round clients i steps prior
    more ← run_rounds rounds clients (i + length clients) steps last
    success (measurements ++ more)

  unfoldable pub run : ℕ → List (Client Address) → (ℕ → Step) → Reply (List (Measurement Address))
  unfolding all_keyed run_rounds
  run rounds clients steps =
      if all_keyed clients
      then run_rounds rounds clients 0 steps none
      else failure invalid_configuration
