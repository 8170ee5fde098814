-- ===== src/Client/Query.antt =====
-- crates/roughenough-client/src/client.rs: one request to one server; and crates/roughenough-common/src/crypto.rs.
-- SHA-512, the verification of signatures and the type of socket addresses are parameters; random bytes, and what the
-- transport returns, are arguments.
pub mod Total
use roughenough.Prelude.{
  ℕ, ◌+◌, Bool, true, false, Option, none, some, List, [], ◌∷◌, ◌++◌, length, take, ◌==◌, not,
  if◌then◌else◌, codes,
}
use roughenough.Protocol.Error
use roughenough.Protocol.Error.{Error, Result}
use roughenough.Protocol.Cursor.{ParseCursor, new}
use roughenough.Protocol.Version.{ProtocolVersion, rfc_draft08, rfc_draft14}
use roughenough.Protocol.Wire.{as_frame_bytes, from_frame}
use roughenough.Protocol.Tags.{FixedTag}
use roughenough.Protocol.Request
use roughenough.Protocol.Request.{Request, draft08, draft14, draft14_srv}
use roughenough.Protocol.Request.Draft08.{new_request_draft08}
use roughenough.Protocol.Request.Draft14.{new_request_draft14}
use roughenough.Protocol.Request.Draft14Srv.{new_request_draft14_srv}
use roughenough.Protocol.Response
use roughenough.Protocol.Response.{Response}
use roughenough.Protocol.Response.Draft08.{ResponseDraft08, from_wire08, response_from_draft08}
use roughenough.Client.Validation
use roughenough.Client.Validation.{
  ValidationError, Verdict, ResponseValidator, new_validator, new_with_key, validate_draft08,
  validate_draft14,
}
use roughenough.Client.Measurement.{Measurement}

-- The texts of the messages are left out.
pub data ClientError : Type 0 where
  server_timeout : ClientError
  bad_response : Error → ClientError
  bad_public_key : ClientError
  io_error : ClientError
  validation_failed : ValidationError → ClientError
  invalid_configuration : ClientError
  dns_lookup_failed : ClientError

-- Rust's `Result<A, ClientError>`, with the case that the code panics.
pub data Reply (A : Type 0) : Type 0 where
  broken : Reply A
  failure : ClientError → Reply A
  success : A → Reply A

infixl 5 ◌>>=◌
abbrev pub ◌>>=◌ : {A B : Type 0} → Reply A → (A → Reply B) → Reply B
broken >>= k = broken
failure e >>= k = failure e
success a >>= k = k a

-- Rust's `?` on the errors of messages and of the validator.
abbrev pub of_result : {A : Type 0} → Result A → Reply A
of_result Error.panic = broken
of_result (Error.err e) = failure (bad_response e)
of_result (Error.ok a) = success a

abbrev pub of_verdict : {A : Type 0} → Verdict A → Reply A
of_verdict Validation.crashed = broken
of_verdict (Validation.rejected e) = failure (validation_failed e)
of_verdict (Validation.accepted a) = success a

-- What `from_frame` reads from a whole datagram.
unfoldable pub parsed : {A : Type 0} → Result (A × ParseCursor) → Reply A
parsed Error.panic = broken
parsed (Error.err e) = failure (bad_response e)
parsed (Error.ok (a, c)) = success a

abbrev pub hash_prefix_srv : List ℕ
hash_prefix_srv = 255 ∷ []

-- What a transport returns for one exchange: the number of bytes sent, and the datagram received.
pub record Exchange : Type 0 where
  pub sent : Reply ℕ
  pub received : Reply (List ℕ)

-- The transport is left out.
pub record Client (Address : Type 0) : Type 0 where
  pub server : Address
  pub hostname : List ℕ
  pub validator : ResponseValidator
  pub public_key : Option FixedTag
  pub srv_commit : Option FixedTag
  pub protocol_version : ProtocolVersion

module _ (sha512 : List ℕ → List ℕ) where
  -- `expect` on the bytes of a response.
  unfoldable pub calculate_chained_nonce : Response → List ℕ → Reply FixedTag
  unfolding as_frame_bytes
  calculate_chained_nonce prior rand =
      elim (as_frame_bytes (Response.wire_size prior) (Response.to_wire prior)) [
        | Error.ok bytes ↦ success (take 32 (sha512 (bytes ++ rand)))
        | Error.err e ↦ broken
        | Error.panic ↦ broken
      ]

  unfoldable pub make_srv_commitment : FixedTag → FixedTag
  make_srv_commitment pub_key = take 32 (sha512 (hash_prefix_srv ++ pub_key))

  -- `ClientBuilder::new`, its setters and `build`.
  unfoldable pub build_client :
      {Address : Type 0} → Address → List ℕ → Option FixedTag → ProtocolVersion → Client Address
  unfolding make_srv_commitment
  build_client server hostname public_key version = record {
    server = server;
    hostname = hostname;
    validator = elim public_key [ none ↦ new_validator | some key ↦ new_with_key key ];
    public_key = public_key;
    srv_commit = elim public_key [ none ↦ none | some key ↦ some (make_srv_commitment key) ];
    protocol_version = version;
  }

module _ {Address : Type 0} where
  -- `nonce` is the one given, or a random one.
  unfoldable pub create_request : Client Address → FixedTag → Request
  unfolding new_request_draft08 new_request_draft14 new_request_draft14_srv
  create_request client nonce = elim client.protocol_version [
    | rfc_draft08 ↦ draft08 (new_request_draft08 nonce)
    | rfc_draft14 ↦ elim client.srv_commit [
      | some srv_commit ↦ draft14_srv (new_request_draft14_srv nonce srv_commit)
      | none ↦ draft14 (new_request_draft14 nonce)
    ]
  ]

unfoldable pub send_request : Request → Exchange → Reply (List ℕ)
unfolding as_frame_bytes
send_request request exchange = do
  request_bytes ← of_result (as_frame_bytes (Request.wire_size request) (Request.to_wire request))
  bytes_sent_count ← exchange.sent
  if not (bytes_sent_count == length request_bytes)
      then failure invalid_configuration
      else success request_bytes

module _ (sha512 : List ℕ → List ℕ) (verify : FixedTag → List ℕ → FixedTag → Bool) where
  -- Parsing and validation, as the versions need them.
  unfoldable pub parse_and_validate :
      ProtocolVersion → ResponseValidator → List ℕ → List ℕ → Reply Response
  unfolding parsed
  parse_and_validate rfc_draft08 validator request_bytes response_bytes = do
    response ← parsed (from_frame from_wire08 (new response_bytes))
    time ←
        of_verdict (validate_draft08 verify sha512 validator request_bytes response response_bytes)
    success (response_from_draft08 response)
  parse_and_validate rfc_draft14 validator request_bytes response_bytes = do
    response ← parsed (from_frame Response.from_wire (new response_bytes))
    time ←
        of_verdict (validate_draft14 verify sha512 validator request_bytes response response_bytes)
    success response

module _ (sha512 : List ℕ → List ℕ) (verify : FixedTag → List ℕ → FixedTag → Bool)
    {Address : Type 0} where
  unfoldable pub validate_response :
      Client Address → Request → List ℕ → List ℕ → Reply (Measurement Address)
  unfolding parse_and_validate
  validate_response client request request_bytes response_bytes = do
    response ←
        parse_and_validate sha512 verify client.protocol_version client.validator request_bytes
          response_bytes
    success (record {
      server = client.server;
      hostname = client.hostname;
      public_key = client.public_key;
      request = request;
      response = response;
      rand_value = none;
      prior_response = none;
    })

  -- The result of the validation, the bytes of the request, and those of the response, of which the buffer takes 1024.
  unfoldable pub query_raw :
      Client Address → FixedTag → Exchange → Reply (Reply (Measurement Address) × List ℕ × List ℕ)
  unfolding create_request send_request validate_response
  query_raw client random exchange = do
    let request = create_request client random
    request_bytes ← send_request request exchange
    received ← exchange.received
    let response_bytes = take 1024 received
    success (
      validate_response client request request_bytes response_bytes,
      request_bytes,
      response_bytes,
    )

  unfoldable pub query : Client Address → FixedTag → Exchange → Reply (Measurement Address)
  unfolding query_raw
  query client random exchange = query_raw client random exchange >>= λ result. result.0
