-- ===== src/Client/Measurement.antt =====
-- crates/roughenough-client/src/measurement.rs: the results of exchanges with servers.
-- The type of socket addresses is a parameter. Texts are lists of bytes.
use roughenough.Prelude.{ℕ, Option, none, some, List, codes}
use roughenough.Protocol.Tags.{FixedTag}
use roughenough.Protocol.Request.{Request}
use roughenough.Protocol.Response.{Response}

pub record Measurement (Address : Type 0) : Type 0 where
  pub server : Address
  pub hostname : List ℕ
  pub public_key : Option FixedTag
  pub request : Request
  pub response : Response
  pub rand_value : Option (List ℕ)
  pub prior_response : Option Response

pub record MeasurementBuilder (Address : Type 0) : Type 0 where
  pub server : Option Address
  pub hostname : Option (List ℕ)
  pub public_key : Option FixedTag
  pub request : Option Request
  pub response : Option Response
  pub rand_value : Option (List ℕ)
  pub prior_response : Option Response

-- The fields that a builder must have, and the error that names a missing one.
pub data Missing : Type 0 where
  missing_server missing_request missing_response : Missing

pub data Built (Address : Type 0) : Type 0 where
  invalid_configuration : Missing → Built Address
  built : Measurement Address → Built Address

module _ {Address : Type 0} where
  unfoldable pub new_builder : MeasurementBuilder Address
  new_builder = record {
    server = none;
    hostname = none;
    public_key = none;
    request = none;
    response = none;
    rand_value = none;
    prior_response = none;
  }

  unfoldable pub build : MeasurementBuilder Address → Built Address
  build b = elim b.server [
    | none ↦ invalid_configuration missing_server
    | some server ↦ elim b.request [
      | none ↦ invalid_configuration missing_request
      | some request ↦ elim b.response [
        | none ↦ invalid_configuration missing_response
        | some response ↦ built (record {
          server = server;
          hostname = elim b.hostname [ none ↦ codes "unknown" | some name ↦ name ];
          public_key = b.public_key;
          request = request;
          response = response;
          rand_value = b.rand_value;
          prior_response = b.prior_response;
        })
      ]
    ]
  ]

  unfoldable pub midpoint : Measurement Address → ℕ
  midpoint m = m.response.srep.midpoint

  unfoldable pub radius : Measurement Address → ℕ
  radius m = m.response.srep.radius
