-- ===== src/Client/Query/Total.antt =====
-- The datagrams that client.rs parses and validates, whatever is in them.
use roughenough.Prelude.{ℕ, ◌≡◌, ◌≢◌, refl, Bool, Option, List, All}
use roughenough.Prelude.Bytes.{IsByte}
use roughenough.Protocol.Error
use roughenough.Protocol.Error.{Result}
use roughenough.Protocol.Cursor.{ParseCursor, new}
use roughenough.Protocol.Cursor.Total.{Outcome, returns, refuses}
use roughenough.Protocol.Version.{ProtocolVersion, rfc_draft08, rfc_draft14}
use roughenough.Protocol.Wire.{from_frame}
use roughenough.Protocol.Tags.{FixedTag}
use roughenough.Protocol.Response
use roughenough.Protocol.Response.{Response}
use roughenough.Protocol.Response.Draft08.{from_wire08, response_from_draft08}
use roughenough.Protocol.Response.Total.{from_frame_response-Outcome, from_frame_response08-Outcome}
use roughenough.Client.Validation
use roughenough.Client.Validation.{Verdict, validate_draft08, validate_draft14}
use roughenough.Client.Validation.Safe.{validate_draft14-ne-crashed, validate_draft08-ne-crashed}
use roughenough.Client.Query.{broken, success, ◌>>=◌, of_verdict, parsed, parse_and_validate}

-- A parse that gives a value or an error, with a check of the value that does not panic.
checked-ne-broken :
    {A : Type 0} {P : A → Type 0} (r : Result (A × ParseCursor)) (cursor : ParseCursor)
    (check : A → Verdict ℕ) (finish : A → Response)
    → Outcome P cursor r
    → ((a : A) (c : ParseCursor) → r ≡ Error.ok (a, c) → check a ≢ Validation.crashed)
    → (parsed r >>= λ a. (of_verdict (check a) >>= λ time. success (finish a))) ≢ broken
unfolding parsed
checked-ne-broken _ cursor check finish (refuses e) h broke = cc
checked-ne-broken _ cursor check finish (returns a c accepted valid same) h broke =
    check_ne (check a) (h a c refl) broke
  where
    check_ne :
        (v : Verdict ℕ)
        → v ≢ Validation.crashed
        → (of_verdict v >>= λ time. success (finish a)) ≢ broken
    check_ne Validation.crashed k e = k refl
    check_ne (Validation.rejected x) k e = cc
    check_ne (Validation.accepted x) k e = cc

-- Whatever bytes a server sends, and whatever the request was, `validate_response` does not panic in either version, with or without
-- a key: it returns a response or an error.
pub parse_and_validate-ne-broken :
    (sha512 : List ℕ → List ℕ) (verify : FixedTag → List ℕ → FixedTag → Bool)
    (version : ProtocolVersion) (key : Option FixedTag) (request datagram : List ℕ)
    → All IsByte datagram
    → parse_and_validate sha512 verify version (record { pub_key = key }) request datagram ≢ broken
unfolding parse_and_validate
parse_and_validate-ne-broken sha512 verify rfc_draft08 key request datagram octets =
    checked-ne-broken (from_frame from_wire08 (new datagram)) (new datagram)
      (λ r. validate_draft08 verify sha512 (record { pub_key = key }) request r datagram)
      response_from_draft08 (from_frame_response08-Outcome datagram octets)
      (λ r c e.
        validate_draft08-ne-crashed verify sha512 key request datagram datagram r c octets e)
parse_and_validate-ne-broken sha512 verify rfc_draft14 key request datagram octets =
    checked-ne-broken (from_frame Response.from_wire (new datagram)) (new datagram)
      (λ r. validate_draft14 verify sha512 (record { pub_key = key }) request r datagram) (λ r. r)
      (from_frame_response-Outcome datagram octets)
      (λ r c e.
        validate_draft14-ne-crashed verify sha512 key request datagram datagram r c octets e)
