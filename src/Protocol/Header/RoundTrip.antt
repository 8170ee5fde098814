-- ===== src/Protocol/Header/RoundTrip.antt =====
-- Headers of header.rs through `to_wire` and back through `from_wire`, and any bytes through `from_wire`.
use roughenough.Prelude.{ℕ, ◌^◌, ◌<◌, ◌≡◌, List, [], length}
use roughenough.Protocol.Error.{ok}
use roughenough.Protocol.Cursor.{ParseCursor, new}
use roughenough.Protocol.Cursor.Total.{IsValid, Outcome}
use roughenough.Protocol.Wire.{as_bytes}
use roughenough.Protocol.Wire.Frame.{as_bytes-Writes, Parses-whole}
use roughenough.Protocol.Header.{Header, wire_size, to_wire, from_wire}
use roughenough.Protocol.Header.Spec.{IsWellFormed, encode, length-encode}
use roughenough.Protocol.Header.Reads.{from_wire-encode}
use roughenough.Protocol.Header.Writes.{to_wire-encode}
use roughenough.Protocol.Header.Total.{from_wire-Total}

-- A well-formed header of `n` tags, `n` being positive and a 32-bit word, is written as `8 * n` bytes,
-- and `from_wire` reads it back from them, and reads all of them. The offsets of a well-formed header ascend, and so do its tags,
-- none of them INVALID; both may repeat, although RFC section 4.2 forbids it for tags.
pub from_wire-to_wire :
    (n : ℕ) (header : Header)
    → 0 < n
    → n < 2 ^ 32
    → IsWellFormed n header
    → (bytes : List ℕ) × (as_bytes (wire_size n) (to_wire n header) ≡ ok bytes)
      × (length bytes ≡ wire_size n)
      × (from_wire n (new bytes) ≡ ok (header, record { bytes = bytes; position = wire_size n }))
from_wire-to_wire n header pos small wf =
    let size : length (encode n header) ≡ wire_size n =
      length-encode n header pos wf.num_offsets wf.num_tags in
    (
      encode n header,
      as_bytes-Writes (wire_size n) (to_wire-encode n header pos wf.num_offsets wf.num_tags) size,
      size,
      Parses-whole (wire_size n) (encode n header) (from_wire-encode n header [] pos small wf) size,
    )

-- On any cursor within a buffer of bytes `from_wire` does not panic. It gives an error, or a
-- well-formed header: as many tags as it is asked for, in order, none of them INVALID, and one
-- offset less, in order, each a multiple of four.
pub from_wire_header-Outcome :
    (n : ℕ) (c : ParseCursor) → IsValid c → Outcome (IsWellFormed n) c (from_wire n c)
from_wire_header-Outcome n c v = (from_wire-Total n).at c v
