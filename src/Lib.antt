-- ===== src/Lib.antt =====
-- A verification library for Roughenough, a Roughtime client and server (draft 14 and draft 08).
--
-- A client sends a request with a nonce; the server collects requests in a Merkle tree, signs the
-- root together with its time, and answers each request with the path that proves it part of the
-- batch. The client checks the path, the signature and the certificate of the key that signed, and
-- chains its measurements of several servers.
--
-- Protocol (crates/roughenough-protocol/src)
--   Cursor        cursor.rs: the buffer with a position. A method is a function from the cursor to
--                 a result and the next cursor; Cursor/Reads, Writes and Total say what the methods do
--                 before known bytes, in a buffer with room, and on any bytes.
--   Error         error.rs, and `Result` with its three cases: a value, an error, a panic. Every
--                 slice out of range, failed assertion and subtraction below 0 is a panic.
--   Tag, Header   tag.rs and header.rs; `make_header_n` of n is the argument `n`.
--   Version       protocol_ver.rs and version_list.rs.
--   Tags          tags/*.rs: fixed tags, the message type, PATH, DELE and CERT, SREP.
--   Wire          wire.rs: frames, for any message type.
--   Request       request.rs: the three forms of requests.
--   Response      response.rs: the two forms of responses.
-- Merkle (crates/roughenough-merkle/src/lib.rs)
--   The tree with its levels as lists of hashes. Spec is the tree of the RFC by rows, Build shows
--   that the code builds it, Paths and Inclusion that the paths it gives prove their leaves, Binding
--   that nothing else can be proved.
-- Client (crates/roughenough-client/src, and crypto.rs of crates/roughenough-common/src)
--   Validation    validation.rs: the checks of a response. Checks, Accepts and Exact are about when a
--                 response is accepted, Safe about panics, Genuine and Forgery about the responses that
--                 a server makes, and that others can make.
--   Causality     validation.rs: the order of measurements in time.
--   Measurement   measurement.rs, without the conversion to a calendar date.
--   Query         client.rs and crypto.rs: one request and its response; Query/Total its outcomes.
--   Sequence      sequence.rs: rounds of queries with chained nonces.
-- Keys (crates/roughenough-keys/src, and keysource.rs of crates/roughenough-server/src)
--   longterm/identity.rs, online/onlinekey.rs and keysource.rs; Keys/Signing is about the responses that are signed,
--   Keys/Delegating about the certificates.
-- Server (crates/roughenough-server/src)
--   Metrics       metrics/types.rs; Metrics/Consistent the counts of batches.
--   Responses     responses.rs: the batch and its answers. Sends is about one answer, Batch about all of
--                 one signature, Served about `process_responses`.
--   Requests      requests.rs: a datagram is counted, parsed and added to the batch.
--   Network       network.rs: the loop that collects datagrams. Expected says which ones a socket gives,
--                 Steps is about one of them, Batches about the loop.
--   Worker        worker.rs: what a turn of its loops does, and metrics/aggregator.rs's `WorkerMetrics`.
-- Tests applies the theorems to concrete inputs.
--
-- A function keeps the name of the code's function, with the type before it where one module has
-- several. Numbers are natural numbers; a cast `as u32` of a number that can be too large is `% 2 ^ 32`,
-- and offsets that are sums of the sizes of values, all below 2 ^ 32, are plain sums. Bytes are
-- numbers, with `IsByte` where it matters that they are below 256.
--
-- SHA-512 is a parameter of the operations that use it; of it the theorems use that its output has 64
-- bytes. Ed25519 is a record of operations, with the sizes of keys and signatures and that a signature
-- verifies; the client's theorems take any function for the verification. Random bytes, generated key
-- pairs, the clock's time and what a socket gives are arguments. No theorem assumes that SHA-512 has no
-- collisions: where that matters the result is "or here is a collision".
--
-- The loop of `get_paths_to` runs on fuel, one more than there are levels, and panics when it runs out; the
-- loop of `compute_root` runs on fuel as well, as much as the tree has leaves, and panics when it
-- runs out. Results on both state that they return, so the fuel is enough. The other loops are
-- recursion on their list or on a number of rounds.
--
-- Assertions, debug assertions and overflow checks are those of a debug build: each that fails is a panic.
-- Counters of `usize` are natural numbers without a bound; the counts of batches are bytes.
--
-- Not modelled: sockets, threads, files, the command line, the services and files that store keys, the
-- list of servers, reports and the server that takes them, sums of metrics over workers, `Debug` and
-- other formatting.
pub mod Prelude
pub mod Protocol
pub mod Merkle
pub mod Client
pub mod Keys
pub mod Server
pub mod Tests
