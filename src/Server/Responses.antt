-- ===== src/Server/Responses.antt =====
-- crates/roughenough-server/src/responses.rs: the batch of requests that wait for an answer, and the answers.
-- SHA-512, Ed25519 signatures and the type of socket addresses are parameters; the time that the clock gives and a key
-- pair that is generated are arguments. The calls of `callback` are the list of what it is called with.
pub mod Sends
pub mod Batch
pub mod Served
use roughenough.Prelude.{
  ℕ, ◌+◌, ◌%◌, ◌^◌, Bool, true, false, List, [], ◌∷◌, ◌++◌, length, is_empty, take, replicate, ltb,
  if◌then◌else◌,
}
use roughenough.Protocol.Error.{Result, ok, err, panic, assert, ◌>>=◌, ◌>>◌}
use roughenough.Protocol.Cursor.{Action, ParseCursor, new}
use roughenough.Protocol.Version.{ProtocolVersion, rfc_draft08, rfc_draft14}
use roughenough.Protocol.Wire.{frame_size, to_frame}
use roughenough.Protocol.Tags.{FixedTag}
use roughenough.Protocol.Tags.Path.{MerklePath, new_path, clear_path}
use roughenough.Protocol.Request.{Request, nonc}
use roughenough.Protocol.Response
use roughenough.Protocol.Response.{
  Response, default_response, set_sig, set_nonc, set_srep, set_cert, set_indx, copy_path,
}
use roughenough.Protocol.Response.Draft08.{
  ResponseDraft08, default_response08, set_sig08, set_srep08, set_cert08, set_indx08, copy_path08,
  wire_size08, to_wire08,
}
use roughenough.Merkle.{
  MerkleTree, Hash, new_tree, reserve, clear, push_leaf, compute_root, get_paths_to,
}
use roughenough.Keys.{
  Ed25519, expect_ok, OnlineKeyDraft14, OnlineKeyDraft08, cert14, cert08, make_srep14, make_srep08,
  KeySource, make_online_key_draft14, make_online_key_draft08,
}
use roughenough.Server.Metrics.{
  ResponseMetrics, default_response_metrics, add_batch_size, add_bytes_sent, reset_metrics,
}

abbrev pub response_buf_size : ℕ
response_buf_size = 1024

-- What is used up and written again while responses are sent.
pub record Sending : Type 0 where
  pub merkle_path : MerklePath
  pub response_metrics : ResponseMetrics
  pub response_buf : List ℕ

-- `to_frame` into the buffer, the count of the bytes, and `&self.response_buf[..frame_size]`.
unfoldable pub send_frame : ℕ → Action (Unit {0}) → Sending → Result (List ℕ × Sending)
unfolding to_frame expect_ok frame_size add_bytes_sent
send_frame wire_size to_wire s = do
  (u, cursor) ← expect_ok (to_frame wire_size to_wire (new s.response_buf))
  let size = frame_size wire_size
  let s' = record s {
    response_metrics = add_bytes_sent size s.response_metrics;
    response_buf = cursor.bytes;
  }
  if ltb (length cursor.bytes) size then panic else ok (take size cursor.bytes, s')

-- `clear` and `get_paths_to` for the leaf of one request.
unfoldable pub find_path : MerkleTree → ℕ → Sending → Result Sending
unfolding clear_path get_paths_to
find_path tree idx s = do
  path ← get_paths_to tree idx (clear_path s.merkle_path)
  ok (record s { merkle_path = path })

-- The response to the request at a place.
unfoldable pub respond14 : Response → MerklePath → ℕ → Request → Response
unfolding copy_path set_nonc nonc set_indx
respond14 common path idx request =
    set_indx (idx % 2 ^ 32) (set_nonc (nonc request) (copy_path path common))

unfoldable pub respond08 : ResponseDraft08 → MerklePath → ℕ → ResponseDraft08
unfolding copy_path08 set_indx08
respond08 common path idx = set_indx08 (idx % 2 ^ 32) (copy_path08 path common)

module _ (ed : Ed25519) (Address : Type 0) where
  pub data OnlineKey : Type 0 where
    draft14_key : OnlineKeyDraft14 ed → OnlineKey
    draft08_key : OnlineKeyDraft08 ed → OnlineKey

  pub record PendingRequest : Type 0 where
    pub request : Request
    pub src_addr : Address

  -- The fields of `Sending` are fields of the handler itself in the code.
  pub record ResponseHandler : Type 0 where
    pub batch_size : ℕ
    pub merkle_tree : MerkleTree
    pub sending : Sending
    pub key_source : KeySource
    pub online_key : OnlineKey
    pub requests : List PendingRequest
    pub protocol_version : ProtocolVersion

  unfoldable pub make_online_key : ProtocolVersion → KeySource → ℕ → ed.KeyPair → Result OnlineKey
  unfolding make_online_key_draft14 make_online_key_draft08
  make_online_key rfc_draft08 source now signer =
      make_online_key_draft08 ed source now signer >>= λ key. ok (draft08_key key)
  make_online_key rfc_draft14 source now signer =
      make_online_key_draft14 ed source now signer >>= λ key. ok (draft14_key key)

  unfoldable pub new_handler :
      ℕ → KeySource → ProtocolVersion → ℕ → ed.KeyPair → Result ResponseHandler
  unfolding make_online_key default_response_metrics reserve
  new_handler batch_size source version now signer = do
    key ← make_online_key version source now signer
    ok (record {
      batch_size = batch_size;
      merkle_tree = reserve batch_size new_tree;
      sending = record {
        merkle_path = new_path;
        response_metrics = default_response_metrics;
        response_buf = replicate response_buf_size 0;
      };
      key_source = source;
      online_key = key;
      requests = [];
      protocol_version = version;
    })

  unfoldable pub replace_online_key : ℕ → ed.KeyPair → ResponseHandler → Result ResponseHandler
  unfolding make_online_key
  replace_online_key now signer h = do
    key ← make_online_key h.protocol_version h.key_source now signer
    ok (record h { online_key = key })

  unfoldable pub public_key : ResponseHandler → FixedTag
  public_key h = elim h.online_key [
    | draft14_key key ↦ ed.public_key key.signer
    | draft08_key key ↦ ed.public_key key.signer
  ]

  unfoldable pub clear_handler : ResponseHandler → ResponseHandler
  unfolding clear
  clear_handler h = record h { merkle_tree = clear h.merkle_tree; requests = [] }

  unfoldable pub reset_handler_metrics : ResponseHandler → ResponseHandler
  unfolding reset_metrics
  reset_handler_metrics h = record h {
    sending = record h.sending { response_metrics = reset_metrics h.sending.response_metrics };
  }

  module _ (sha512 : List ℕ → List ℕ) where
    -- What a request's leaf hashes.
    unfoldable pub leaf_data : ProtocolVersion → List ℕ → Request → List ℕ
    unfolding nonc
    leaf_data rfc_draft08 request_bytes request = nonc request
    leaf_data rfc_draft14 request_bytes request = request_bytes

    unfoldable pub add_request :
        List ℕ → Request → Address → ResponseHandler → Result ResponseHandler
    unfolding leaf_data push_leaf
    add_request request_bytes request src_addr h = do
      assert (ltb (length h.requests) h.batch_size)
      tree ← push_leaf sha512 h.merkle_tree (leaf_data h.protocol_version request_bytes request)
      ok (record h {
        merkle_tree = tree;
        requests = h.requests ++ (record { request = request; src_addr = src_addr } ∷ []);
      })

  -- The loops over the requests from place `idx` on.
  unfoldable pub send_all14 :
      MerkleTree
      → Response
      → ℕ
      → List PendingRequest
      → Sending
      → Result (List (Address × List ℕ) × Sending)
  unfolding find_path respond14 send_frame
  send_all14 tree common idx [] s = ok ([], s)
  send_all14 tree common idx (pending ∷ requests) s = do
    s₁ ← find_path tree idx s
    let response = respond14 common s₁.merkle_path idx pending.request
    (bytes, s₂) ← send_frame (Response.wire_size response) (Response.to_wire response) s₁
    (sent, s₃) ← send_all14 tree common (idx + 1) requests s₂
    ok ((pending.src_addr, bytes) ∷ sent, s₃)

  unfoldable pub send_all08 :
      MerkleTree
      → ResponseDraft08
      → ℕ
      → List PendingRequest
      → Sending
      → Result (List (Address × List ℕ) × Sending)
  unfolding find_path respond08 send_frame
  send_all08 tree common idx [] s = ok ([], s)
  send_all08 tree common idx (pending ∷ requests) s = do
    s₁ ← find_path tree idx s
    let response = respond08 common s₁.merkle_path idx
    (bytes, s₂) ← send_frame (wire_size08 response) (to_wire08 response) s₁
    (sent, s₃) ← send_all08 tree common (idx + 1) requests s₂
    ok ((pending.src_addr, bytes) ∷ sent, s₃)

  unfoldable pub common14 : OnlineKeyDraft14 ed → Hash → ℕ → Result (Response × OnlineKeyDraft14 ed)
  unfolding cert14 make_srep14 set_cert set_srep set_sig default_response
  common14 key merkle_root now = do
    cert ← cert14 ed key
    (srep, sig, key') ← make_srep14 ed merkle_root now key
    ok (set_sig sig (set_srep srep (set_cert cert default_response)), key')

  unfoldable pub process_responses_draft14 :
      Hash → ℕ → ResponseHandler → Result (List (Address × List ℕ) × ResponseHandler)
  unfolding common14 send_all14
  process_responses_draft14 merkle_root now h = elim h.online_key [
    | draft14_key key ↦ do
      (common, key') ← common14 key merkle_root now
      (sent, sending) ← send_all14 h.merkle_tree common 0 h.requests h.sending
      ok (sent, record h { online_key = draft14_key key'; sending = sending })
    | draft08_key key ↦ panic
  ]

  unfoldable pub common08 :
      OnlineKeyDraft08 ed → Hash → ℕ → Result (ResponseDraft08 × OnlineKeyDraft08 ed)
  unfolding cert08 make_srep08 set_cert08 set_srep08 set_sig08 default_response08
  common08 key merkle_root now = do
    cert ← cert08 ed key
    (srep, sig, key') ← make_srep08 ed merkle_root now key
    ok (set_sig08 sig (set_srep08 srep (set_cert08 cert default_response08)), key')

  unfoldable pub process_responses_draft08 :
      Hash → ℕ → ResponseHandler → Result (List (Address × List ℕ) × ResponseHandler)
  unfolding common08 send_all08
  process_responses_draft08 merkle_root now h = elim h.online_key [
    | draft14_key key ↦ panic
    | draft08_key key ↦ do
      (common, key') ← common08 key merkle_root now
      (sent, sending) ← send_all08 h.merkle_tree common 0 h.requests h.sending
      ok (sent, record h { online_key = draft08_key key'; sending = sending })
  ]

  unfoldable pub process_version :
      ProtocolVersion
      → Hash
      → ℕ
      → ResponseHandler
      → Result (List (Address × List ℕ) × ResponseHandler)
  unfolding process_responses_draft08 process_responses_draft14
  process_version rfc_draft08 merkle_root now h = process_responses_draft08 merkle_root now h
  process_version rfc_draft14 merkle_root now h = process_responses_draft14 merkle_root now h

  -- What `callback` is called with, and the handler behind it. `self.requests.len() as u8` wraps.
  unfoldable pub process_responses :
      (List ℕ → List ℕ) → ℕ → ResponseHandler → Result (List (Address × List ℕ) × ResponseHandler)
  unfolding add_batch_size compute_root process_version
  process_responses sha512 now h = elim (is_empty h.requests) [
    | true ↦ ok ([], h)
    | false ↦ do
      metrics ← add_batch_size (length h.requests % 2 ^ 8) h.sending.response_metrics
      (tree, root_hash) ← compute_root sha512 h.merkle_tree
      process_version h.protocol_version root_hash now (record h {
        merkle_tree = tree;
        sending = record h.sending { response_metrics = metrics };
      })
  ]
