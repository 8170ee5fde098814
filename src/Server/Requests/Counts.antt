-- ===== src/Server/Requests/Counts.antt =====
-- What `collect_request` of requests.rs does with any datagram.
use roughenough.Prelude.{
  ℕ, ◌+◌, ◌<◌, ◌≡◌, refl, ap, sym, List, [], ◌∷◌, ◌++◌, length, ltb, arith, All, lt→ltb, map,
  length-append, Bool-cases, inl, inr, ltb→lt, not_ltb→le, ◌∙◌,
}
use roughenough.Prelude.Bytes.{IsByte}
use roughenough.Protocol.Error.{bind_ok, Error, Result, ok, err, panic, ◌>>=◌}
use roughenough.Protocol.Cursor.{ParseCursor, new}
use roughenough.Protocol.Cursor.Total.{Outcome, returns, refuses}
use roughenough.Protocol.Wire.{from_frame}
use roughenough.Protocol.Request.{Request, from_wire, nonc}
use roughenough.Protocol.Version.{ProtocolVersion, rfc_draft08, rfc_draft14}
use roughenough.Protocol.Request.Total.{IsAccepted, from_frame_request-Outcome}
use roughenough.Merkle.{MerkleTree, Hash, push_leaf, hash_leaf}
use roughenough.Keys.{Ed25519}
use roughenough.Server.Metrics.{RequestMetrics}
use roughenough.Server.Responses.{ResponseHandler, leaf_data, add_request}
use roughenough.Server.Responses.Batch.{IsBatch}
use roughenough.Server.Requests.{
  RequestHandler, count_runt, count_jumbo, count_bad, count_ok, collect_request,
}

-- How many datagrams were counted, one way or another.
unfoldable pub total : RequestMetrics → ℕ
total m = m.num_ok_requests + m.num_bad_requests + m.num_runt_requests + m.num_jumbo_requests

map_snoc {ℓ κ} :
    {A : Type ℓ} {B : Type κ} (f : A → B) (xs : List A) (x : A)
    → map f (xs ++ (x ∷ [])) ≡ map f xs ++ (f x ∷ [])
map_snoc f [] x = refl
map_snoc f (y ∷ xs) x = ap (λ ys. f y ∷ ys) (map_snoc f xs x)

module _ (ed : Ed25519) (Address : Type 0) (sha512 : List ℕ → List ℕ) where
  -- The text of a request: its datagram in draft 14, its nonce in draft 08.
  unfoldable pub text_of : ProtocolVersion → List ℕ → Request → List ℕ
  text_of rfc_draft08 datagram request = nonc request
  text_of rfc_draft14 datagram request = datagram

  -- The handler with one request more, for a tree whose leaves are the hashes of `texts`, and nothing else of it changed.
  unfoldable pub with_request :
      Request
      → Address
      → List (List ℕ)
      → List (List Hash)
      → ResponseHandler ed Address
      → ResponseHandler ed Address
  with_request request addr texts above h = record h {
    merkle_tree = record { levels = map (hash_leaf sha512) texts ∷ above };
    requests = h.requests ++ (record { request = request; src_addr = addr } ∷ []);
  }

  -- What a datagram must do to a handler whose batch has these texts under these levels: the handler it leaves, and the
  -- texts of the batch.
  pub data Collected (h : RequestHandler ed Address) (texts : List (List ℕ))
      (above : List (List Hash)) (datagram : List ℕ) (addr : Address)
      : Result (RequestHandler ed Address) → List (List ℕ) → Type 0 where
    runt :
        length datagram < 1024
        → Collected h texts above datagram addr
            (ok (record h {
              metrics = record h.metrics { num_runt_requests = h.metrics.num_runt_requests + 1 };
            }))
            texts
    jumbo :
        1024 < length datagram
        → Collected h texts above datagram addr
            (ok (record h {
              metrics = record h.metrics { num_jumbo_requests = h.metrics.num_jumbo_requests + 1 };
            }))
            texts
    bad :
        (e : Error)
        → length datagram ≡ 1024
        → from_frame from_wire (new datagram) ≡ err e
        → Collected h texts above datagram addr
            (ok (record h {
              metrics = record h.metrics { num_bad_requests = h.metrics.num_bad_requests + 1 };
            }))
            texts
    collected :
        (request : Request) (c : ParseCursor)
        → length datagram ≡ 1024
        → from_frame from_wire (new datagram) ≡ ok (request, c)
        → IsAccepted request
        → Collected h texts above datagram addr
            (ok (record {
              responder =
                  with_request request addr
                    (texts ++ (text_of h.responder.protocol_version datagram request ∷ []))
                    above
                    h.responder;
              metrics = record h.metrics { num_ok_requests = h.metrics.num_ok_requests + 1 };
            }))
            (texts ++ (text_of h.responder.protocol_version datagram request ∷ []))

  leaf_data-text_of :
      (version : ProtocolVersion) (datagram : List ℕ) (request : Request)
      → leaf_data ed Address sha512 version datagram request ≡ text_of version datagram request
  unfolding leaf_data text_of
  leaf_data-text_of rfc_draft08 datagram request = refl
  leaf_data-text_of rfc_draft14 datagram request = refl

  -- The batch with a request more.
  unfoldable pub batch_with :
      (request : Request) (addr : Address) (text : List ℕ) (h : ResponseHandler ed Address)
      (b : IsBatch ed Address sha512 h)
      → length h.requests < h.batch_size
      → IsBatch ed Address sha512 (with_request request addr (b.texts ++ (text ∷ [])) b.above h)
  unfolding with_request
  batch_with request addr text h b room = record {
    texts = b.texts ++ (text ∷ []);
    above = b.above;
    levels = refl;
    paired = omega (
      arith,
      b.paired,
      length-append b.texts (text ∷ []),
      length-append h.requests (record { request = request; src_addr = addr } ∷ []),
    );
    within = omega (
      arith,
      room,
      length-append h.requests (record { request = request; src_addr = addr } ∷ []),
    );
  }

  add_request-run :
      (request : Request) (datagram : List ℕ) (addr : Address) (h : ResponseHandler ed Address)
      (b : IsBatch ed Address sha512 h)
      → length h.requests < h.batch_size
      → add_request ed Address sha512 datagram request addr h
        ≡ ok (
            with_request request addr
              (b.texts ++ (text_of h.protocol_version datagram request ∷ []))
              b.above
              h)
  unfolding add_request push_leaf with_request
  add_request-run request datagram addr h b room =
      let text : List ℕ = leaf_data ed Address sha512 h.protocol_version datagram request in
      let tree : MerkleTree = record {
        levels = (map (hash_leaf sha512) b.texts ++ (hash_leaf sha512 text ∷ [])) ∷ b.above;
      } in
      rw (lt→ltb (length h.requests) h.batch_size room) (
        bind_ok (push_leaf sha512 h.merkle_tree text) _ tree
          (ap (λ t. push_leaf sha512 t text) b.levels)
        ∙ ap
            (λ row. ok (record h {
              merkle_tree = record { levels = row ∷ b.above };
              requests = h.requests ++ (record { request = request; src_addr = addr } ∷ []);
            }))
            (sym (map_snoc (hash_leaf sha512) b.texts text)
              ∙ ap (λ t. map (hash_leaf sha512) (b.texts ++ (t ∷ [])))
                  (leaf_data-text_of h.protocol_version datagram request)))

  -- A datagram of the right size.
  parsed-Collected :
      (datagram : List ℕ) (addr : Address) (h : RequestHandler ed Address)
      (b : IsBatch ed Address sha512 h.responder)
      → length datagram ≡ 1024
      → length h.responder.requests < h.responder.batch_size
      → (r : Result (Request × ParseCursor)) → from_frame from_wire (new datagram) ≡ r
      → Outcome IsAccepted (new datagram) r
      → (texts : List (List ℕ)) × Collected h b.texts b.above datagram addr
          (elim r [
            | ok (request, c) ↦
                (add_request ed Address sha512 datagram request addr h.responder >>= λ responder.
                ok (count_ok ed Address responder h))
            | err e ↦ ok (count_bad ed Address h)
            | panic ↦ panic
          ])
          texts
  unfolding count_ok count_bad
  parsed-Collected datagram addr h b size room _ run (returns request c accepted valid same) = (
    b.texts ++ (text_of h.responder.protocol_version datagram request ∷ []),
    rw (add_request-run request datagram addr h.responder b room)
        (collected request c size run accepted),
  )
  parsed-Collected datagram addr h b size room _ run (refuses e) = (b.texts, bad e size run)

  -- On any datagram, while the batch is not full, `collect_request` does not panic and does exactly one of four things. A datagram of
  -- less than 1024 bytes is counted as a runt, a longer one as a jumbo, one of 1024 bytes that does not parse as a bad
  -- one: that one counter grows by 1, and nothing else changes. One of 1024 bytes that parses is counted as a good one:
  -- its request, with the address that it came from, becomes the last of the batch, and the hash of its text the last leaf
  -- of the tree; the text is the datagram in draft 14 and the nonce in draft 08.
  pub collect_request-Collected :
      (datagram : List ℕ) (addr : Address) (h : RequestHandler ed Address)
      (b : IsBatch ed Address sha512 h.responder)
      → All IsByte datagram
      → length h.responder.requests < h.responder.batch_size
      → (texts : List (List ℕ)) × Collected h b.texts b.above datagram addr
          (collect_request ed Address sha512 datagram addr h)
          texts
  unfolding collect_request count_runt count_jumbo
  collect_request-Collected datagram addr h b octets room =
      elim (Bool-cases (ltb (length datagram) 1024)) [
        | inl short ↦ (b.texts, rw short (runt (ltb→lt (length datagram) 1024 short)))
        | inr enough ↦ elim (Bool-cases (ltb 1024 (length datagram))) [
          | inl long ↦ (b.texts, rw (enough, long) (jumbo (ltb→lt 1024 (length datagram) long)))
          | inr fits ↦
              rw (enough, fits)
                (parsed-Collected datagram addr h b
                  (omega (
                    arith,
                    not_ltb→le (length datagram) 1024 enough,
                    not_ltb→le 1024 (length datagram) fits,
                  ))
                  room (from_frame from_wire (new datagram)) refl
                  (from_frame_request-Outcome datagram octets))
        ]
      ]
