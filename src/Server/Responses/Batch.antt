-- ===== src/Server/Responses/Batch.antt =====
-- A batch of requests in responses.rs, and the responses that clients accept.
use roughenough.Prelude.{
  ℕ, zero, suc, ◌+◌, ◌%◌, ◌^◌, ◌≤◌, ◌<◌, ◌≡◌, refl, ap, ◌∙◌, sym, true, some, List, [], ◌∷◌, ◌++◌,
  length, drop, map, arith, All, length-map,
}
use roughenough.Protocol.Error.{bind_ok, ok}
use roughenough.Protocol.Cursor.{ParseCursor, new}
use roughenough.Protocol.Version.{is_supported, srep_prefix}
use roughenough.Protocol.Wire.{from_frame}
use roughenough.Protocol.Tags.{FixedTag, nonce_size, signature_size}
use roughenough.Protocol.Tags.Path.{MerklePath, clear_path}
use roughenough.Protocol.Tags.Path.Elements
use roughenough.Protocol.Tags.Dele.{Certificate}
use roughenough.Protocol.Tags.Dele.Made as DeleMade
use roughenough.Protocol.Tags.Srep.{SignedResponse, srep_wire_size}
use roughenough.Protocol.Tags.Srep.Made as SrepMade
use roughenough.Protocol.Tags.Srep.Made.{srep_bytes}
use roughenough.Protocol.Request.{nonc}
use roughenough.Protocol.Response.{Response, from_wire, wire_size, to_wire}
use roughenough.Protocol.Response.RoundTrip.{IsMade}
use roughenough.Merkle.{MerkleTree, Hash, hash_leaf, get_paths_to, root_from_paths}
use roughenough.Merkle.Spec.{build, height, root_of}
use roughenough.Merkle.Paths.{height-le}
use roughenough.Merkle.Inclusion.{leaf_at, get_paths_to-batch}
use roughenough.Client.Validation.{accepted, validate_draft14}
use roughenough.Client.Validation.Accepts.{Certifies, IsInSpan}
use roughenough.Client.Validation.Genuine.{packet, validate-made}
use roughenough.Keys.{Ed25519}
use roughenough.Server.Responses.{
  Sending, PendingRequest, ResponseHandler, send_frame, find_path, respond14, send_all14,
}
use roughenough.Server.Responses.Sends.{
  IsReady, send_frame-made, common, respond14-IsMade, respond14-path, respond14-fits,
}

drop-suc :
    (i : ℕ) (all : List (List ℕ)) (x : List ℕ) → drop (suc i + 1) (x ∷ all) ≡ drop (i + 1) all
drop-suc i all x = ap (λ k. drop k (x ∷ all)) same
  where
    same : suc i + 1 ≡ suc (i + 1)
    same = omega arith

drop-leaf_at :
    (all : List (List ℕ)) (i : ℕ) (t : List ℕ) (ts : List (List ℕ))
    → drop i all ≡ t ∷ ts
    → (i < length all) × (leaf_at all i ≡ t) × (drop (i + 1) all ≡ ts)
unfolding leaf_at
drop-leaf_at [] zero t ts h = cc
drop-leaf_at [] (suc i) t ts h = cc
drop-leaf_at (x ∷ all) zero t ts h = (omega arith, cc, cc)
drop-leaf_at (x ∷ all) (suc i) t ts h =
    let (lt, same, next) = drop-leaf_at all i t ts h in
    (omega (arith, lt), same, drop-suc i all x ∙ next)

module _ (ed : Ed25519) (Address : Type 0) (sha512 : List ℕ → List ℕ) where
  -- The tree holds a leaf for each request of the batch, the hash of a text of that request.
  pub record IsBatch (h : ResponseHandler ed Address) : Type 0 where
    pub texts : List (List ℕ)
    pub above : List (List Hash)
    pub levels : h.merkle_tree ≡ record { levels = map (hash_leaf sha512) texts ∷ above }
    pub paired : length texts ≡ length h.requests
    pub within : length h.requests ≤ h.batch_size

  -- What a client that knows the server's long-term key makes of a datagram sent to it.
  pub record IsAnswer (identity : FixedTag) (time : ℕ) (text : List ℕ)
      (pending : PendingRequest ed Address) (sent : Address × List ℕ) : Type 0 where
    pub addressed : sent.0 ≡ pending.src_addr
    pub read : Response
    pub end : ParseCursor
    pub parsed : from_frame from_wire (new sent.1) ≡ ok (read, end)
    pub validated :
        validate_draft14 ed.verify sha512 (record { pub_key = some identity }) text read sent.1
        ≡ accepted time
    pub echoed : read.nonce ≡ nonc pending.request

  -- One datagram for each request, in order.
  pub data Answers (identity : FixedTag) (time : ℕ)
      : List (List ℕ) → List (PendingRequest ed Address) → List (Address × List ℕ) → Type 0 where
    no_more : Answers identity time [] [] []
    answer :
        (text : List ℕ) (pending : PendingRequest ed Address) (sent : Address × List ℕ)
        (texts : List (List ℕ)) (requests : List (PendingRequest ed Address))
        (more : List (Address × List ℕ))
        → IsAnswer identity time text pending sent
        → Answers identity time texts requests more
        → Answers identity time (text ∷ texts) (pending ∷ requests) (sent ∷ more)

  module _ (identity : FixedTag) (time : ℕ) (srep : SignedResponse) (sig : FixedTag)
      (cert : Certificate) (srep_made : SrepMade.IsMade srep) (sized : srep_wire_size srep ≡ 92)
      (signed : length sig ≡ signature_size) (cert_made : DeleMade.IsMade cert)
      (at_time : srep.midpoint ≡ time)
      (certified : Certifies ed.verify (some identity) cert srep.version)
      (listed : is_supported srep.supported_versions srep.version ≡ true)
      (span : IsInSpan srep.midpoint srep.radius cert.delegation)
      (good : ed.verify cert.delegation.public_key (srep_prefix srep.version ++ srep_bytes srep) sig
        ≡ true) where
    -- One response, for a path that proves its request.
    one_response :
        (text : List ℕ) (pending : PendingRequest ed Address) (idx : ℕ) (path : MerklePath)
        (s : Sending)
        → length (nonc pending.request) ≡ nonce_size
        → idx < 2 ^ 32
        → Elements.IsValid path
        → path.num_paths ≤ 19
        → root_from_paths sha512 idx text path ≡ srep.merkle_root
        → IsReady s
        → let r : Response = respond14 (common srep sig cert) path idx pending.request in
          (bytes : List ℕ) × (s' : Sending) × (send_frame (wire_size r) (to_wire r) s
            ≡ ok (bytes, s'))
          × IsReady s'
          × IsAnswer identity time text pending (pending.src_addr, bytes)
    unfolding respond14 common
    one_response text pending idx path s nonced small valid shallow proved ready =
        let r : Response = respond14 (common srep sig cert) path idx pending.request in
        let m : IsMade r =
          respond14-IsMade srep sig cert path idx pending.request srep_made signed cert_made valid
            small nonced in
        let (s', run, ready') =
          send_frame-made r m s
            (respond14-fits srep sig cert path idx pending.request srep_made signed cert_made valid
              small nonced shallow sized)
            ready in
        let whole : idx % 2 ^ 32 ≡ idx = omega (arith, small) in
        let (read, end, parsed, validated, echoed) =
          validate-made r m ed.verify sha512 (some identity) text certified listed span
            (ap (λ i. root_from_paths sha512 i text r.path) whole
              ∙ respond14-path srep sig cert path idx pending.request srep_made signed cert_made
                  valid small nonced sha512 text
              ∙ proved)
            good in
        (
          packet r m,
          s',
          run,
          ready',
          record {
            addressed = refl;
            read = read;
            end = end;
            parsed = parsed;
            validated = validated ∙ ap (λ t. accepted t) at_time;
            echoed = echoed;
          },
        )

    module _ (above : List (List Hash)) (first : List ℕ) (rest : List (List ℕ))
        (few : length (first ∷ rest) ≤ 64)
        (digest_len : (message : List ℕ) → length (sha512 message) ≡ 64)
        (rooted : srep.merkle_root
          ≡ root_of sha512
              (length (map (hash_leaf sha512) (first ∷ rest)))
              (map (hash_leaf sha512) (first ∷ rest))) where
      unfoldable pub tree : MerkleTree
      tree = record {
        levels =
            build sha512 (length (map (hash_leaf sha512) (first ∷ rest)))
              (map (hash_leaf sha512) (first ∷ rest)) above;
      }

      -- The path for the request at a place.
      find :
          (idx : ℕ) (s : Sending)
          → idx < length (first ∷ rest)
          → IsReady s
          → (s' : Sending) × (find_path tree idx s ≡ ok s')
            × IsReady s'
            × (s'.merkle_path.num_paths ≤ 19)
            × (root_from_paths sha512 idx (leaf_at (first ∷ rest) idx) s'.merkle_path
                ≡ srep.merkle_root)
      unfolding find_path tree clear_path
      find idx s hi ready =
          let start : MerklePath = clear_path s.merkle_path in
          let (path, run, proved, valid, count) =
            get_paths_to-batch sha512 digest_len above first rest idx start hi (omega arith)
              (record { fits = omega arith; full = ready.path_valid.full }) refl in
          let low : height sha512 (length (first ∷ rest)) (map (hash_leaf sha512) (first ∷ rest))
              ≤ 6 =
            height-le sha512 (length (first ∷ rest)) 6 (map (hash_leaf sha512) (first ∷ rest))
              (omega (arith, few, length-map (first ∷ rest) (hash_leaf sha512))) in
          (
            record s { merkle_path = path },
            bind_ok (get_paths_to tree idx start) _ path run,
            record { path_valid = valid; buffered = ready.buffered },
            omega (arith, low, count),
            proved ∙ sym rooted,
          )

      pub send_all14-Answers :
          (idx : ℕ) (requests : List (PendingRequest ed Address)) (texts : List (List ℕ))
          (s : Sending)
          → drop idx (first ∷ rest) ≡ texts
          → length texts ≡ length requests
          → All (λ pending. length (nonc pending.request) ≡ nonce_size) requests
          → IsReady s
          → (sent : List (Address × List ℕ)) × (s' : Sending) × (send_all14 ed Address tree
                (common srep sig cert)
                idx
                requests
                s
              ≡ ok (sent, s'))
            × IsReady s'
            × Answers identity time texts requests sent
      unfolding send_all14
      send_all14-Answers idx [] [] s at same nonced ready = ([], s, refl, ready, no_more)
      send_all14-Answers idx [] (t ∷ texts) s at same nonced ready = absurd (omega arith)
      send_all14-Answers idx (pending ∷ requests) [] s at same nonced ready = absurd (omega arith)
      send_all14-Answers idx (pending ∷ requests) (t ∷ texts) s at same (nonce, nonced) ready =
          let (hi, leaf, next) = drop-leaf_at (first ∷ rest) idx t texts at in
          let (s₁, found, ready₁, shallow, proved) = find idx s hi ready in
          let (bytes, s₂, sent_one, ready₂, ans) =
            one_response t pending idx s₁.merkle_path s₁ nonce (omega (arith, few, hi))
              ready₁.path_valid shallow
              (ap (λ text. root_from_paths sha512 idx text s₁.merkle_path) (sym leaf) ∙ proved)
              ready₁ in
          let (more, s₃, run, ready₃, answers) =
            send_all14-Answers (idx + 1) requests texts s₂ next (omega (arith, same)) nonced
              ready₂ in
          (
            (pending.src_addr, bytes) ∷ more,
            s₃,
            bind_ok (find_path tree idx s) _ s₁ found
                ∙ bind_ok
                    (send_frame
                      (wire_size
                        (respond14 (common srep sig cert) s₁.merkle_path idx pending.request))
                      (to_wire
                        (respond14 (common srep sig cert) s₁.merkle_path idx pending.request))
                      s₁)
                    _ (bytes, s₂) sent_one
                ∙ bind_ok (send_all14 ed Address tree (common srep sig cert) (idx + 1) requests s₂)
                    _ (more, s₃) run,
            ready₃,
            answer t pending (pending.src_addr, bytes) texts requests more ans answers,
          )
