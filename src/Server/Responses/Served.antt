-- ===== src/Server/Responses/Served.antt =====
-- A whole batch: what `process_responses` of responses.rs sends with an online key.
use roughenough.Prelude.{
  ℕ, ◌-◌, ◌%◌, ◌^◌, ◌≤◌, ◌<◌, ◌≡◌, ◌≢◌, refl, ap, ◌∙◌, sym, Bool, true, false, List, [], ◌∷◌, ◌++◌,
  length, is_empty, map, arith, ◌==◌, ◌&&◌, All,
}
use roughenough.Protocol.Error.{bind_ok, ok, index}
use roughenough.Protocol.Version.{
  ProtocolVersion, rfc_draft08, rfc_draft14, is_supported, version_eq, version_value, srep_prefix,
}
use roughenough.Protocol.Tag.{bytes_eq}
use roughenough.Protocol.Tags.{FixedTag, nonce_size, root_size}
use roughenough.Protocol.Tags.Dele.{
  Certificate, same_offsets, same_tags, saturating_add, new_cert, default_dele,
}
use roughenough.Protocol.Tags.Srep.{SignedResponse}
use roughenough.Protocol.Tags.Srep.Made.{srep_bytes}
use roughenough.Protocol.Request.{nonc}
use roughenough.Protocol.Response.{Response, default_cert}
use roughenough.Merkle.{MerkleTree, Hash, hash_leaf, compute_root}
use roughenough.Merkle.Spec.{build, root_of}
use roughenough.Merkle.Root.{length-root_of_batch}
use roughenough.Merkle.Build.{compute_root-root_of}
use roughenough.Client.Validation.Accepts.{IsInSpan}
use roughenough.Keys.{Ed25519, OnlineKeyDraft14, cert_eq, dele_eq, cert14, make_srep14}
use roughenough.Keys.Signing.{IsOnline, srep_at, srep_at-IsMade, size-srep_at, make_srep14-signs}
use roughenough.Keys.Delegating.{IsDelegated}
use roughenough.Server.Metrics.{add_batch_size}
use roughenough.Server.Metrics.Consistent.{IsConsistent, add_batch_size-IsConsistent}
use roughenough.Server.Responses.{
  Sending, PendingRequest, draft14_key, ResponseHandler, common14, send_all14,
  process_responses_draft14, process_version, process_responses,
}
use roughenough.Server.Responses.Sends.{IsReady, common}
use roughenough.Server.Responses.Batch.{IsBatch, Answers, tree, send_all14-Answers}

and_false : (a b : Bool) → b ≡ false → (a && b) ≡ false
and_false true b h = h
and_false false b h = refl

-- A certificate whose delegation begins after the first second of the epoch is not the default one.
not_default :
    (cert : Certificate) → cert.delegation.min_time ≢ 0 → cert_eq cert default_cert ≡ false
unfolding cert_eq dele_eq default_cert new_cert default_dele
not_default cert h =
    let late : (cert.delegation.min_time == 0) ≡ false = ground arith in
    let d : Certificate = default_cert in
    and_false (same_offsets cert.header.offsets d.header.offsets) _ (
      and_false (same_tags cert.header.tags d.header.tags) _ (
        and_false (bytes_eq cert.signature d.signature) _ (
          and_false (same_offsets cert.delegation.header.offsets d.delegation.header.offsets) _ (
            and_false (same_tags cert.delegation.header.tags d.delegation.header.tags) _ (
              and_false (bytes_eq cert.delegation.public_key d.delegation.public_key) _
                (and_false (cert.delegation.max_time == d.delegation.max_time) _ late))))))

alone_supported : (version : ProtocolVersion) → is_supported (version ∷ []) version ≡ true
unfolding is_supported version_eq version_value
alone_supported rfc_draft08 = refl
alone_supported rfc_draft14 = refl

module _ (ed : Ed25519) (Address : Type 0) (sha512 : List ℕ → List ℕ)
    (digest_len : (message : List ℕ) → length (sha512 message) ≡ 64) where
  -- The responses of a batch, all with one signature.
  signed_by :
      (version : ProtocolVersion) (key next : OnlineKeyDraft14 ed) (root : FixedTag) (now : ℕ)
      → key.cert.delegation.min_time ≢ 0
      → make_srep14 ed root now key
        ≡ ok (
          srep_at ed version root now,
          ed.sign key.signer (srep_prefix rfc_draft14 ++ srep_bytes (srep_at ed version root now)),
          next,
        )
      → common14 ed Address key root now
        ≡ ok (
          common
              (srep_at ed version root now)
              (ed.sign key.signer
                (srep_prefix rfc_draft14 ++ srep_bytes (srep_at ed version root now)))
              key.cert,
          next,
        )
  unfolding common14 cert14 common
  signed_by version key next root now late run =
      rw (not_default key.cert late) (bind_ok (make_srep14 ed root now key) _ _ run)

  -- What `process_responses_draft14` needs of the key.
  pub record CanSign (version : ProtocolVersion) (identity : FixedTag) (now : ℕ)
      (key : OnlineKeyDraft14 ed) : Type 0 where
    pub online : IsOnline ed version key
    pub since : ℕ
    pub validity : ℕ
    pub delegated :
        IsDelegated ed identity version (ed.public_key key.signer) since validity key.cert
    pub late : since ≢ 0
    pub begun : since ≤ now
    pub not_over : now ≤ saturating_add since validity
    pub small : now < 2 ^ 64

  in_span :
      (version : ProtocolVersion) (identity : FixedTag) (now : ℕ) (key : OnlineKeyDraft14 ed)
      → CanSign version identity now key
      → IsInSpan now 5 key.cert.delegation
  in_span version identity now key can = record {
    not_before = omega (arith, can.begun, can.delegated.from);
    not_after = omega (arith, can.not_over, can.delegated.until);
    uncertain = λ e. cc;
  }

  module _ (version : ProtocolVersion) (identity : FixedTag) (now : ℕ) (key : OnlineKeyDraft14 ed)
      (can : CanSign version identity now key) where
    batch_signed :
        (above : List (List Hash)) (first : List ℕ) (rest : List (List ℕ))
        (requests : List (PendingRequest ed Address)) (s : Sending)
        → length (first ∷ rest) ≤ 64
        → length (first ∷ rest) ≡ length requests
        → All (λ pending. length (nonc pending.request) ≡ nonce_size) requests
        → IsReady s
        → (c : Response) × (next : OnlineKeyDraft14 ed) × (sent : List (Address × List ℕ))
          × (s' : Sending) × (common14 ed Address key
                (root_of sha512
                  (length (map (hash_leaf sha512) (first ∷ rest)))
                  (map (hash_leaf sha512) (first ∷ rest)))
                now
              ≡ ok (c, next))
          × (send_all14 ed Address
                (record {
                  levels =
                      build sha512
                        (length (map (hash_leaf sha512) (first ∷ rest)))
                        (map (hash_leaf sha512) (first ∷ rest))
                        above;
                })
                c
                0
                requests
                s
              ≡ ok (sent, s'))
          × IsReady s'
          × Answers ed Address sha512 identity now (first ∷ rest) requests sent
          × IsOnline ed version next
          × (next.cert ≡ key.cert)
    unfolding srep_at tree srep_prefix
    batch_signed above first rest requests s few same nonced ready =
        let root : FixedTag =
          root_of sha512 (length (map (hash_leaf sha512) (first ∷ rest)))
            (map (hash_leaf sha512) (first ∷ rest)) in
        let srep : SignedResponse = srep_at ed version root now in
        let message : List ℕ = srep_prefix rfc_draft14 ++ srep_bytes srep in
        let rooted : length root ≡ root_size = length-root_of_batch sha512 digest_len first rest in
        let (next, run, online, signer, cert) =
          make_srep14-signs ed version key root now can.online rooted can.small in
        let (sent, s', sent_all, ready', answers) =
          send_all14-Answers ed Address sha512 identity now srep (ed.sign key.signer message)
            key.cert (srep_at-IsMade ed version root now rooted can.small)
            (size-srep_at ed version root now) (ed.length-sign key.signer message)
            can.delegated.made refl can.delegated.certifies (alone_supported version)
            (in_span version identity now key can)
            (ap (λ pubk. ed.verify pubk message (ed.sign key.signer message)) can.delegated.keyed
              ∙ ed.verify-sign key.signer message)
            above first rest few digest_len refl 0 requests (first ∷ rest) s refl same nonced
            ready in
        (
          common srep (ed.sign key.signer message) key.cert,
          next,
          sent,
          s',
          signed_by version key next root now (λ e. can.late (sym can.delegated.from ∙ e)) run,
          sent_all,
          ready',
          answers,
          online,
          cert,
        )

    -- The tree and the root of a batch that is not empty.
    rooted_batch :
        (tree : MerkleTree) (texts : List (List ℕ)) (above : List (List Hash))
        (requests : List (PendingRequest ed Address)) (s : Sending)
        → tree ≡ record { levels = map (hash_leaf sha512) texts ∷ above }
        → 0 < length requests
        → length requests ≤ 64
        → length texts ≡ length requests
        → All (λ pending. length (nonc pending.request) ≡ nonce_size) requests
        → IsReady s
        → (done : MerkleTree) × (root : Hash) × (c : Response) × (next : OnlineKeyDraft14 ed)
          × (sent : List (Address × List ℕ)) × (s' : Sending) × (compute_root sha512 tree
              ≡ ok (done, root))
          × (common14 ed Address key root now ≡ ok (c, next))
          × (send_all14 ed Address done c 0 requests s ≡ ok (sent, s'))
          × IsReady s'
          × Answers ed Address sha512 identity now texts requests sent
          × IsOnline ed version next
          × (next.cert ≡ key.cert)
    rooted_batch tree [] above requests s levels some_requests few same nonced ready =
        absurd (omega arith)
    rooted_batch tree (first ∷ rest) above requests s levels some_requests few same nonced ready =
        let (c, next, sent, s', made, sent_all, ready', answers, online, cert) =
          batch_signed above first rest requests s (omega (arith, few, same)) same nonced ready in
        (
          _,
          _,
          c,
          next,
          sent,
          s',
          ap (compute_root sha512) levels
              ∙ compute_root-root_of sha512 (hash_leaf sha512 first) (map (hash_leaf sha512) rest)
                  above,
          made,
          sent_all,
          ready',
          answers,
          online,
          cert,
        )

    not_empty :
        (requests : List (PendingRequest ed Address))
        → 0 < length requests
        → is_empty requests ≡ false
    not_empty [] h = absurd (omega arith)
    not_empty (pending ∷ requests) h = refl

    -- Let a draft-14 handler hold a batch of 1 to 64 requests and an online key that can sign now: its certificate is of the
    -- long-term key `identity` and in force, and does not begin at second 0 of the epoch. Fewer than 255 batches of that size
    -- are counted yet. Then `process_responses` returns, and calls back once for each request, in order, with the address that the
    -- request came from and a datagram: a client that knows `identity` parses it, gets the nonce of that request, and `validate_draft14`
    -- accepts it for the text of that request with the server's time. The key can sign the next batch.
    pub process_responses-Answers :
        (h : ResponseHandler ed Address) (b : IsBatch ed Address sha512 h) (count : ℕ)
        → h.protocol_version ≡ rfc_draft14
        → h.online_key ≡ draft14_key key
        → 0 < length h.requests
        → length h.requests ≤ 64
        → All (λ pending. length (nonc pending.request) ≡ nonce_size) h.requests
        → IsReady h.sending
        → IsConsistent h.sending.response_metrics
        → index h.sending.response_metrics.batch_sizes (length h.requests - 1) ≡ ok count
        → count < 255
        → (sent : List (Address × List ℕ)) × (h' : ResponseHandler ed Address) × (process_responses
              ed Address sha512 now h
            ≡ ok (sent, h'))
          × Answers ed Address sha512 identity now b.texts h.requests sent
          × IsReady h'.sending
          × (next : OnlineKeyDraft14 ed) × (h'.online_key ≡ draft14_key next)
          × IsOnline ed version next
          × (next.cert ≡ key.cert)
    unfolding process_responses process_version process_responses_draft14
    process_responses-Answers h b count is14 keyed some_requests few nonced ready consistent counted
          room =
        let (metrics, count_run, _, _) =
          add_batch_size-IsConsistent (length h.requests) count h.sending.response_metrics
            consistent (omega arith) few counted room in
        let s : Sending = record h.sending { response_metrics = metrics } in
        let (done, root, c, next, sent, s', rooted, made, sent_all, ready', answers, online, cert) =
          rooted_batch h.merkle_tree b.texts b.above h.requests s b.levels some_requests few
            b.paired nonced (record { path_valid = ready.path_valid; buffered = ready.buffered }) in
        let h₁ : ResponseHandler ed Address = record h { merkle_tree = done; sending = s } in
        let size : length h.requests % 2 ^ 8 ≡ length h.requests = omega (arith, few) in
        (
          sent,
          record h₁ { online_key = draft14_key next; sending = s' },
          rw (not_empty h.requests some_requests, process_responses)
              (bind_ok (add_batch_size (length h.requests % 2 ^ 8) h.sending.response_metrics) _
                  metrics (ap (λ n. add_batch_size n h.sending.response_metrics) size ∙ count_run)
                ∙ bind_ok (compute_root sha512 h.merkle_tree) _ (done, root) rooted
                ∙ rw (is14, keyed)
                    (bind_ok (common14 ed Address key root now) _ (c, next) made
                      ∙ bind_ok (send_all14 ed Address done c 0 h.requests s) _ (sent, s')
                          sent_all)),
          answers,
          ready',
          next,
          refl,
          online,
          cert,
        )
