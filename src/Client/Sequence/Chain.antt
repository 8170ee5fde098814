-- ===== src/Client/Sequence/Chain.antt =====
-- What a finished sequence of sequence.rs is: a chain of validated measurements.
use roughenough.Prelude.{
  ℕ, zero, suc, ◌+◌, ◌*◌, ◌≡◌, refl, ap, ◌∙◌, sym, subst, Bool, Option, none, some, List, [], ◌∷◌,
  ◌++◌, length, take, arith, length-append, Bool-cases, inl, inr,
}
use roughenough.Protocol.Error
use roughenough.Protocol.Error.{Result}
use roughenough.Protocol.Version.{ProtocolVersion, rfc_draft08, rfc_draft14}
use roughenough.Protocol.Wire.{as_frame_bytes}
use roughenough.Protocol.Tags.{FixedTag}
use roughenough.Protocol.Request
use roughenough.Protocol.Request.{Request, nonc, draft08, draft14_srv}
use roughenough.Protocol.Request.Draft08.{new_request_draft08}
use roughenough.Protocol.Request.Draft14Srv.{new_request_draft14_srv}
use roughenough.Protocol.Response.{Response}
use roughenough.Client.Measurement.{Measurement}
use roughenough.Client.Query.{
  Reply, invalid_configuration, broken, failure, success, ◌>>=◌, of_result, Client,
  calculate_chained_nonce, parse_and_validate,
}
use roughenough.Client.Sequence.{
  Step, generate_nonce, sequence_request, query, all_keyed, run_round, run_rounds, run,
}

success-bind :
    {A B : Type 0} (m : Reply A) (k : A → Reply B) (b : B)
    → (m >>= k) ≡ success b
    → (a : A) × (m ≡ success a) × (k a ≡ success b)
success-bind broken k b h = cc
success-bind (failure e) k b h = cc
success-bind (success a) k b h = (a, refl, h)

success_injective : {A : Type 0} (a b : A) → success a ≡ success b → a ≡ b
success_injective a b h = cc

of_result-success : {A : Type 0} (r : Result A) (a : A) → of_result r ≡ success a → r ≡ Error.ok a
of_result-success Error.panic a h = cc
of_result-success (Error.err e) a h = cc
of_result-success (Error.ok b) a h = cc

-- The nonce of a request of a sequence is the one that was generated.
nonc-sequence_request :
    {Address : Type 0} (client : Client Address) (nonce : FixedTag) (request : Request)
    → sequence_request client nonce ≡ success request
    → nonc request ≡ nonce
unfolding sequence_request nonc new_request_draft08 new_request_draft14_srv
nonc-sequence_request client nonce request h =
    by_version client.protocol_version client.srv_commit h
  where
    by_version :
        (version : ProtocolVersion) (commit : Option FixedTag)
        → sequence_request (record client { protocol_version = version; srv_commit = commit }) nonce
          ≡ success request
        → nonc request ≡ nonce
    by_version rfc_draft08 commit e =
        sym (ap nonc (success_injective (draft08 (new_request_draft08 nonce)) request e))
    by_version rfc_draft14 (some c) e =
        sym (ap nonc (success_injective (draft14_srv (new_request_draft14_srv nonce c)) request e))
    by_version rfc_draft14 none e = cc

module _ (sha512 : List ℕ → List ℕ) (verify : FixedTag → List ℕ → FixedTag → Bool)
    {Address : Type 0} where
  -- How a measurement goes on from the response before it, if there is one.
  abbrev pub Chains : Option Response → Measurement Address → Type 0
  Chains none m = m.rand_value ≡ none
  Chains (some prior) m =
      (rand : List ℕ) × (m.rand_value ≡ some rand)
      × (calculate_chained_nonce sha512 prior rand ≡ success (nonc m.request))

  pub record IsLink (prior : Option Response) (m : Measurement Address) : Type 0 where
    pub follows : m.prior_response ≡ prior
    pub chains : Chains prior m
    pub client : Client Address
    pub request_bytes : List ℕ
    pub response_bytes : List ℕ
    pub asked :
        as_frame_bytes (Request.wire_size m.request) (Request.to_wire m.request)
        ≡ Error.ok request_bytes
    pub answered :
        parse_and_validate sha512 verify client.protocol_version client.validator request_bytes
          response_bytes
        ≡ success m.response

  abbrev pub Chain : Option Response → List (Measurement Address) → Type 0
  Chain prior [] = Unit
  Chain prior (m ∷ ms) = IsLink prior m × Chain (some m.response) ms

  generate_nonce-Chains :
      (prior : Option Response) (random nonce : List ℕ) (rand : Option (List ℕ))
      (m : Measurement Address)
      → generate_nonce sha512 prior random ≡ success (nonce, rand)
      → m.rand_value ≡ rand
      → nonc m.request ≡ nonce
      → Chains prior m
  unfolding generate_nonce
  generate_nonce-Chains none random nonce rand m h e n =
      e ∙ sym (ap (λ p. p.1) (success_injective (random, none) (nonce, rand) h))
  generate_nonce-Chains (some prior) random nonce rand m h e n =
      let (nonce', made, k) =
        success-bind (calculate_chained_nonce sha512 prior random) _ (nonce, rand) h in
      let same : (nonce', some random) ≡ (nonce, rand) =
        success_injective (nonce', some random) (nonce, rand) k in
      (
        random,
        e ∙ sym (ap (λ p. p.1) same),
        made ∙ ap (λ xs. success xs) (ap (λ p. p.0) same ∙ sym n),
      )

  query-IsLink :
      (client : Client Address) (prior : Option Response) (step : Step) (m : Measurement Address)
      → query sha512 verify client prior step ≡ success m
      → IsLink prior m
  unfolding query
  query-IsLink client prior step m h =
      let ((nonce, rand), generated, h₁) =
        success-bind (generate_nonce sha512 prior step.random) _ m h in
      let (request, made, h₂) = success-bind (sequence_request client nonce) _ m h₁ in
      let (request_bytes, asked, h₃) =
        success-bind
          (of_result (as_frame_bytes (Request.wire_size request) (Request.to_wire request))) _ m
          h₂ in
      let (count, sent, h₄) = success-bind step.exchange.sent _ m h₃ in
      let (received, got, h₅) = success-bind step.exchange.received _ m h₄ in
      let (response, answered, h₆) =
        success-bind
          (parse_and_validate sha512 verify client.protocol_version client.validator request_bytes
            (take 1024 received))
          _ m h₅ in
      let it : Measurement Address = record {
        server = client.server;
        hostname = client.hostname;
        public_key = client.public_key;
        request = request;
        response = response;
        rand_value = rand;
        prior_response = prior;
      } in
      let link : IsLink prior it = record {
        follows = refl;
        chains =
            generate_nonce-Chains prior step.random nonce rand it generated refl
              (nonc-sequence_request client nonce request made);
        client = client;
        request_bytes = request_bytes;
        response_bytes = take 1024 received;
        asked = of_result-success _ request_bytes asked;
        answered = answered;
      } in
      subst (IsLink prior) (success_injective it m h₆) link

  -- A round of so many queries, onto which any chain from its last response on can be put.
  abbrev IsRound : ℕ → Option Response → List (Measurement Address) × Option Response → Type 0
  IsRound queries prior round =
      (length round.0 ≡ queries)
      × ((more : List (Measurement Address)) → Chain round.1 more → Chain prior (round.0 ++ more))

  run_round-IsRound :
      (clients : List (Client Address)) (i : ℕ) (steps : ℕ → Step) (prior : Option Response)
      (round : List (Measurement Address) × Option Response)
      → run_round sha512 verify clients i steps prior ≡ success round
      → IsRound (length clients) prior round
  unfolding run_round
  run_round-IsRound [] i steps prior round h =
      subst (IsRound 0 prior) (success_injective ([], prior) round h) (refl, (λ more chain. chain))
  run_round-IsRound (client ∷ clients) i steps prior round h =
      let (m, asked, h₁) = success-bind (query sha512 verify client prior (steps i)) _ round h in
      let (inner, ran, h₂) =
        success-bind (run_round sha512 verify clients (i + 1) steps (some m.response)) _ round h₁ in
      let (size, extend) = run_round-IsRound clients (i + 1) steps (some m.response) inner ran in
      subst (IsRound (suc (length clients)) prior)
        (success_injective (m ∷ inner.0, inner.1) round h₂)
        (
          ap suc size,
          (λ more chain. (query-IsLink client prior (steps i) m asked, extend more chain)),
        )

  run_rounds-Chain :
      (rounds : ℕ) (clients : List (Client Address)) (i : ℕ) (steps : ℕ → Step)
      (prior : Option Response) (ms : List (Measurement Address))
      → run_rounds sha512 verify rounds clients i steps prior ≡ success ms
      → (length ms ≡ rounds * length clients) × Chain prior ms
  unfolding run_rounds
  run_rounds-Chain zero clients i steps prior ms h =
      subst (λ xs. (length xs ≡ 0 * length clients) × Chain prior xs) (success_injective [] ms h)
        (omega arith, tt)
  run_rounds-Chain (suc rounds) clients i steps prior ms h =
      let (round, ran, h₁) = success-bind (run_round sha512 verify clients i steps prior) _ ms h in
      let (more, rest, h₂) =
        success-bind (run_rounds sha512 verify rounds clients (i + length clients) steps round.1) _
          ms h₁ in
      let (size, extend) = run_round-IsRound clients i steps prior round ran in
      let (size', chain) =
        run_rounds-Chain rounds clients (i + length clients) steps round.1 more rest in
      subst (λ xs. (length xs ≡ suc rounds * length clients) × Chain prior xs)
        (success_injective (round.0 ++ more) ms h₂)
        (grind (arith, length-append round.0 more, size, size'), extend more chain)

  -- If a sequence over some clients finishes, then it has a measurement for each client and round, and they are a chain: the first
  -- has no prior response and no random value; every other has the response of the one before it as its prior response,
  -- and the nonce of its request is the chained nonce of that response and its random value. Each response was parsed and
  -- validated for the bytes of the request that its measurement holds.
  pub run-Chain :
      (rounds : ℕ) (clients : List (Client Address)) (steps : ℕ → Step)
      (ms : List (Measurement Address))
      → run sha512 verify rounds clients steps ≡ success ms
      → (length ms ≡ rounds * length clients) × Chain none ms
  unfolding run
  run-Chain rounds clients steps ms h = elim (Bool-cases (all_keyed clients)) [
    | inl keyed ↦ run_rounds-Chain rounds clients 0 steps none ms (rw keyed at h)
    | inr keyless ↦ absurd (refused (rw keyless at h))
  ]
    where
      refused : failure invalid_configuration ≡ success ms → ⊥
      refused e = cc
