-- ===== src/Server/Network/Steps.antt =====
-- What one datagram makes of the batch that network.rs and requests.rs collect.
use roughenough.Prelude.{
  ℕ, zero, suc, ◌+◌, ◌<◌, ◌≤◌, ◌≡◌, refl, List, [], ◌∷◌, ◌++◌, length, take, arith, All,
  length-append,
}
use roughenough.Prelude.Bytes.{IsByte}
use roughenough.Protocol.Error.{Result, ok}
use roughenough.Protocol.Tags.{nonce_size}
use roughenough.Protocol.Request.{nonc}
use roughenough.Keys.{Ed25519}
use roughenough.Server.Responses.{PendingRequest}
use roughenough.Server.Responses.Batch.{IsBatch}
use roughenough.Server.Requests.{RequestHandler}
use roughenough.Server.Requests.Counts.{
  total, text_of, with_request, batch_with, Collected, runt, jumbo, bad, collected,
}
use roughenough.Server.Network.{Received, datagram, would_block, failed}

-- Datagrams are bytes.
abbrev pub AreBytes : {Address : Type 0} → Received Address → Type 0
AreBytes (datagram bytes addr) = All IsByte bytes
AreBytes would_block = Unit
AreBytes failed = Unit

pub All-take : (n : ℕ) (xs : List ℕ) → All IsByte xs → All IsByte (take n xs)
All-take zero xs h = tt
All-take (suc n) [] h = tt
All-take (suc n) (x ∷ xs) h = (h.0, All-take n xs h.1)

module _ (ed : Ed25519) (Address : Type 0) (sha512 : List ℕ → List ℕ) where
  -- A batch of requests with nonces.
  pub record IsGood (h : RequestHandler ed Address) : Type 0 where
    pub batch : IsBatch ed Address sha512 h.responder
    pub nonced : All (λ pending. length (nonc pending.request) ≡ nonce_size) h.responder.requests

  -- What the handler keeps.
  pub record IsKept (h h' : RequestHandler ed Address) : Type 0 where
    pub same_key : h'.responder.online_key ≡ h.responder.online_key
    pub same_version : h'.responder.protocol_version ≡ h.responder.protocol_version
    pub same_sending : h'.responder.sending ≡ h.responder.sending
    pub same_size : h'.responder.batch_size ≡ h.responder.batch_size

  -- The handler after one datagram.
  pub record IsNext (h : RequestHandler ed Address) (g : IsGood h) (d : List ℕ × Address)
      (next : RequestHandler ed Address) : Type 0 where
    pub good : IsGood next
    pub same_above : good.batch.above ≡ g.batch.above
    pub done :
        Collected ed Address sha512 h g.batch.texts g.batch.above d.0 d.1 (ok next) good.batch.texts
    pub kept : IsKept h next
    pub grown : length next.responder.requests ≤ length h.responder.requests + 1
    pub counted : total next.metrics ≡ total h.metrics + 1

  All-snoc :
      (requests : List (PendingRequest ed Address)) (pending : PendingRequest ed Address)
      → All (λ p. length (nonc p.request) ≡ nonce_size) requests
      → length (nonc pending.request) ≡ nonce_size
      → All (λ p. length (nonc p.request) ≡ nonce_size) (requests ++ (pending ∷ []))
  All-snoc [] pending h k = (k, tt)
  All-snoc (p ∷ requests) pending (h, hs) k = (h, All-snoc requests pending hs k)

  pub Collected-IsNext :
      (bytes : List ℕ) (addr : Address) (h : RequestHandler ed Address) (g : IsGood h)
      (r : Result (RequestHandler ed Address)) (texts : List (List ℕ))
      → length h.responder.requests < h.responder.batch_size
      → Collected ed Address sha512 h g.batch.texts g.batch.above bytes addr r texts
      → (next : RequestHandler ed Address) × (r ≡ ok next) × IsNext h g (bytes, addr) next
  unfolding total with_request batch_with
  Collected-IsNext bytes addr h g _ _ room (runt short) = (
    _,
    refl,
    record {
      good = record { batch = g.batch; nonced = g.nonced };
      same_above = refl;
      done = runt short;
      kept = record { same_key = refl; same_version = refl; same_sending = refl; same_size = refl };
      grown = omega arith;
      counted = omega arith;
    },
  )
  Collected-IsNext bytes addr h g _ _ room (jumbo long) = (
    _,
    refl,
    record {
      good = record { batch = g.batch; nonced = g.nonced };
      same_above = refl;
      done = jumbo long;
      kept = record { same_key = refl; same_version = refl; same_sending = refl; same_size = refl };
      grown = omega arith;
      counted = omega arith;
    },
  )
  Collected-IsNext bytes addr h g _ _ room (bad e size run) = (
    _,
    refl,
    record {
      good = record { batch = g.batch; nonced = g.nonced };
      same_above = refl;
      done = bad e size run;
      kept = record { same_key = refl; same_version = refl; same_sending = refl; same_size = refl };
      grown = omega arith;
      counted = omega arith;
    },
  )
  Collected-IsNext bytes addr h g _ _ room (collected request c size run accepted) = (
    _,
    refl,
    record {
      good = record {
        batch =
            batch_with ed Address sha512 request addr
              (text_of ed Address sha512 h.responder.protocol_version bytes request) h.responder
              g.batch room;
        nonced =
            All-snoc h.responder.requests (record { request = request; src_addr = addr }) g.nonced
              accepted.nonce.size;
      };
      same_above = refl;
      done = collected request c size run accepted;
      kept = record { same_key = refl; same_version = refl; same_sending = refl; same_size = refl };
      grown = omega (
        arith,
        length-append h.responder.requests (record { request = request; src_addr = addr } ∷ []),
      );
      counted = omega arith;
    },
  )
