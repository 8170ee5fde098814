-- ===== src/Server/Network/Batches.antt =====
-- The batches that network.rs and requests.rs collect.
use roughenough.Prelude.{
  ℕ, zero, suc, ◌+◌, ◌<◌, ◌≤◌, ◌≡◌, refl, ap, ◌∙◌, subst, sym, List, [], ◌∷◌, length, take, arith,
}
use mathlib.Core.Path.{subst₂}
use roughenough.Protocol.Error.{bind_ok, ok}
use roughenough.Keys.{Ed25519}
use roughenough.Server.Requests.{RequestHandler, collect_request}
use roughenough.Server.Requests.Counts.{total, Collected, collect_request-Collected}
use roughenough.Merkle.{Hash}
use roughenough.Server.Network.Expected.{received, Ended, full, blocked, broken}
use roughenough.Server.Network.{
  Received, datagram, would_block, failed, CollectResult, empty, more_data, NetworkHandler,
  collect_loop, collect_requests, count_wouldblock, count_failed_recv,
}
use roughenough.Server.Network.Steps.{AreBytes, All-take, IsGood, IsKept, IsNext, Collected-IsNext}

module _ (ed : Ed25519) (Address : Type 0) (sha512 : List ℕ → List ℕ) where
  -- The handler `h'` and the texts of its batch are what the datagrams, one after another, must make of `h` and the texts of its batch.
  unfoldable pub CollectedAll :
      List (List Hash)
      → RequestHandler ed Address
      → List (List ℕ)
      → List (List ℕ × Address)
      → RequestHandler ed Address
      → List (List ℕ)
      → Type 0
  CollectedAll above h texts [] h' texts' = (h ≡ h') × (texts ≡ texts')
  CollectedAll above h texts (d ∷ datagrams) h' texts' =
      (next : RequestHandler ed Address) × (texts₁ : List (List ℕ)) × Collected ed Address sha512 h
        texts above d.0 d.1 (ok next) texts₁
      × CollectedAll above next texts₁ datagrams h' texts'

  -- The handler after some datagrams: each is counted once, and adds at most one request to the batch.
  pub record IsAfter (h : RequestHandler ed Address) (g : IsGood ed Address sha512 h)
      (datagrams : List (List ℕ × Address)) (h' : RequestHandler ed Address) : Type 0 where
    pub good : IsGood ed Address sha512 h'
    pub history : CollectedAll g.batch.above h g.batch.texts datagrams h' good.batch.texts
    pub kept : IsKept ed Address sha512 h h'
    pub grown : length h'.responder.requests ≤ length h.responder.requests + length datagrams
    pub counted : total h'.metrics ≡ total h.metrics + length datagrams

  -- What is shown of the loop, which has read `i` datagrams and reads these, of at most `rounds` more.
  Collects :
      ℕ
      → ℕ
      → (ℕ → Received Address)
      → NetworkHandler
      → (h : RequestHandler ed Address) → IsGood ed Address sha512 h
      → List (List ℕ × Address)
      → Type 0
  Collects rounds i recv net h g datagrams =
      (result : CollectResult) × (net' : NetworkHandler) × (h' : RequestHandler ed Address)
      × (collect_loop ed Address sha512 rounds i recv net h ≡ ok (result, net', h'))
      × Ended (i + rounds) recv net (i + length datagrams) result net'
      × (length datagrams ≤ rounds)
      × IsAfter h g datagrams h'

  unchanged : (h : RequestHandler ed Address) → IsKept ed Address sha512 h h
  unchanged h = record {
    same_key = refl;
    same_version = refl;
    same_sending = refl;
    same_size = refl;
  }

  nothing : (h : RequestHandler ed Address) (g : IsGood ed Address sha512 h) → IsAfter h g [] h
  unfolding CollectedAll
  nothing h g = record {
    good = g;
    history = (refl, refl);
    kept = unchanged h;
    grown = omega arith;
    counted = omega arith;
  }

  then :
      (h : RequestHandler ed Address) (g : IsGood ed Address sha512 h) (d : List ℕ × Address)
      (next : RequestHandler ed Address) (n : IsNext ed Address sha512 h g d next)
      (datagrams : List (List ℕ × Address)) (h' : RequestHandler ed Address)
      → IsAfter next n.good datagrams h'
      → IsAfter h g (d ∷ datagrams) h'
  unfolding CollectedAll
  then h g d next n datagrams h' later = record {
    good = later.good;
    history = (
      next,
      n.good.batch.texts,
      n.done,
      subst
          (λ above. CollectedAll above next n.good.batch.texts datagrams h' later.good.batch.texts)
          n.same_above later.history,
    );
    kept = record {
      same_key = later.kept.same_key ∙ n.kept.same_key;
      same_version = later.kept.same_version ∙ n.kept.same_version;
      same_sending = later.kept.same_sending ∙ n.kept.same_sending;
      same_size = later.kept.same_size ∙ n.kept.same_size;
    };
    grown = omega (arith, later.grown, n.grown);
    counted = omega (arith, later.counted, n.counted);
  }

  loop_step :
      (rounds i : ℕ) (recv : ℕ → Received Address) (net : NetworkHandler)
      (h : RequestHandler ed Address) (g : IsGood ed Address sha512 h)
      → length h.responder.requests + suc rounds ≤ h.responder.batch_size
      → ((d : List ℕ × Address) (next : RequestHandler ed Address)
            (n : IsNext ed Address sha512 h g d next)
          → Collects rounds (i + 1) recv net next n.good (received rounds (i + 1) recv))
      → (r : Received Address) → recv i ≡ r
      → AreBytes r
      → Collects (suc rounds) i recv net h g (received (suc rounds) i recv)
  unfolding Collects collect_loop received count_wouldblock count_failed_recv
  loop_step rounds i recv net h g room again (datagram bytes addr) e octets =
      let cut : List ℕ = take 1024 bytes in
      let space : length h.responder.requests < h.responder.batch_size = omega (arith, room) in
      let (texts, step) =
        collect_request-Collected ed Address sha512 cut addr h g.batch (All-take 1024 bytes octets)
          space in
      let (next, run, n) =
        Collected-IsNext ed Address sha512 cut addr h g
          (collect_request ed Address sha512 cut addr h) texts space step in
      let (result, net', h', rest, ended, few, later) = again (cut, addr) next n in
      subst (Collects (suc rounds) i recv net h g) (sym (rw (e, received))) (
        result,
        net',
        h',
        rw (e, collect_loop)
            (bind_ok (collect_request ed Address sha512 cut addr h) _ next run ∙ rest),
        subst₂ (λ a b. Ended a recv net b result net') (omega arith) (omega arith) ended,
        omega (arith, few),
        then h g (cut, addr) next n (received rounds (i + 1) recv) h' later,
      )
  loop_step rounds i recv net h g room again would_block e octets =
      subst (Collects (suc rounds) i recv net h g) (sym (rw (e, received))) (
        empty,
        count_wouldblock net,
        h,
        rw (e, collect_loop),
        blocked (ap recv (omega arith) ∙ e),
        omega arith,
        nothing h g,
      )
  loop_step rounds i recv net h g room again failed e octets =
      subst (Collects (suc rounds) i recv net h g) (sym (rw (e, received))) (
        more_data,
        count_failed_recv net,
        h,
        rw (e, collect_loop),
        broken (ap recv (omega arith) ∙ e),
        omega arith,
        nothing h g,
      )

  collect_loop-IsAfter :
      (rounds i : ℕ) (recv : ℕ → Received Address) (net : NetworkHandler)
      (h : RequestHandler ed Address) (g : IsGood ed Address sha512 h)
      → ((j : ℕ) → AreBytes (recv j))
      → length h.responder.requests + rounds ≤ h.responder.batch_size
      → Collects rounds i recv net h g (received rounds i recv)
  unfolding Collects collect_loop received
  collect_loop-IsAfter zero i recv net h g octets room =
      (_, _, _, refl, full refl, omega arith, nothing h g)
  collect_loop-IsAfter (suc rounds) i recv net h g octets room =
      loop_step rounds i recv net h g room
        (λ d next n.
          collect_loop-IsAfter rounds (i + 1) recv net next n.good octets
            (omega (arith, room, n.grown, n.kept.same_size)))
        (recv i) refl (octets i)

  -- From an empty batch, with a network handler whose batch size is at most the responder's, collecting requests does not
  -- panic, whatever the socket gives. It reads the datagrams that the socket gives before anything else, each cut at 1024
  -- bytes, and at most a batch of them, and does with each, one after another, what `collect_request` must do with it.
  -- Every datagram is counted once. It asks for more only if the batch is full or the socket failed, and counts a failure
  -- and an empty socket. The batch holds a leaf for each request, each with a nonce.
  pub collect_requests-IsAfter :
      (recv : ℕ → Received Address) (net : NetworkHandler) (h : RequestHandler ed Address)
      (g : IsGood ed Address sha512 h)
      → ((j : ℕ) → AreBytes (recv j))
      → length h.responder.requests ≡ 0
      → net.batch_size ≤ h.responder.batch_size
      → (result : CollectResult) × (net' : NetworkHandler) × (h' : RequestHandler ed Address)
        × (collect_requests ed Address sha512 recv net h ≡ ok (result, net', h'))
        × Ended net.batch_size recv net (length (received net.batch_size 0 recv)) result net'
        × (length (received net.batch_size 0 recv) ≤ net.batch_size)
        × IsAfter h g (received net.batch_size 0 recv) h'
  unfolding collect_requests Collects
  collect_requests-IsAfter recv net h g octets none fits =
      let (result, net', h', run, ended, few, after) =
        collect_loop-IsAfter net.batch_size 0 recv net h g octets (omega (arith, none, fits)) in
      (
        result,
        net',
        h',
        run,
        subst₂ (λ a b. Ended a recv net b result net') (omega arith) (omega arith) ended,
        few,
        after,
      )
