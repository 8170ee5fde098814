-- ===== src/Server/Worker/Rounds.antt =====
-- Rounds and keys of the loop in worker.rs.
use roughenough.Prelude.{ℕ, ◌+◌, ◌≤◌, ◌<◌, ◌≡◌, List, length}
use roughenough.Protocol.Error.{ok, index}
use roughenough.Protocol.Version.{rfc_draft14}
use roughenough.Keys.{Ed25519, OnlineKeyDraft14}
use roughenough.Server.Metrics.Consistent.{IsConsistent}
use roughenough.Server.Responses.{draft14_key}
use roughenough.Server.Responses.Sends.{IsReady}
use roughenough.Server.Network.{NetworkHandler}
use roughenough.Server.Network.Steps.{IsGood}
use roughenough.Server.Worker.{Worker}

-- How many results of sending were counted.
unfoldable pub sends : NetworkHandler → ℕ
sends net = net.metrics.num_successful_sends + net.metrics.num_failed_sends

module _ (ed : Ed25519) (Address : Type 0) (sha512 : List ℕ → List ℕ)
    (digest_len : (message : List ℕ) → length (sha512 message) ≡ 64) where
  -- A worker between two rounds.
  pub record IsIdle (key : OnlineKeyDraft14 ed) (w : Worker ed Address) : Type 0 where
    pub good : IsGood ed Address sha512 w.req_handler
    pub none_pending : length w.req_handler.responder.requests ≡ 0
    pub drafted : w.req_handler.responder.protocol_version ≡ rfc_draft14
    pub keyed : w.req_handler.responder.online_key ≡ draft14_key key
    pub ready : IsReady w.req_handler.responder.sending
    pub same_batch : w.net_handler.batch_size ≤ w.req_handler.responder.batch_size
    pub batch_small : w.net_handler.batch_size ≤ 64
    pub consistent : IsConsistent w.req_handler.responder.sending.response_metrics
    pub few_batches :
        (i : ℕ)
        → i < 64
        → (count : ℕ) × (index w.req_handler.responder.sending.response_metrics.batch_sizes i
            ≡ ok count)
          × (count < 255)
