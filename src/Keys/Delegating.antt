-- ===== src/Keys/Delegating.antt =====
-- The delegations that the long-term identity of roughenough-keys signs (longterm/identity.rs, keysource.rs).
use roughenough.Prelude.{ℕ, ◌^◌, ◌<◌, ◌≡◌, refl, ap, ◌∙◌, some, List, ◌++◌, length, arith}
use roughenough.Protocol.Error.{bind_ok, ok}
use roughenough.Protocol.Version.{ProtocolVersion, dele_prefix}
use roughenough.Protocol.Wire.{as_bytes}
use roughenough.Protocol.Wire.Frame.{as_bytes-Writes}
use roughenough.Protocol.Tags.{FixedTag}
use roughenough.Protocol.Tags.Dele.{
  new_dele, default_dele, dele_to_wire, dele_wire_size, saturating_add, Certificate, new_cert,
}
use roughenough.Protocol.Tags.Dele.Made as DeleMade
use roughenough.Protocol.Tags.Dele.Made.{
  delegation_bytes, delegation_bytes-Writes, length-delegation_bytes,
}
use roughenough.Client.Validation.Accepts.{Certifies}
use roughenough.Keys.{
  Ed25519, expect_ok, expect_some, OnlineKeyDraft14, new_draft14, LongTermIdentity, delegate,
  as_secs, make_online_key_draft14,
}
use roughenough.Keys.Signing.{IsOnline, new_draft14-IsOnline}

saturating_add-lt : (a b : ℕ) → saturating_add a b < 2 ^ 64
unfolding saturating_add
saturating_add-lt a b = ground arith

-- A delegation with the bytes that the identity signs.
delegation-bytes :
    (pubkey : FixedTag) (now validity : ℕ)
    → length pubkey ≡ 32
    → as_bytes dele_wire_size (dele_to_wire (new_dele pubkey now validity))
      ≡ ok (delegation_bytes (new_dele pubkey now validity))
unfolding new_dele default_dele
delegation-bytes pubkey now validity keyed =
    as_bytes-Writes dele_wire_size (delegation_bytes-Writes (new_dele pubkey now validity) refl)
      (length-delegation_bytes (new_dele pubkey now validity) keyed)

module _ (ed : Ed25519) where
  -- A certificate for one of the server's keys from one time on.
  pub record IsDelegated (identity_key : List ℕ) (version : ProtocolVersion) (pubkey : FixedTag)
      (now validity : ℕ) (cert : Certificate) : Type 0 where
    pub certifies : Certifies ed.verify (some identity_key) cert version
    pub made : DeleMade.IsMade cert
    pub keyed : cert.delegation.public_key ≡ pubkey
    pub from : cert.delegation.min_time ≡ now
    pub until : cert.delegation.max_time ≡ saturating_add now validity

  module _ (identity : LongTermIdentity) (seed_key : ed.KeyPair)
      (backed : (message : List ℕ)
        → identity.seed.seed_sign message ≡ some (ed.sign seed_key message)) where
    delegate-IsDelegated :
        (version : ProtocolVersion) (pubkey : FixedTag) (now validity : ℕ)
        → length pubkey ≡ 32
        → now < 2 ^ 64
        → (cert : Certificate) × (delegate identity version pubkey now validity ≡ ok cert)
          × IsDelegated (ed.public_key seed_key) version pubkey now validity cert
    unfolding delegate new_dele default_dele new_cert expect_ok expect_some
    delegate-IsDelegated version pubkey now validity keyed small =
        let message : List ℕ =
          dele_prefix version ++ delegation_bytes (new_dele pubkey now validity) in
        let sig : FixedTag = ed.sign seed_key message in
        (
          new_cert sig (new_dele pubkey now validity),
          bind_ok
                (expect_ok (as_bytes dele_wire_size (dele_to_wire (new_dele pubkey now validity))))
                _ (delegation_bytes (new_dele pubkey now validity))
                (ap expect_ok (delegation-bytes pubkey now validity keyed))
              ∙ bind_ok (expect_some (identity.seed.seed_sign message)) _ sig
                  (ap expect_some (backed message)),
          record {
            certifies = (
              delegation_bytes (new_dele pubkey now validity),
              delegation-bytes pubkey now validity keyed,
              ed.verify-sign seed_key message,
            );
            made = record {
              headed = refl;
              signed = ed.length-sign seed_key message;
              delegated = record {
                headed = refl;
                keyed = keyed;
                early = small;
                late = saturating_add-lt now validity;
              };
            };
            keyed = refl;
            from = refl;
            until = refl;
          },
        )

    -- If the backend of the identity signs with a key pair, then at a time below 2 ^ 64 a key source makes an online key: its certificate
    -- holds that key pair's signature over the delegation to the new key, from that time on, for the length of validity or
    -- up to the end of the 64 bits, and a client that knows the public key takes it; the online key is ready to sign.
    pub make_online_key_draft14-IsDelegated :
        (validity_length now : ℕ) (signer : ed.KeyPair)
        → now < 2 ^ 64
        → (key : OnlineKeyDraft14 ed) × (make_online_key_draft14 ed
              (record { identity = identity; validity_length = validity_length })
              now
              signer
            ≡ ok key)
          × IsOnline ed identity.version key
          × IsDelegated
              (ed.public_key seed_key)
              identity.version
              (ed.public_key signer)
              now
              (as_secs validity_length)
              key.cert
          × (key.signer ≡ signer)
    unfolding make_online_key_draft14 new_draft14
    make_online_key_draft14-IsDelegated validity_length now signer small =
        let (cert, run, delegated) =
          delegate-IsDelegated identity.version (ed.public_key signer) now (as_secs validity_length)
            (ed.length-public_key signer) small in
        let o : IsOnline ed identity.version (new_draft14 ed identity.version signer) =
          new_draft14-IsOnline ed identity.version signer in
        (
          record (new_draft14 ed identity.version signer) { cert = cert },
          bind_ok
              (delegate identity identity.version (ed.public_key signer) now
                (as_secs validity_length))
              _ cert run,
          record { templated = o.templated; prefixed = o.prefixed; sized = o.sized },
          delegated,
          refl,
        )
