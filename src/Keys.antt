-- ===== src/Keys.antt =====
-- crates/roughenough-keys: online keys (online/onlinekey.rs), the long-term identity that delegates to them
-- (longterm/identity.rs), and the server's source of keys (roughenough-server/src/keysource.rs).
-- The time that a clock gives and the key pair that is generated are arguments of what reads them.
pub mod Signing
pub mod Delegating
use roughenough.Prelude.{
  ℕ, ◌+◌, ◌-◌, ◌/◌, ◌<◌, ◌≡◌, Bool, true, false, Option, none, some, List, [], ◌∷◌, ◌++◌, length,
  take, drop, replicate, ltb, ◌==◌, not, ◌&&◌, if◌then◌else◌,
}
use roughenough.Protocol.Error.{Result, ok, err, panic, assert, ◌>>=◌, ◌>>◌}
use roughenough.Protocol.Cursor.{ParseCursor, new}
use roughenough.Protocol.Tag.{bytes_eq}
use roughenough.Protocol.Version.{
  ProtocolVersion, rfc_draft08, rfc_draft14, dele_prefix, srep_prefix, new_versions,
}
use roughenough.Protocol.Wire.{as_bytes}
use roughenough.Protocol.Tags.{FixedTag}
use roughenough.Protocol.Tags.Dele.{
  Delegation, new_dele, dele_to_wire, dele_wire_size, Certificate, new_cert, same_offsets,
  same_tags,
}
use roughenough.Protocol.Tags.Srep.{
  SignedResponse, default_srep, default_radi_seconds, set_radi, set_vers, set_ver, set_root,
  set_midp, srep_wire_size, srep_to_wire, SignedResponseDraft08, default_srep08, set_radi08,
  set_root08, set_midp08, srep08_wire_size, srep08_to_wire,
}
use roughenough.Protocol.Response.{default_cert}

-- What the code uses of a library for Ed25519 signatures, with what it relies on.
pub record Ed25519 : Type 1 where
  pub KeyPair : Type 0
  pub public_key : KeyPair → List ℕ
  pub sign : KeyPair → List ℕ → List ℕ
  pub verify : List ℕ → List ℕ → List ℕ → Bool
  pub length-public_key : (key : KeyPair) → length (public_key key) ≡ 32
  pub length-sign : (key : KeyPair) (message : List ℕ) → length (sign key message) ≡ 64
  pub verify-sign :
      (key : KeyPair) (message : List ℕ) → verify (public_key key) message (sign key message) ≡ true

-- What the identity uses of a `SeedBackend`: a backend that fails to sign gives nothing.
pub record SeedBackend : Type 0 where
  pub seed_len : ℕ
  pub public_key_bytes : List ℕ
  pub seed_sign : List ℕ → Option (List ℕ)

-- `expect` on a result and on an option.
unfoldable pub expect_ok {ℓ} : {A : Type ℓ} → Result A → Result A
expect_ok (ok a) = ok a
expect_ok (err e) = panic
expect_ok panic = panic

unfoldable pub expect_some {ℓ} : {A : Type ℓ} → Option A → Result A
expect_some (some a) = ok a
expect_some none = panic

-- The derived `==`.
unfoldable pub dele_eq : Delegation → Delegation → Bool
unfolding same_offsets same_tags bytes_eq
dele_eq a b =
    same_offsets a.header.offsets b.header.offsets
    && (same_tags a.header.tags b.header.tags
        && (bytes_eq a.public_key b.public_key
            && ((a.max_time == b.max_time) && (a.min_time == b.min_time))))

unfoldable pub cert_eq : Certificate → Certificate → Bool
unfolding same_offsets same_tags bytes_eq dele_eq
cert_eq a b =
    same_offsets a.header.offsets b.header.offsets
    && (same_tags a.header.tags b.header.tags
        && (bytes_eq a.signature b.signature && dele_eq a.delegation b.delegation))

-- The buffer in which the bytes to sign are written behind a prefix.
unfoldable pub new_buf : List ℕ → ℕ → List ℕ
new_buf prefix size = prefix ++ replicate size 0

-- The buffer with what `to_wire` writes between `start` and `end`.
unfoldable pub write_between :
    ℕ → ℕ → (ParseCursor → Result (Unit {0} × ParseCursor)) → List ℕ → Result (List ℕ)
write_between start end to_wire buf =
    if ltb (length buf) end
    then panic
    else elim (to_wire (new (take (end - start) (drop start buf)))) [
      | ok (u, c) ↦ ok (take start buf ++ (c.bytes ++ drop end buf))
      | err e ↦ panic
      | panic ↦ panic
    ]

module _ (ed : Ed25519) where
  -- The field `signer` is the key pair.
  pub record OnlineKeyDraft14 : Type 0 where
    pub signer : ed.KeyPair
    pub cert : Certificate
    pub template_srep : SignedResponse
    pub signing_buf : List ℕ

  unfoldable pub template14 : ProtocolVersion → SignedResponse
  unfolding set_ver set_vers new_versions set_radi default_srep
  template14 version =
      set_ver version
        (set_vers (new_versions (version ∷ [])) (set_radi default_radi_seconds default_srep))

  unfoldable pub new_draft14 : ProtocolVersion → ed.KeyPair → OnlineKeyDraft14
  unfolding template14 new_buf srep_wire_size default_cert
  new_draft14 version signer = record {
    signer = signer;
    cert = default_cert;
    template_srep = template14 version;
    signing_buf = new_buf (srep_prefix rfc_draft14) (srep_wire_size (template14 version));
  }

  unfoldable pub cert14 : OnlineKeyDraft14 → Result Certificate
  unfolding cert_eq default_cert
  cert14 key = assert (not (cert_eq key.cert default_cert)) >> ok key.cert

  -- The signed response, its signature, and the key with its buffer as it is left.
  unfoldable pub make_srep14 :
      FixedTag → ℕ → OnlineKeyDraft14 → Result (SignedResponse × FixedTag × OnlineKeyDraft14)
  unfolding set_root set_midp srep_wire_size srep_to_wire write_between
  make_srep14 root now key = do
    let srep = set_midp now (set_root root key.template_srep)
    let prefix_len = length (srep_prefix rfc_draft14)
    let total_len = prefix_len + srep_wire_size srep
    buf ← write_between prefix_len total_len (srep_to_wire srep) key.signing_buf
    ok (srep, ed.sign key.signer (take total_len buf), record key { signing_buf = buf })

  pub record OnlineKeyDraft08 : Type 0 where
    pub signer : ed.KeyPair
    pub cert : Certificate
    pub template_srep : SignedResponseDraft08
    pub signing_buf : List ℕ

  unfoldable pub new_draft08 : ed.KeyPair → OnlineKeyDraft08
  unfolding new_buf default_cert set_radi08 default_srep08
  new_draft08 signer = record {
    signer = signer;
    cert = default_cert;
    template_srep = set_radi08 default_radi_seconds default_srep08;
    signing_buf = new_buf (srep_prefix rfc_draft08) srep08_wire_size;
  }

  unfoldable pub cert08 : OnlineKeyDraft08 → Result Certificate
  unfolding cert_eq default_cert
  cert08 key = assert (not (cert_eq key.cert default_cert)) >> ok key.cert

  unfoldable pub make_srep08 :
      FixedTag → ℕ → OnlineKeyDraft08 → Result (SignedResponseDraft08 × FixedTag × OnlineKeyDraft08)
  unfolding set_root08 set_midp08 srep08_to_wire write_between
  make_srep08 root now key = do
    let srep = set_midp08 now (set_root08 root key.template_srep)
    let prefix_len = length (srep_prefix rfc_draft08)
    let total_len = prefix_len + srep08_wire_size
    buf ← write_between prefix_len total_len (srep08_to_wire srep) key.signing_buf
    ok (srep, ed.sign key.signer (take total_len buf), record key { signing_buf = buf })

pub record LongTermIdentity : Type 0 where
  pub seed : SeedBackend
  pub version : ProtocolVersion

unfoldable pub new_identity : ProtocolVersion → SeedBackend → Result LongTermIdentity
new_identity version seed =
    assert (seed.seed_len == 32) >> ok (record { seed = seed; version = version })

-- The certificate for a delegation to a public key. `validity` is in seconds.
unfoldable pub delegate : LongTermIdentity → ProtocolVersion → FixedTag → ℕ → ℕ → Result Certificate
unfolding new_dele dele_to_wire as_bytes expect_ok expect_some new_cert
delegate identity version pubkey now validity = do
  let dele = new_dele pubkey now validity
  bytes ← expect_ok (as_bytes dele_wire_size (dele_to_wire dele))
  sig ← expect_some (identity.seed.seed_sign (dele_prefix version ++ bytes))
  ok (new_cert sig dele)

-- `identity` is shared behind a lock; `validity_length` is in nanoseconds.
pub record KeySource : Type 0 where
  pub identity : LongTermIdentity
  pub validity_length : ℕ

unfoldable pub new_source : ProtocolVersion → SeedBackend → ℕ → Result KeySource
unfolding new_identity
new_source version seed validity_length = do
  assert (not (validity_length == 0))
  identity ← new_identity version seed
  ok (record { identity = identity; validity_length = validity_length })

-- `Duration::as_secs`.
abbrev pub as_secs : ℕ → ℕ
as_secs nanoseconds = nanoseconds / 1000000000

module _ (ed : Ed25519) where
  unfoldable pub make_online_key_draft14 : KeySource → ℕ → ed.KeyPair → Result (OnlineKeyDraft14 ed)
  unfolding new_draft14 delegate
  make_online_key_draft14 source now signer = do
    let olk = new_draft14 ed source.identity.version signer
    cert ←
        delegate source.identity source.identity.version (ed.public_key signer) now
          (as_secs source.validity_length)
    ok (record olk { cert = cert })

  unfoldable pub make_online_key_draft08 : KeySource → ℕ → ed.KeyPair → Result (OnlineKeyDraft08 ed)
  unfolding new_draft08 delegate
  make_online_key_draft08 source now signer = do
    let olk = new_draft08 ed signer
    cert ←
        delegate source.identity rfc_draft08 (ed.public_key signer) now
          (as_secs source.validity_length)
    ok (record olk { cert = cert })
