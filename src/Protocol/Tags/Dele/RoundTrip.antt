-- ===== src/Protocol/Tags/Dele/RoundTrip.antt =====
-- DELE and CERT of tags/dele.rs and tags/cert.rs through `to_wire` and back through `from_wire`.
use roughenough.Prelude.{
  ℕ, ◌^◌, ◌<◌, ◌≡◌, refl, false, List, [], ◌++◌, length, arith, length-append,
}
use roughenough.Prelude.Bytes.{to_le_bytes, length-to_le_bytes}
use roughenough.Protocol.Error.{ok, unexpected_offsets, unexpected_tags}
use roughenough.Protocol.Cursor.{new}
use roughenough.Protocol.Cursor.Reads.{
  Parses, Parses-pure, Parses-bind, Parses-last, Parses-test, Parses-try_get_u64_le,
}
use roughenough.Protocol.Cursor.Writes.{Writes, Writes-bind, Writes-put_u64_le}
use roughenough.Protocol.Wire.{as_bytes}
use roughenough.Protocol.Wire.Frame.{as_bytes-Writes, Parses-whole}
use roughenough.Protocol.Tag
use roughenough.Protocol.Header.Spec.{IsWellFormed, encode, length-encode}
use roughenough.Protocol.Header.Reads.{from_wire-encode}
use roughenough.Protocol.Header.Writes.{to_wire-encode}
use roughenough.Protocol.Tags.{FixedTag, public_key_size, signature_size}
use roughenough.Protocol.Tags.Wire.{fixed_to_wire-Writes, fixed_from_wire-Parses}
use roughenough.Protocol.Tags.Dele.{
  dele_header, dele_to_wire, dele_from_wire, Certificate, cert_header, cert_wire_size, cert_to_wire,
  cert_from_wire, same_offsets, same_tags,
}

dele_header-IsWellFormed : IsWellFormed 3 dele_header
unfolding Tag.lt
dele_header-IsWellFormed = record {
  num_offsets = refl;
  num_tags = refl;
  offsets_ascend = (omega arith, refl, omega arith, (omega arith, refl, omega arith, tt));
  tags_ascend = (refl, (λ e. cc), (refl, (λ e. cc), (refl, (λ e. cc), tt)));
}

cert_header-IsWellFormed : IsWellFormed 2 cert_header
unfolding Tag.lt
cert_header-IsWellFormed = record {
  num_offsets = refl;
  num_tags = refl;
  offsets_ascend = (omega arith, refl, omega arith, tt);
  tags_ascend = (refl, (λ e. cc), (refl, (λ e. cc), tt));
}

-- A certificate with the headers that the constructors give.
abbrev pub certificate : FixedTag → FixedTag → ℕ → ℕ → Certificate
certificate signature key min_time max_time = record {
  header = cert_header;
  signature = signature;
  delegation = record {
    header = dele_header;
    public_key = key;
    min_time = min_time;
    max_time = max_time;
  };
}

unfoldable pub times : ℕ → ℕ → List ℕ
times min_time max_time = to_le_bytes 8 min_time ++ to_le_bytes 8 max_time

module _ (signature key : FixedTag) (min_time max_time : ℕ) where
  unfoldable pub dele_bytes : List ℕ
  dele_bytes = encode 3 dele_header ++ (key ++ times min_time max_time)

  unfoldable pub cert_bytes : List ℕ
  cert_bytes = encode 2 cert_header ++ (signature ++ dele_bytes)

  pub cert_to_wire-Writes :
      Writes (cert_to_wire (certificate signature key min_time max_time)) cert_bytes
  unfolding cert_to_wire dele_to_wire cert_bytes dele_bytes times
  cert_to_wire-Writes = Writes-bind _ (to_wire-encode 2 cert_header (omega arith) refl refl) (
      Writes-bind _ (fixed_to_wire-Writes signature) (
        Writes-bind _ (to_wire-encode 3 dele_header (omega arith) refl refl) (
          Writes-bind _ (fixed_to_wire-Writes key)
            (Writes-bind _ (Writes-put_u64_le min_time) (Writes-put_u64_le max_time)))))

  module _ (signed : length signature ≡ 64) (keyed : length key ≡ 32) (early : min_time < 2 ^ 64)
      (late : max_time < 2 ^ 64) where
    pub dele_from_wire-Parses :
        (rest : List ℕ)
        → Parses dele_from_wire dele_bytes
            (certificate signature key min_time max_time).delegation
            rest
    unfolding dele_from_wire dele_bytes times same_offsets same_tags Tag.tag_value
    dele_from_wire-Parses rest =
        let low : List ℕ = to_le_bytes 8 min_time in
        let high : List ℕ = to_le_bytes 8 max_time in
        Parses-bind _ (encode 3 dele_header) (key ++ (low ++ high)) rest
          (from_wire-encode 3 dele_header ((key ++ (low ++ high)) ++ rest) (omega arith)
            (omega arith) dele_header-IsWellFormed)
          (Parses-bind _ key (low ++ high) rest
            (fixed_from_wire-Parses 32 key ((low ++ high) ++ rest) keyed)
            (Parses-bind _ low high rest (Parses-try_get_u64_le min_time (high ++ rest) early) (
              Parses-last _ high rest (Parses-try_get_u64_le max_time rest late) (
                Parses-test false unexpected_offsets _ [] rest refl (
                  Parses-test false unexpected_tags _ [] rest refl
                    (Parses-pure (certificate signature key min_time max_time).delegation rest))))))

    pub cert_from_wire-Parses :
        (rest : List ℕ)
        → Parses cert_from_wire cert_bytes (certificate signature key min_time max_time) rest
    unfolding cert_from_wire cert_bytes same_offsets same_tags Tag.tag_value
    cert_from_wire-Parses rest =
        Parses-bind _ (encode 2 cert_header) (signature ++ dele_bytes) rest
          (from_wire-encode 2 cert_header ((signature ++ dele_bytes) ++ rest) (omega arith)
            (omega arith) cert_header-IsWellFormed)
          (Parses-bind _ signature dele_bytes rest
            (fixed_from_wire-Parses 64 signature (dele_bytes ++ rest) signed)
            (Parses-last _ dele_bytes rest (dele_from_wire-Parses rest) (
              Parses-test false unexpected_offsets _ [] rest refl (
                Parses-test false unexpected_tags _ [] rest refl
                  (Parses-pure (certificate signature key min_time max_time) rest)))))

    pub length-cert_bytes : length cert_bytes ≡ cert_wire_size
    unfolding cert_bytes dele_bytes times
    length-cert_bytes = omega (
      arith,
      signed,
      keyed,
      length-append (encode 2 cert_header) (
          signature
          ++ (encode 3 dele_header ++ (key ++ (to_le_bytes 8 min_time ++ to_le_bytes 8 max_time)))),
      length-append signature
          (encode 3 dele_header ++ (key ++ (to_le_bytes 8 min_time ++ to_le_bytes 8 max_time))),
      length-append (encode 3 dele_header)
          (key ++ (to_le_bytes 8 min_time ++ to_le_bytes 8 max_time)),
      length-append key (to_le_bytes 8 min_time ++ to_le_bytes 8 max_time),
      length-append (to_le_bytes 8 min_time) (to_le_bytes 8 max_time),
      length-to_le_bytes 8 min_time,
      length-to_le_bytes 8 max_time,
      length-encode 2 cert_header (omega arith) refl refl,
      length-encode 3 dele_header (omega arith) refl refl,
    )

-- A certificate with a signature of 64 bytes, a key of 32 and times of 64 bits is written as 152
-- bytes, and read back from exactly those.
pub cert_from_wire-cert_to_wire :
    (signature key : FixedTag) (min_time max_time : ℕ)
    → length signature ≡ signature_size
    → length key ≡ public_key_size
    → min_time < 2 ^ 64
    → max_time < 2 ^ 64
    → (bytes : List ℕ) × (as_bytes cert_wire_size
          (cert_to_wire (certificate signature key min_time max_time))
        ≡ ok bytes)
      × (length bytes ≡ cert_wire_size)
      × (cert_from_wire (new bytes)
          ≡ ok (
            certificate signature key min_time max_time,
            record { bytes = bytes; position = cert_wire_size },
          ))
cert_from_wire-cert_to_wire signature key min_time max_time signed keyed early late =
    let bytes : List ℕ = cert_bytes signature key min_time max_time in
    let size : length bytes ≡ cert_wire_size =
      length-cert_bytes signature key min_time max_time signed keyed early late in
    (
      bytes,
      as_bytes-Writes cert_wire_size (cert_to_wire-Writes signature key min_time max_time) size,
      size,
      Parses-whole cert_wire_size bytes
          (cert_from_wire-Parses signature key min_time max_time signed keyed early late []) size,
    )
