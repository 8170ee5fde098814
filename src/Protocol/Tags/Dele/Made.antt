-- ===== src/Protocol/Tags/Dele/Made.antt =====
-- Certificates with the headers that the constructors give, as values.
use roughenough.Prelude.{ℕ, ◌^◌, ◌≡◌, refl, sym, subst, ap₂, List, length}
use roughenough.Prelude.{arith, length-append, ◌++◌, ◌<◌}
use roughenough.Prelude.Bytes.{to_le_bytes, length-to_le_bytes}
use roughenough.Protocol.Header.Spec.{encode, length-encode}
use roughenough.Protocol.Header.Writes.{to_wire-encode}
use roughenough.Protocol.Tags.Wire.{fixed_to_wire-Writes}
use roughenough.Protocol.Cursor.Writes.{Writes-bind, Writes-put_u64_le}
use roughenough.Protocol.Cursor.Reads.{Parses}
use roughenough.Protocol.Cursor.Writes.{Writes}
use roughenough.Protocol.Tags.{public_key_size, signature_size}
use roughenough.Protocol.Tags.Dele.{
  Delegation, dele_header, dele_wire_size, dele_to_wire, Certificate, cert_header, cert_wire_size,
  cert_to_wire, cert_from_wire,
}
use roughenough.Protocol.Tags.Dele.RoundTrip.{
  certificate, cert_bytes, cert_to_wire-Writes, cert_from_wire-Parses, length-cert_bytes,
}

pub record IsMadeDele (d : Delegation) : Type 0 where
  pub headed : d.header ≡ dele_header
  pub keyed : length d.public_key ≡ public_key_size
  pub early : d.min_time < 2 ^ 64
  pub late : d.max_time < 2 ^ 64

pub record IsMade (c : Certificate) : Type 0 where
  pub headed : c.header ≡ cert_header
  pub signed : length c.signature ≡ signature_size
  pub delegated : IsMadeDele c.delegation

unfoldable pub delegation_bytes : Delegation → List ℕ
delegation_bytes d =
    encode 3 dele_header ++ (d.public_key ++ (to_le_bytes 8 d.min_time ++ to_le_bytes 8 d.max_time))

unfoldable pub certificate_bytes : Certificate → List ℕ
certificate_bytes c =
    cert_bytes c.signature c.delegation.public_key c.delegation.min_time c.delegation.max_time

pub delegation_bytes-Writes :
    (d : Delegation) → d.header ≡ dele_header → Writes (dele_to_wire d) (delegation_bytes d)
unfolding dele_to_wire delegation_bytes
delegation_bytes-Writes d e = rw e (
    Writes-bind _ (to_wire-encode 3 dele_header (omega arith) refl refl) (
      Writes-bind _ (fixed_to_wire-Writes d.public_key)
        (Writes-bind _ (Writes-put_u64_le d.min_time) (Writes-put_u64_le d.max_time))))

pub length-delegation_bytes :
    (d : Delegation)
    → length d.public_key ≡ public_key_size
    → length (delegation_bytes d) ≡ dele_wire_size
unfolding delegation_bytes
length-delegation_bytes d keyed = omega (
  arith,
  keyed,
  length-append (encode 3 dele_header)
      (d.public_key ++ (to_le_bytes 8 d.min_time ++ to_le_bytes 8 d.max_time)),
  length-append d.public_key (to_le_bytes 8 d.min_time ++ to_le_bytes 8 d.max_time),
  length-append (to_le_bytes 8 d.min_time) (to_le_bytes 8 d.max_time),
  length-to_le_bytes 8 d.min_time,
  length-to_le_bytes 8 d.max_time,
  length-encode 3 dele_header (omega arith) refl refl,
)

module _ (c : Certificate) (m : IsMade c) where
  same :
      certificate c.signature c.delegation.public_key c.delegation.min_time c.delegation.max_time
      ≡ c
  same =
      ap₂
        (λ h g. record {
          header = h;
          signature = c.signature;
          delegation = record c.delegation { header = g };
        })
        (sym m.headed) (sym m.delegated.headed)

  pub certificate_bytes-Writes : Writes (cert_to_wire c) (certificate_bytes c)
  unfolding certificate_bytes
  certificate_bytes-Writes =
      subst (λ t. Writes (cert_to_wire t) (certificate_bytes c)) same
        (cert_to_wire-Writes c.signature c.delegation.public_key c.delegation.min_time
          c.delegation.max_time)

  pub certificate_bytes-Parses :
      (rest : List ℕ) → Parses cert_from_wire (certificate_bytes c) c rest
  unfolding certificate_bytes
  certificate_bytes-Parses rest =
      subst (λ t. Parses cert_from_wire (certificate_bytes c) t rest) same
        (cert_from_wire-Parses c.signature c.delegation.public_key c.delegation.min_time
          c.delegation.max_time m.signed m.delegated.keyed m.delegated.early m.delegated.late rest)

  pub length-certificate_bytes : length (certificate_bytes c) ≡ cert_wire_size
  unfolding certificate_bytes
  length-certificate_bytes =
      length-cert_bytes c.signature c.delegation.public_key c.delegation.min_time
        c.delegation.max_time m.signed m.delegated.keyed m.delegated.early m.delegated.late
