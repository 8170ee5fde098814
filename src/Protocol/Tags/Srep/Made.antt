-- ===== src/Protocol/Tags/Srep/Made.antt =====
-- Signed responses with the header that `set_vers` gives, as values.
use roughenough.Prelude.{
  ℕ, ◌+◌, ◌*◌, ◌^◌, ◌<◌, ◌≡◌, sym, subst, ap, List, [], ◌∷◌, ◌++◌, length, arith,
}
use roughenough.Protocol.Header.Spec.{encode}
use roughenough.Protocol.Cursor.Reads.{Parses}
use roughenough.Protocol.Cursor.Writes.{Writes}
use roughenough.Protocol.Version.{versions_wire_size}
use roughenough.Protocol.Version.Wire.{IsVersionList}
use roughenough.Protocol.Tags.{root_size}
use roughenough.Protocol.Tags.Srep.{
  SignedResponse, srep_tags, srep_wire_size, srep_to_wire, srep_from_wire,
}
use roughenough.Protocol.Tags.Srep.RoundTrip.{
  signed_response, srep_header, srep_values, length-srep_values, length-srep_bytes,
  srep_to_wire-Writes, srep_from_wire-Parses,
}

pub record IsMade (s : SignedResponse) : Type 0 where
  pub headed : s.header ≡ record {
    offsets = 4 ∷ 8 ∷ 16 ∷ (16 + length s.supported_versions * 4) ∷ [];
    tags = srep_tags;
  }
  pub radius_small : s.radius < 2 ^ 32
  pub midpoint_small : s.midpoint < 2 ^ 64
  pub some_versions : 0 < length s.supported_versions
  pub listed : IsVersionList s.supported_versions
  pub rooted : length s.merkle_root ≡ root_size

unfoldable pub srep_bytes : SignedResponse → List ℕ
srep_bytes s =
    encode 5 (srep_header s.version s.radius s.midpoint s.supported_versions s.merkle_root)
    ++ srep_values s.version s.radius s.midpoint s.supported_versions s.merkle_root

module _ (s : SignedResponse) (m : IsMade s) where
  same : signed_response s.version s.radius s.midpoint s.supported_versions s.merkle_root ≡ s
  same = ap (λ h. record s { header = h }) (sym m.headed)

  pub srep_bytes-Writes : Writes (srep_to_wire s) (srep_bytes s)
  unfolding srep_bytes
  srep_bytes-Writes =
      subst (λ t. Writes (srep_to_wire t) (srep_bytes s)) same
        (srep_to_wire-Writes s.version s.radius s.midpoint s.supported_versions s.merkle_root
          m.radius_small m.midpoint_small m.some_versions m.listed m.rooted)

  pub srep_bytes-Parses :
      (rest : List ℕ) → length rest < 2 ^ 31 → Parses srep_from_wire (srep_bytes s) s rest
  unfolding srep_bytes
  srep_bytes-Parses rest few =
      subst (λ t. Parses srep_from_wire (srep_bytes s) t rest) same
        (srep_from_wire-Parses s.version s.radius s.midpoint s.supported_versions s.merkle_root
          m.radius_small m.midpoint_small m.some_versions m.listed m.rooted rest few)

  pub length-made_bytes : length (srep_bytes s) ≡ srep_wire_size s
  unfolding srep_bytes srep_wire_size versions_wire_size
  length-made_bytes = omega (
    arith,
    length-srep_bytes s.version s.radius s.midpoint s.supported_versions s.merkle_root,
    length-srep_values s.version s.radius s.midpoint s.supported_versions s.merkle_root
        m.radius_small m.midpoint_small m.some_versions m.listed m.rooted,
  )
