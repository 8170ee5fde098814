-- ===== src/Protocol/Tags/Srep/RoundTrip.antt =====
-- SREP of tags/srep.rs through `to_wire` and back through `from_wire`.
use roughenough.Prelude.{
  ℕ, ◌+◌, ◌*◌, ◌^◌, ◌<◌, ◌≡◌, refl, ap, ◌∙◌, false, List, [], ◌∷◌, ◌++◌, length, arith, ◌==◌,
  length-append,
}
use roughenough.Prelude.Bytes.{to_le_bytes, length-to_le_bytes}
use roughenough.Protocol.Error.{ok, unexpected_offsets, unexpected_tags, no_supported_versions}
use roughenough.Protocol.Cursor.{new}
use roughenough.Protocol.Cursor.Reads.{
  Parses, Parses-pure, Parses-bind, Parses-then, Parses-map, Parses-lift, Parses-test,
  Parses-try_get_u32_le, Parses-try_get_u64_le,
}
use roughenough.Protocol.Cursor.Writes.{Writes, Writes-bind, Writes-put_u32_le, Writes-put_u64_le}
use roughenough.Protocol.Wire.{as_bytes}
use roughenough.Protocol.Wire.Frame.{as_bytes-Writes, Parses-whole}
use roughenough.Protocol.Tag
use roughenough.Protocol.Header.{Header}
use roughenough.Protocol.Header.Spec.{IsWellFormed, encode, length-encode}
use roughenough.Protocol.Header.Reads.{from_wire-encode, check_remaining-Parses}
use roughenough.Protocol.Header.Writes.{to_wire-encode}
use roughenough.Protocol.Version.{
  ProtocolVersion, VersionList, versions_wire_size, versions_from_wire_n, sub_assign,
}
use roughenough.Protocol.Version.Wire.{
  IsVersionList, version_bytes, versions_bytes, length-version_bytes, length-versions_bytes,
  version_from_wire-Parses, version_to_wire-Writes, versions_to_wire-Writes,
  versions_from_wire_n-Parses, sub_assign-ok,
}
use roughenough.Protocol.Tags.{FixedTag, root_size}
use roughenough.Protocol.Tags.Wire.{fixed_to_wire-Writes, fixed_from_wire-Parses}
use roughenough.Protocol.Tags.Dele.{same_offsets, same_tags}
use roughenough.Protocol.Tags.Srep.{
  SignedResponse, default_srep, srep_tags, set_vers, set_fourth, srep_wire_size, srep_to_wire,
  srep_from_wire,
}

-- A signed response with the header that `set_vers` gives.
abbrev pub signed_response : ProtocolVersion → ℕ → ℕ → VersionList → FixedTag → SignedResponse
signed_response version radius midpoint supported root = record {
  header = record { offsets = 4 ∷ 8 ∷ 16 ∷ (16 + length supported * 4) ∷ []; tags = srep_tags };
  version = version;
  radius = radius;
  midpoint = midpoint;
  supported_versions = supported;
  merkle_root = root;
}

module _ (version : ProtocolVersion) (radius midpoint : ℕ) (supported : VersionList)
    (root : FixedTag) where
  unfoldable pub srep_header : Header
  srep_header = record { offsets = 4 ∷ 8 ∷ 16 ∷ (16 + length supported * 4) ∷ []; tags = srep_tags }

  unfoldable pub srep_values : List ℕ
  srep_values =
      version_bytes version
      ++ (to_le_bytes 4 radius ++ (to_le_bytes 8 midpoint ++ (versions_bytes supported ++ root)))

  module _ (small : radius < 2 ^ 32) (small' : midpoint < 2 ^ 64)
      (some_versions : 0 < length supported) (listed : IsVersionList supported)
      (rooted : length root ≡ 32) where
    pub srep_header-IsWellFormed : IsWellFormed 5 srep_header
    unfolding Tag.lt srep_header
    srep_header-IsWellFormed = record {
      num_offsets = refl;
      num_tags = refl;
      offsets_ascend = (
        omega arith,
        refl,
        omega arith,
        (
          omega arith,
          refl,
          omega arith,
          (
            omega arith,
            refl,
            omega arith,
            (omega arith, omega arith, omega (arith, listed.fits), tt),
          ),
        ),
      );
      tags_ascend = (
        refl,
        (λ e. cc),
        (refl, (λ e. cc), (refl, (λ e. cc), (refl, (λ e. cc), (refl, (λ e. cc), tt)))),
      );
    }

    pub length-srep_values : length srep_values ≡ 48 + length supported * 4
    unfolding srep_values versions_wire_size
    length-srep_values = omega (
      arith,
      rooted,
      length-append (version_bytes version)
          (to_le_bytes 4 radius ++ (to_le_bytes 8 midpoint ++ (versions_bytes supported ++ root))),
      length-append (to_le_bytes 4 radius)
          (to_le_bytes 8 midpoint ++ (versions_bytes supported ++ root)),
      length-append (to_le_bytes 8 midpoint) (versions_bytes supported ++ root),
      length-append (versions_bytes supported) root,
      length-version_bytes version,
      length-versions_bytes supported,
      length-to_le_bytes 4 radius,
      length-to_le_bytes 8 midpoint,
    )

    pub srep_to_wire-Writes :
        Writes
          (srep_to_wire (signed_response version radius midpoint supported root))
          (encode 5 srep_header ++ srep_values)
    unfolding srep_to_wire srep_values srep_header
    srep_to_wire-Writes = Writes-bind _ (to_wire-encode 5 _ (omega arith) refl refl) (
        Writes-bind _ (version_to_wire-Writes version) (
          Writes-bind _ (Writes-put_u32_le radius) (
            Writes-bind _ (Writes-put_u64_le midpoint)
              (Writes-bind _ (versions_to_wire-Writes supported) (fixed_to_wire-Writes root)))))

    pub srep_from_wire-Parses :
        (rest : List ℕ)
        → length rest < 2 ^ 31
        → Parses srep_from_wire
            (encode 5 srep_header ++ srep_values)
            (signed_response version radius midpoint supported root)
            rest
    unfolding srep_from_wire srep_header srep_values same_offsets same_tags Tag.tag_value
        versions_wire_size
    srep_from_wire-Parses rest few =
        let n : ℕ = length supported * 4 in
        let ver : List ℕ = version_bytes version in
        let radi : List ℕ = to_le_bytes 4 radius in
        let midp : List ℕ = to_le_bytes 8 midpoint in
        let vers : List ℕ = versions_bytes supported in
        let values : List ℕ = ver ++ (radi ++ (midp ++ (vers ++ root))) in
        let long : length (values ++ rest) ≡ 48 + n + length rest =
          omega (arith, length-append values rest, length-srep_values) in
        let differ : (16 == 16 + n) ≡ false = ground arith in
        let size : sub_assign (16 + n) 16 ≡ ok (length supported * 4) =
          sub_assign-ok (16 + n) 16 (omega arith) ∙ ap (λ k. ok k) (omega arith) in
        Parses-bind _ (encode 5 srep_header) values rest
          (from_wire-encode 5 srep_header (values ++ rest) (omega arith) (omega arith)
            srep_header-IsWellFormed)
          (Parses-then _ values rest
            (check_remaining-Parses srep_header (values ++ rest) (omega (arith, long, listed.fits))
              (
                omega (arith, long),
                (omega (arith, long), (omega (arith, long), (omega (arith, long), tt))),
              ))
            (Parses-test false unexpected_tags _ values rest refl (
              Parses-test false unexpected_offsets _ values rest refl (
                Parses-then _ values rest (Parses-pure 16 (values ++ rest)) (
                  Parses-then _ values rest (Parses-pure (16 + n) (values ++ rest)) (
                    Parses-test (16 == 16 + n) no_supported_versions _ values rest differ (
                      Parses-bind _ ver (radi ++ (midp ++ (vers ++ root))) rest
                        (version_from_wire-Parses version
                          ((radi ++ (midp ++ (vers ++ root))) ++ rest))
                        (Parses-bind _ radi (midp ++ (vers ++ root)) rest
                          (Parses-try_get_u32_le radius ((midp ++ (vers ++ root)) ++ rest) small)
                          (Parses-bind _ midp (vers ++ root) rest
                            (Parses-try_get_u64_le midpoint ((vers ++ root) ++ rest) small')
                            (Parses-then _ (vers ++ root) rest
                              (Parses-lift (sub_assign (16 + n) 16) n ((vers ++ root) ++ rest) size)
                              (Parses-bind _ vers root rest (listed_Parses (root ++ rest)) (
                                Parses-map _ root rest
                                  (fixed_from_wire-Parses 32 root rest rooted)))))))))))))
      where
        listed_Parses :
            (rest : List ℕ)
            → Parses
                (versions_from_wire_n (length supported * 4))
                (versions_bytes supported)
                supported
                rest
        listed_Parses rest = versions_from_wire_n-Parses supported rest listed

-- What the server makes: a default SREP with its fields set, `set_vers` for the versions.
abbrev pub made_srep : ProtocolVersion → ℕ → ℕ → VersionList → FixedTag → SignedResponse
made_srep version radius midpoint supported root = set_vers supported (record default_srep {
  version = version;
  radius = radius;
  midpoint = midpoint;
  merkle_root = root;
})

pub length-srep_bytes :
    (version : ProtocolVersion) (radius midpoint : ℕ) (supported : VersionList) (root : FixedTag)
    → length (
        encode 5 (srep_header version radius midpoint supported root)
        ++ srep_values version radius midpoint supported root)
      ≡ 40 + length (srep_values version radius midpoint supported root)
unfolding srep_header
length-srep_bytes version radius midpoint supported root = omega (
  arith,
  length-append (encode 5 (srep_header version radius midpoint supported root))
      (srep_values version radius midpoint supported root),
  length-encode 5 (srep_header version radius midpoint supported root) (omega arith) refl refl,
)

-- A signed response made with `set_vers`, for a radius of 32 bits, a midpoint of 64 bits, an ordered list of
-- 1 to 32 versions and a root of 32 bytes, is written as the `wire_size` bytes that it promises, and
-- read back from exactly those.
pub srep_from_wire-srep_to_wire :
    (version : ProtocolVersion) (radius midpoint : ℕ) (supported : VersionList) (root : FixedTag)
    → radius < 2 ^ 32
    → midpoint < 2 ^ 64
    → 0 < length supported
    → IsVersionList supported
    → length root ≡ root_size
    → (bytes : List ℕ) × (size : ℕ) × (srep_wire_size
          (made_srep version radius midpoint supported root)
        ≡ size)
      × (as_bytes size (srep_to_wire (made_srep version radius midpoint supported root)) ≡ ok bytes)
      × (length bytes ≡ size)
      × (srep_from_wire (new bytes)
          ≡ ok (
            made_srep version radius midpoint supported root,
            record { bytes = bytes; position = size },
          ))
unfolding srep_wire_size versions_wire_size set_vers set_fourth default_srep
srep_from_wire-srep_to_wire version radius midpoint supported root small small' some_versions listed
      rooted =
    let bytes : List ℕ =
      encode 5 (srep_header version radius midpoint supported root)
      ++ srep_values version radius midpoint supported root in
    let size : length bytes ≡ 88 + length supported * 4 = omega (
      arith,
      length-srep_bytes version radius midpoint supported root,
      length-srep_values version radius midpoint supported root small small' some_versions listed
          rooted,
    ) in
    (
      bytes,
      88 + length supported * 4,
      omega arith,
      as_bytes-Writes (88 + length supported * 4)
          (srep_to_wire-Writes version radius midpoint supported root small small' some_versions
            listed rooted)
          size,
      size,
      Parses-whole (88 + length supported * 4) bytes
          (srep_from_wire-Parses version radius midpoint supported root small small' some_versions
            listed rooted [] (omega arith))
          size,
    )
