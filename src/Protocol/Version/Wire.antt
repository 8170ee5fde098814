-- ===== src/Protocol/Version/Wire.antt =====
-- Versions and version lists on the wire: what protocol_ver.rs and version_list.rs read and write.
use roughenough.Prelude.{
  ℕ, zero, suc, ◌+◌, ◌-◌, ◌*◌, ◌%◌, ◌^◌, ◌≤◌, ◌<◌, ◌≡◌, ◌≢◌, refl, false, Option, none, some, List,
  [], ◌∷◌, ◌++◌, length, arith, ltb, ltb→lt, le→not_ltb, lt→ltb, Bool-cases, inl, inr,
  length-append, append-nil, subst, sym, ◌∙◌, ◌==◌,
}
use roughenough.Prelude.Bytes.{to_le_bytes, length-to_le_bytes}
use roughenough.Protocol.Error.{ok, panic, invalid_version, unordered_version}
use roughenough.Protocol.Wire.{as_bytes}
use roughenough.Protocol.Wire.Frame.{as_bytes-Writes, Parses-whole}
use roughenough.Protocol.Cursor.{ParseCursor, new, lift}
use roughenough.Protocol.Cursor.Reads.{
  Parses, Parses-pure, Parses-lift, Parses-bind, Parses-then, Parses-test, Parses-map,
  Parses-try_get_u32_le,
}
use roughenough.Protocol.Cursor.Writes.{Writes, Writes-pure, Writes-bind, Writes-put_u32_le}
use roughenough.Protocol.Cursor.Total.{
  IsValid, Outcome, Total, Total-pure, Total-fail, Total-if, Total-bind, Total-refuse_if,
  Total-try_get_u32_le, Total-lift, Total-lift_ok, Total-weaken,
}
use roughenough.Protocol.Version.{
  ProtocolVersion, rfc_draft08, rfc_draft14, version_value, version_to_wire, version_of,
  version_from_wire, VersionList, max_versions, version_size, versions_wire_size, versions_to_wire,
  is_below, sub_assign, get_versions, versions_from_wire_n,
}

-- Versions in order from `prior` on.
abbrev pub Ordered : Option ProtocolVersion → VersionList → Type 0
Ordered prior [] = Unit
Ordered prior (v ∷ vs) = (is_below v prior ≡ false) × Ordered (some v) vs

-- The lists that VER and VERS can carry.
pub record IsVersionList (vs : VersionList) : Type 0 where
  pub fits : length vs ≤ max_versions
  pub ordered : Ordered none vs

unfoldable pub version_bytes : ProtocolVersion → List ℕ
version_bytes v = to_le_bytes 4 (version_value v)

unfoldable pub versions_bytes : VersionList → List ℕ
versions_bytes [] = []
versions_bytes (v ∷ vs) = version_bytes v ++ versions_bytes vs

pub length-version_bytes : (v : ProtocolVersion) → length (version_bytes v) ≡ 4
unfolding version_bytes
length-version_bytes v = length-to_le_bytes 4 (version_value v)

pub length-versions_bytes : (vs : VersionList) → length (versions_bytes vs) ≡ versions_wire_size vs
unfolding versions_bytes versions_wire_size
length-versions_bytes [] = refl
length-versions_bytes (v ∷ vs) = omega (
  arith,
  length-append (version_bytes v) (versions_bytes vs),
  length-version_bytes v,
  length-versions_bytes vs,
)

ok-ne-panic : {A : Type 0} (a : A) → ok a ≢ panic
ok-ne-panic a e = cc

ok-inj : {a b : ℕ} → ok a ≡ ok b → a ≡ b
ok-inj e = cc

version_value-lt : (v : ProtocolVersion) → version_value v < 2 ^ 32
unfolding version_value
version_value-lt rfc_draft08 = omega arith
version_value-lt rfc_draft14 = omega arith

version_of-Parses :
    (v : ProtocolVersion) (rest : List ℕ) → Parses (version_of (version_value v)) [] v rest
unfolding version_of version_value
version_of-Parses rfc_draft08 rest = Parses-pure rfc_draft08 rest
version_of-Parses rfc_draft14 rest = Parses-pure rfc_draft14 rest

pub version_from_wire-Parses :
    (v : ProtocolVersion) (rest : List ℕ) → Parses version_from_wire (version_bytes v) v rest
unfolding version_from_wire version_bytes
version_from_wire-Parses v rest =
    subst (λ xs. Parses version_from_wire xs v rest) (append-nil (to_le_bytes 4 (version_value v)))
      (Parses-bind _ (to_le_bytes 4 (version_value v)) [] rest
        (Parses-try_get_u32_le (version_value v) rest (version_value-lt v))
        (version_of-Parses v rest))

pub version_to_wire-Writes : (v : ProtocolVersion) → Writes (version_to_wire v) (version_bytes v)
unfolding version_to_wire version_bytes
version_to_wire-Writes v = Writes-put_u32_le (version_value v)

-- A version list is written as its versions, one after the other.
pub versions_to_wire-Writes : (vs : VersionList) → Writes (versions_to_wire vs) (versions_bytes vs)
unfolding versions_to_wire versions_bytes
versions_to_wire-Writes [] = Writes-pure
versions_to_wire-Writes (v ∷ vs) =
    Writes-bind _ (version_to_wire-Writes v) (versions_to_wire-Writes vs)

pub sub_assign-ok : (a b : ℕ) → b ≤ a → sub_assign a b ≡ ok (a - b)
unfolding sub_assign
sub_assign-ok a b h = rw (le→not_ltb a b h)

get_versions-Parses :
    (room idx left : ℕ) (prior : Option ProtocolVersion) (vs : VersionList) (rest : List ℕ)
    → length vs ≤ room
    → left ≡ 4 * length vs
    → Ordered prior vs
    → Parses (get_versions room idx left prior) (versions_bytes vs) vs rest
unfolding get_versions versions_bytes
get_versions-Parses zero idx left prior [] rest fits e h = Parses-pure [] rest
get_versions-Parses zero idx left prior (v ∷ vs) rest fits e h = absurd (omega arith)
get_versions-Parses (suc room) idx left prior [] rest fits e h =
    rw (le→not_ltb 0 left (omega arith), get_versions) (Parses-pure [] rest)
get_versions-Parses (suc room) idx left prior (v ∷ vs) rest fits e h =
    rw (lt→ltb 0 left (omega arith), get_versions)
      (Parses-bind _ (version_bytes v) (versions_bytes vs) rest
        (version_from_wire-Parses v (versions_bytes vs ++ rest))
        (Parses-test (is_below v prior) (unordered_version idx (version_value v)) _
          (versions_bytes vs) rest h.0
          (Parses-then _ (versions_bytes vs) rest
            (Parses-lift (sub_assign left 4) (left - 4) (versions_bytes vs ++ rest)
              (sub_assign-ok left 4 (omega arith)))
            (Parses-map (λ ws. v ∷ ws) (versions_bytes vs) rest
              (get_versions-Parses room (idx + 1) (left - 4) (some v) vs rest (omega arith)
                (omega arith) h.1)))))

-- Before the bytes of a version list `from_wire_n` gives that list and stops behind it.
pub versions_from_wire_n-Parses :
    (vs : VersionList) (rest : List ℕ)
    → IsVersionList vs
    → Parses (versions_from_wire_n (versions_wire_size vs)) (versions_bytes vs) vs rest
unfolding versions_from_wire_n versions_wire_size
versions_from_wire_n-Parses vs rest h =
    get_versions-Parses max_versions 0 (length vs * version_size) none vs rest h.fits (omega arith)
      h.ordered

pub version_from_wire-Total : Total version_from_wire (λ _. Unit {0})
unfolding version_from_wire version_of
version_from_wire-Total = Total-bind _ _ Total-try_get_u32_le λ value _.
    Total-if (value == 0x00000000) _ _ (λ _. Total-pure rfc_draft08 tt)
      λ _.
        Total-if (value == 0x80000008) _ _ (λ _. Total-pure rfc_draft08 tt)
          λ _.
            Total-if (value == 0x8000000c) _ _ (λ _. Total-pure rfc_draft14 tt)
              λ _. Total-fail (invalid_version value)

get_versions-Total :
    (room idx left : ℕ) (prior : Option ProtocolVersion)
    → left % 4 ≡ 0
    → Total (get_versions room idx left prior) (λ vs. (length vs ≤ room) × Ordered prior vs)
unfolding get_versions
get_versions-Total zero idx left prior h = Total-pure [] (omega arith, tt)
get_versions-Total (suc room) idx left prior h = elim (Bool-cases (ltb 0 left)) [
  | inr done ↦ rw (done, get_versions) (Total-pure [] (omega arith, tt))
  | inl more ↦
      let enough : 4 ≤ left = omega (arith, ltb→lt 0 left more) in
      rw (more, get_versions)
        (Total-bind _ _ version_from_wire-Total λ v _.
          Total-bind _ _
            (Total-refuse_if (is_below v prior) (unordered_version idx (version_value v)))
            λ _ ordered.
              Total-bind _ _
                (Total-lift (sub_assign left version_size) (λ a. a % 4 ≡ 0)
                  (λ e. ok-ne-panic (left - 4) (sym (sub_assign-ok left 4 enough) ∙ e))
                  (λ a e.
                    subst (λ k. k % 4 ≡ 0) (ok-inj (sym (sub_assign-ok left 4 enough) ∙ e))
                      (omega arith)))
                λ left' aligned.
                  Total-bind _ _ (get_versions-Total room (idx + 1) left' (some v) aligned)
                    λ vs k. Total-pure (v ∷ vs) (omega (arith, k.0), (ordered, k.1)))
]

-- Where `n` is a multiple of four, `from_wire_n` does not panic, whatever the bytes are, and it
-- accepts ordered lists of at most `max_versions` versions only.
pub versions_from_wire_n-Total : (n : ℕ) → n % 4 ≡ 0 → Total (versions_from_wire_n n) IsVersionList
unfolding versions_from_wire_n
versions_from_wire_n-Total n h =
    Total-weaken (get_versions-Total max_versions 0 n none h)
      λ vs k. record { fits = k.0; ordered = k.1 }

pub sub_assign-Total : (a b : ℕ) → b ≤ a → Total (lift (sub_assign a b)) (λ k. k ≡ a - b)
sub_assign-Total a b h = Total-lift_ok (sub_assign a b) (a - b) (sub_assign-ok a b h)

-- An ordered list of at most `max_versions` versions is written as four bytes for each, and read back from
-- them.
pub versions_from_wire_n-versions_to_wire :
    (vs : VersionList)
    → IsVersionList vs
    → (bytes : List ℕ) × (as_bytes (versions_wire_size vs) (versions_to_wire vs) ≡ ok bytes)
      × (length bytes ≡ versions_wire_size vs)
      × (versions_from_wire_n (versions_wire_size vs) (new bytes)
          ≡ ok (vs, record { bytes = bytes; position = versions_wire_size vs }))
versions_from_wire_n-versions_to_wire vs h = (
  versions_bytes vs,
  as_bytes-Writes (versions_wire_size vs) (versions_to_wire-Writes vs) (length-versions_bytes vs),
  length-versions_bytes vs,
  Parses-whole (versions_wire_size vs) (versions_bytes vs) (versions_from_wire_n-Parses vs [] h)
      (length-versions_bytes vs),
)

-- On any cursor within a buffer of bytes, for a length that is a multiple of four, `from_wire_n` does not
-- panic. It gives an error, or an ordered list of at most `max_versions` versions.
pub versions_from_wire_n-Outcome :
    (n : ℕ) (c : ParseCursor)
    → n % 4 ≡ 0
    → IsValid c
    → Outcome IsVersionList c (versions_from_wire_n n c)
versions_from_wire_n-Outcome n c h v = (versions_from_wire_n-Total n h).at c v
