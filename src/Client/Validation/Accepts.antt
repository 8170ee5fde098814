-- ===== src/Client/Validation/Accepts.antt =====
-- The responses that validation.rs accepts.
use roughenough.Prelude.{
  ℕ, ◌+◌, ◌-◌, ◌≤◌, ◌≡◌, ◌≢◌, ◌↔◌, refl, ap, ◌∙◌, sym, Bool, true, Option, none, some, List, [],
  ◌∷◌, ◌++◌, length, take, drop, arith,
}
use roughenough.Protocol.Error
use roughenough.Protocol.Error.{index}
use roughenough.Protocol.Tag.{bytes_eq}
use roughenough.Protocol.Version.{ProtocolVersion, dele_prefix, srep_prefix}
use roughenough.Protocol.Wire.{as_bytes}
use roughenough.Protocol.Tags.{FixedTag}
use roughenough.Protocol.Tags.Dele.{Certificate, Delegation, dele_to_wire, dele_wire_size}
use roughenough.Client.Validation.{
  bad_signature, Verdict, accepted, convert, slice, ◌>>=◌, srep_slice, check_dele_signature,
  check_dele_signature_with_key, check_midpoint_inner, check_radius, verify_srep_signature,
}
use roughenough.Client.Validation.Checks.{
  accepted-bind, bind-accepted, accepted-reject_unless, reject_unless-accepted, accepted-convert,
  convert-accepted,
}

-- The certificate carries the signature of the key that is known, if one is.
abbrev pub Certifies :
    (FixedTag → List ℕ → FixedTag → Bool) → Option FixedTag → Certificate → ProtocolVersion → Type 0
Certifies verify none cert version = Unit
Certifies verify (some key) cert version =
    (dele : List ℕ) × (as_bytes dele_wire_size (dele_to_wire cert.delegation) ≡ Error.ok dele)
    × (verify key (dele_prefix version ++ dele) cert.signature ≡ true)

-- The delegated key signed the bytes that stand between two offsets behind the headers.
pub record IsSigned (verify : FixedTag → List ℕ → FixedTag → Bool) (version : ProtocolVersion)
    (sig : FixedTag) (dele : Delegation) (headers : ℕ) (start end : ℕ) (bytes : List ℕ)
    : Type 0 where
  pub in_order : start ≤ end
  pub inside : headers + end ≤ length bytes
  pub verified :
      verify dele.public_key
        (srep_prefix version ++ take (end - start) (drop (headers + start) bytes))
        sig
      ≡ true

pub record IsInSpan (midpoint radius : ℕ) (dele : Delegation) : Type 0 where
  pub not_before : dele.min_time ≤ midpoint
  pub not_after : midpoint ≤ dele.max_time
  pub uncertain : radius ≢ 0

pub slice_iff :
    (start end : ℕ) (xs ys : List ℕ)
    → (slice start end xs ≡ accepted ys)
      ↔ ((start ≤ end) × (end ≤ length xs) × (ys ≡ take (end - start) (drop start xs)))
unfolding slice
slice_iff start end xs ys = ground arith

pub bytes_eq_refl : (xs : List ℕ) → bytes_eq xs xs ≡ true
unfolding bytes_eq
bytes_eq_refl [] = refl
bytes_eq_refl (x ∷ xs) = ground (arith, bytes_eq_refl xs)

pub midpoint_iff :
    (midpoint mint maxt : ℕ)
    → (check_midpoint_inner midpoint mint maxt ≡ accepted tt)
      ↔ ((mint ≤ midpoint) × (midpoint ≤ maxt))
unfolding check_midpoint_inner
midpoint_iff midpoint mint maxt = ground arith

pub radius_iff : (radius : ℕ) → (check_radius radius ≡ accepted tt) ↔ (radius ≢ 0)
unfolding check_radius
radius_iff radius = ground arith

srep_slice_iff :
    (headers start end : ℕ) (bytes ys : List ℕ)
    → (srep_slice headers start end bytes ≡ accepted ys) ↔ (
        (start ≤ end)
        × (headers + end ≤ length bytes)
        × (ys ≡ take (end - start) (drop (headers + start) bytes)))
unfolding srep_slice slice
srep_slice_iff headers start end bytes ys =
    let size : headers + end - (headers + start) ≡ end - start = omega arith in
    rw size (ground arith)

module _ (verify : FixedTag → List ℕ → FixedTag → Bool) where
  pub check_dele_signature_iff :
      (key : Option FixedTag) (cert : Certificate) (version : ProtocolVersion)
      → (check_dele_signature verify (record { pub_key = key }) cert version ≡ accepted tt)
        ↔ Certifies verify key cert version
  unfolding check_dele_signature check_dele_signature_with_key
  check_dele_signature_iff none cert version = ((λ h. tt), (λ h. refl))
  check_dele_signature_iff (some key) cert version = (sound, complete)
    where
      sound :
          check_dele_signature verify (record { pub_key = some key }) cert version ≡ accepted tt
          → Certifies verify (some key) cert version
      sound h =
          let (dele, made, k) =
            accepted-bind (convert (as_bytes dele_wire_size (dele_to_wire cert.delegation))) _ tt
              h in
          (dele, accepted-convert _ dele made, accepted-reject_unless _ bad_signature k)

      complete :
          Certifies verify (some key) cert version
          → check_dele_signature verify (record { pub_key = some key }) cert version ≡ accepted tt
      complete (dele, made, good) =
          bind-accepted _ _ dele tt (convert-accepted _ dele made)
            (reject_unless-accepted _ bad_signature good)

  -- The offsets of SREP in the header of a response, and the signature of what stands between them.
  unfoldable pub SignedBetween :
      ℕ → List ℕ → ℕ → ℕ → ProtocolVersion → FixedTag → Delegation → List ℕ → Type 0
  SignedBetween headers offsets i j version sig dele bytes =
      (start : ℕ) × (end : ℕ) × (index offsets i ≡ Error.ok start)
      × (index offsets j ≡ Error.ok end)
      × IsSigned verify version sig dele headers start end bytes

  module _ (offsets : List ℕ) (i j headers : ℕ) (version : ProtocolVersion) (sig : FixedTag)
      (dele : Delegation) (bytes : List ℕ) where
    unfoldable pub signature_check : Verdict (Unit {0})
    signature_check = do
      srep_start ← convert (index offsets i)
      srep_end ← convert (index offsets j)
      srep_bytes ← srep_slice headers srep_start srep_end bytes
      verify_srep_signature verify (srep_prefix version) srep_bytes sig dele.public_key

    pub signature_sound :
        signature_check ≡ accepted tt → SignedBetween headers offsets i j version sig dele bytes
    unfolding signature_check verify_srep_signature SignedBetween
    signature_sound h =
        let (start, at_start, h₁) = accepted-bind (convert (index offsets i)) _ tt h in
        let (end, at_end, h₂) = accepted-bind (convert (index offsets j)) _ tt h₁ in
        let (ys, cut, h₃) = accepted-bind (srep_slice headers start end bytes) _ tt h₂ in
        let (le, fits, same) = (srep_slice_iff headers start end bytes ys).0 cut in
        (
          start,
          end,
          accepted-convert _ start at_start,
          accepted-convert _ end at_end,
          record {
            in_order = le;
            inside = fits;
            verified =
                ap (λ g. verify dele.public_key (srep_prefix version ++ g) sig) (sym same)
                ∙ accepted-reject_unless _ bad_signature h₃;
          },
        )

    pub signature_complete :
        SignedBetween headers offsets i j version sig dele bytes → signature_check ≡ accepted tt
    unfolding signature_check verify_srep_signature SignedBetween
    signature_complete (start, end, at_start, at_end, s) =
        bind-accepted _ _ start tt (convert-accepted _ start at_start) (
          bind-accepted _ _ end tt (convert-accepted _ end at_end) (
            bind-accepted _ _ (take (end - start) (drop (headers + start) bytes)) tt
              ((srep_slice_iff headers start end bytes _).1 (s.in_order, s.inside, refl))
              (reject_unless-accepted _ bad_signature s.verified)))
