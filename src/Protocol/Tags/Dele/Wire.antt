-- ===== src/Protocol/Tags/Dele/Wire.antt =====
-- DELE and CERT on the wire: what tags/dele.rs and tags/cert.rs read, on any bytes.
use roughenough.Prelude.{ℕ, ◌≡◌, refl, ap₂, Bool, true, false, List, [], ◌∷◌, not, arith}
use roughenough.Protocol.Tag.{Tag}
use roughenough.Protocol.Tag.Wire.{tag_value_injective}
use roughenough.Protocol.Header.{Header}
use roughenough.Protocol.Error.{unexpected_offsets, unexpected_tags}
use roughenough.Protocol.Cursor.{ParseCursor}
use roughenough.Protocol.Cursor.Total.{
  IsValid, Outcome, Total, IsBytes, IsU64, Total-pure, Total-bind, Total-refuse_if,
  Total-try_get_u64_le,
}
use roughenough.Protocol.Header.Total.{from_wire-Total}
use roughenough.Protocol.Tags.{public_key_size, signature_size}
use roughenough.Protocol.Tags.Wire.{fixed_from_wire-Total}
use roughenough.Protocol.Tags.Dele.{
  same_offsets, same_tags, Delegation, dele_offsets, dele_tags, dele_header, dele_from_wire,
  Certificate, cert_offsets, cert_tags, cert_header, cert_from_wire,
}

-- What the comparisons of two headers' arrays tell.
pub same_offsets→eq : (xs ys : List ℕ) → same_offsets xs ys ≡ true → xs ≡ ys
unfolding same_offsets
same_offsets→eq [] [] h = refl
same_offsets→eq [] (y ∷ ys) h = cc
same_offsets→eq (x ∷ xs) [] h = cc
same_offsets→eq (x ∷ xs) (y ∷ ys) h = ground (arith, same_offsets→eq xs ys)

pub same_tags→eq : (xs ys : List Tag) → same_tags xs ys ≡ true → xs ≡ ys
unfolding same_tags
same_tags→eq [] [] h = refl
same_tags→eq [] (y ∷ ys) h = cc
same_tags→eq (x ∷ xs) [] h = cc
same_tags→eq (x ∷ xs) (y ∷ ys) h = ground (arith, same_tags→eq xs ys, tag_value_injective x y)

pub not-false : (b : Bool) → not b ≡ false → b ≡ true
not-false true h = refl
not-false false h = cc

-- A header that passes both comparisons.
pub same_header :
    (h : Header) (offsets : List ℕ) (tags : List Tag)
    → not (same_offsets h.offsets offsets) ≡ false
    → not (same_tags h.tags tags) ≡ false
    → h ≡ record { offsets = offsets; tags = tags }
same_header h offsets tags o t =
    ap₂ (λ xs ys. record { offsets = xs; tags = ys })
      (same_offsets→eq h.offsets offsets (not-false _ o)) (same_tags→eq h.tags tags (not-false _ t))

pub record IsDelegation (dele : Delegation) : Type 0 where
  pub headed : dele.header ≡ dele_header
  pub key : IsBytes public_key_size dele.public_key
  pub starts : IsU64 dele.min_time
  pub ends : IsU64 dele.max_time

pub record IsCertificate (cert : Certificate) : Type 0 where
  pub headed : cert.header ≡ cert_header
  pub signed : IsBytes signature_size cert.signature
  pub delegates : IsDelegation cert.delegation

dele_from_wire-Total : Total dele_from_wire IsDelegation
unfolding dele_from_wire
dele_from_wire-Total = Total-bind _ _ (from_wire-Total 3) λ h wf.
    Total-bind _ _ (fixed_from_wire-Total public_key_size) λ key b.
      Total-bind _ _ Total-try_get_u64_le λ min_time small.
        Total-bind _ _ Total-try_get_u64_le λ max_time small'.
          Total-bind _ _
            (Total-refuse_if (not (same_offsets h.offsets dele_offsets)) unexpected_offsets)
            λ _ o.
              Total-bind _ _ (Total-refuse_if (not (same_tags h.tags dele_tags)) unexpected_tags)
                λ _ t.
                  Total-pure
                    (record {
                      header = h;
                      public_key = key;
                      min_time = min_time;
                      max_time = max_time;
                    })
                    (record {
                      headed = same_header h dele_offsets dele_tags o t;
                      key = b;
                      starts = small;
                      ends = small';
                    })

-- Whatever the bytes are, reading a certificate does not panic.
pub cert_from_wire-Total : Total cert_from_wire IsCertificate
unfolding cert_from_wire
cert_from_wire-Total = Total-bind _ _ (from_wire-Total 2) λ h wf.
    Total-bind _ _ (fixed_from_wire-Total signature_size) λ sig b.
      Total-bind _ _ dele_from_wire-Total λ dele d.
        Total-bind _ _
          (Total-refuse_if (not (same_offsets h.offsets cert_offsets)) unexpected_offsets)
          λ _ o.
            Total-bind _ _ (Total-refuse_if (not (same_tags h.tags cert_tags)) unexpected_tags)
              λ _ t.
                Total-pure (record { header = h; signature = sig; delegation = dele })
                  (record {
                    headed = same_header h cert_offsets cert_tags o t;
                    signed = b;
                    delegates = d;
                  })

-- On any cursor within a buffer of bytes, reading a certificate with its delegation does not panic. It gives an
-- error, or a certificate with the two headers that certificates have, a signature and a key of their sizes and times
-- of 64 bits.
pub cert_from_wire-Outcome :
    (c : ParseCursor) → IsValid c → Outcome IsCertificate c (cert_from_wire c)
cert_from_wire-Outcome c v = cert_from_wire-Total.at c v
