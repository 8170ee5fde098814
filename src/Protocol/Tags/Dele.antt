-- ===== src/Protocol/Tags/Dele.antt =====
-- crates/roughenough-protocol/src/tags/dele.rs and cert.rs: the delegation of an online key, and the
-- certificate that holds it with its signature.
pub mod Wire
pub mod RoundTrip
pub mod Made
use roughenough.Prelude.{
  ℕ, ◌+◌, ◌-◌, ◌^◌, Bool, true, false, List, [], ◌∷◌, ◌++◌, ltb, ◌==◌, not, if◌then◌else◌,
}
use roughenough.Protocol.Error.{unexpected_offsets, unexpected_tags}
use roughenough.Protocol.Cursor.{Action, ◌>>=◌, ◌>>◌, pure, refuse_if, try_get_u64_le, put_u64_le}
use roughenough.Protocol.Tag
use roughenough.Protocol.Tag.{Tag}
use roughenough.Protocol.Header
use roughenough.Protocol.Header.{Header}
use roughenough.Protocol.Tags.{
  FixedTag, public_key_size, signature_size, fixed_default, fixed_to_wire, fixed_from_wire,
}

-- `==` of two arrays of offsets, and of two arrays of tags.
unfoldable pub same_offsets : List ℕ → List ℕ → Bool
same_offsets [] [] = true
same_offsets [] (y ∷ ys) = false
same_offsets (x ∷ xs) [] = false
same_offsets (x ∷ xs) (y ∷ ys) = if x == y then same_offsets xs ys else false

unfoldable pub same_tags : List Tag → List Tag → Bool
same_tags [] [] = true
same_tags [] (y ∷ ys) = false
same_tags (x ∷ xs) [] = false
same_tags (x ∷ xs) (y ∷ ys) = if Tag.tag_value x == Tag.tag_value y then same_tags xs ys else false

pub record Delegation : Type 0 where
  pub header : Header
  pub public_key : FixedTag
  pub min_time : ℕ
  pub max_time : ℕ

abbrev pub dele_offsets : List ℕ
dele_offsets = 32 ∷ 40 ∷ []

abbrev pub dele_tags : List Tag
dele_tags = Tag.pubk ∷ Tag.mint ∷ Tag.maxt ∷ []

abbrev pub dele_header : Header
dele_header = record { offsets = dele_offsets; tags = dele_tags }

unfoldable pub default_dele : Delegation
default_dele = record {
  header = dele_header;
  public_key = fixed_default public_key_size;
  min_time = 0;
  max_time = 0;
}

-- `u64::saturating_add`.
unfoldable pub saturating_add : ℕ → ℕ → ℕ
saturating_add a b = if ltb (a + b) (2 ^ 64) then a + b else 2 ^ 64 - 1

-- `validity` is in seconds.
unfoldable pub new_dele : FixedTag → ℕ → ℕ → Delegation
unfolding default_dele saturating_add
new_dele public_key now validity = record default_dele {
  public_key = public_key;
  min_time = now;
  max_time = saturating_add now validity;
}

-- `size_of::<Delegation>()`: the header, the key and two times.
abbrev pub dele_wire_size : ℕ
dele_wire_size = 72

unfoldable pub dele_to_wire : Delegation → Action Unit
dele_to_wire dele = do
  Header.to_wire 3 dele.header
  fixed_to_wire dele.public_key
  put_u64_le dele.min_time
  put_u64_le dele.max_time

unfoldable pub dele_from_wire : Action Delegation
unfolding same_offsets same_tags
dele_from_wire = do
  header ← Header.from_wire 3
  public_key ← fixed_from_wire public_key_size
  min_time ← try_get_u64_le
  max_time ← try_get_u64_le
  refuse_if (not (same_offsets header.offsets dele_offsets)) unexpected_offsets
  refuse_if (not (same_tags header.tags dele_tags)) unexpected_tags
  pure (record {
    header = header;
    public_key = public_key;
    min_time = min_time;
    max_time = max_time;
  })

pub record Certificate : Type 0 where
  pub header : Header
  pub signature : FixedTag
  pub delegation : Delegation

abbrev pub cert_offsets : List ℕ
cert_offsets = 64 ∷ []

abbrev pub cert_tags : List Tag
cert_tags = Tag.sig ∷ Tag.dele ∷ []

abbrev pub cert_header : Header
cert_header = record { offsets = cert_offsets; tags = cert_tags }

unfoldable pub new_cert : FixedTag → Delegation → Certificate
new_cert signature delegation = record {
  header = cert_header;
  signature = signature;
  delegation = delegation;
}

-- `size_of::<Certificate>()`: the header, the signature and the delegation.
abbrev pub cert_wire_size : ℕ
cert_wire_size = 152

unfoldable pub cert_to_wire : Certificate → Action Unit
unfolding dele_to_wire
cert_to_wire cert = do
  Header.to_wire 2 cert.header
  fixed_to_wire cert.signature
  dele_to_wire cert.delegation

unfoldable pub cert_from_wire : Action Certificate
unfolding dele_from_wire
cert_from_wire = do
  header ← Header.from_wire 2
  signature ← fixed_from_wire signature_size
  delegation ← dele_from_wire
  refuse_if (not (same_offsets header.offsets cert_offsets)) unexpected_offsets
  refuse_if (not (same_tags header.tags cert_tags)) unexpected_tags
  pure (record { header = header; signature = signature; delegation = delegation })

unfoldable pub set_pubk : FixedTag → Delegation → Delegation
set_pubk public_key dele = record dele { public_key = public_key }

unfoldable pub set_mint : ℕ → Delegation → Delegation
set_mint min_time dele = record dele { min_time = min_time }

unfoldable pub set_maxt : ℕ → Delegation → Delegation
set_maxt max_time dele = record dele { max_time = max_time }

unfoldable pub set_cert_sig : FixedTag → Certificate → Certificate
set_cert_sig signature cert = record cert { signature = signature }

unfoldable pub set_dele : Delegation → Certificate → Certificate
set_dele dele cert = record cert { delegation = dele }
