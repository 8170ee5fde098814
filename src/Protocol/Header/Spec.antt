-- ===== src/Protocol/Header/Spec.antt =====
-- The headers that header.rs accepts, and their bytes.
use roughenough.Prelude.{
  ℕ, ◌-◌, ◌*◌, ◌%◌, ◌^◌, ◌≤◌, ◌<◌, ◌≡◌, ◌≢◌, false, List, [], ◌∷◌, ◌++◌, length, arith,
  length-append,
}
use roughenough.Prelude.Bytes.{to_le_bytes, length-to_le_bytes, length-to_be_bytes}
use roughenough.Protocol.Tag
use roughenough.Protocol.Tag.{Tag}
use roughenough.Protocol.Header.{Header, wire_size}

-- Offsets are words that are multiples of four, in order, from `prior` on.
abbrev pub Ascending : ℕ → List ℕ → Type 0
Ascending prior [] = Unit
Ascending prior (offset ∷ rest) =
    (prior ≤ offset) × (offset % 4 ≡ 0) × (offset < 2 ^ 32) × Ascending offset rest

-- Tags are in order from `prior` on, and none is INVALID.
abbrev pub Sorted : Tag → List Tag → Type 0
Sorted prior [] = Unit
Sorted prior (t ∷ rest) = (Tag.lt t prior ≡ false) × (t ≢ Tag.invalid) × Sorted t rest

pub record IsWellFormed (n : ℕ) (header : Header) : Type 0 where
  pub num_offsets : length header.offsets ≡ n - 1
  pub num_tags : length header.tags ≡ n
  pub offsets_ascend : Ascending 0 header.offsets
  pub tags_ascend : Sorted Tag.invalid header.tags

unfoldable pub offset_bytes : List ℕ → List ℕ
offset_bytes [] = []
offset_bytes (offset ∷ rest) = to_le_bytes 4 offset ++ offset_bytes rest

unfoldable pub tag_bytes : List Tag → List ℕ
tag_bytes [] = []
tag_bytes (t ∷ rest) = Tag.wire_value t ++ tag_bytes rest

-- RFC section 4.2: the number of tags, the offsets, the tags.
unfoldable pub encode : ℕ → Header → List ℕ
encode n header = to_le_bytes 4 n ++ (offset_bytes header.offsets ++ tag_bytes header.tags)

length-offset_bytes : (xs : List ℕ) → length (offset_bytes xs) ≡ 4 * length xs
unfolding offset_bytes
length-offset_bytes [] = omega arith
length-offset_bytes (x ∷ xs) = omega (
  arith,
  length-append (to_le_bytes 4 x) (offset_bytes xs),
  length-to_le_bytes 4 x,
  length-offset_bytes xs,
)

pub length-wire_value : (t : Tag) → length (Tag.wire_value t) ≡ 4
length-wire_value t = unfold Tag.wire_value in length-to_be_bytes 4 (Tag.tag_value t)

length-tag_bytes : (ts : List Tag) → length (tag_bytes ts) ≡ 4 * length ts
unfolding tag_bytes
length-tag_bytes [] = omega arith
length-tag_bytes (t ∷ ts) = omega (
  arith,
  length-append (Tag.wire_value t) (tag_bytes ts),
  length-wire_value t,
  length-tag_bytes ts,
)

pub length-encode :
    (n : ℕ) (header : Header)
    → 0 < n
    → length header.offsets ≡ n - 1
    → length header.tags ≡ n
    → length (encode n header) ≡ wire_size n
unfolding encode
length-encode n header pos o t = omega (
  arith,
  length-append (to_le_bytes 4 n) (offset_bytes header.offsets ++ tag_bytes header.tags),
  length-append (offset_bytes header.offsets) (tag_bytes header.tags),
  length-to_le_bytes 4 n,
  length-offset_bytes header.offsets,
  length-tag_bytes header.tags,
)
