-- ===== src/Protocol/Header/Reads.antt =====
-- `from_wire` of header.rs reads back the bytes of a well-formed header.
use roughenough.Prelude.{
  ℕ, zero, suc, ◌+◌, ◌-◌, ◌%◌, ◌^◌, ◌≤◌, ◌<◌, ◌≡◌, refl, ap, List, [], ◌∷◌, ◌++◌, length, arith,
  not, ◌==◌, ltb, eq→==, le→not_ltb, subst,
}
use roughenough.Prelude.Bytes.{to_le_bytes}
use roughenough.Protocol.Error.{
  ok, mismatched_num_tags, unaligned_offset, unordered_offset, unordered_tag, buffer_too_small,
}
use roughenough.Protocol.Cursor.{try_get_u32}
use roughenough.Protocol.Cursor.Reads.{
  Parses, Parses-pure, Parses-lift, Parses-remaining, Parses-bind, Parses-then, Parses-test,
  Parses-map, Parses-try_get_u32_le, Parses-try_get_u32,
}
use roughenough.Protocol.Tag
use roughenough.Protocol.Tag.{Tag}
use roughenough.Protocol.Tag.Wire.{try_from-tag_value, tag_value-lt}
use roughenough.Protocol.Header.{
  Header, wire_size, get_offsets, get_tags, from_wire, check_offsets, check_offset_bounds,
  check_remaining,
}
use roughenough.Protocol.Header.Spec.{
  Ascending, Sorted, IsWellFormed, offset_bytes, tag_bytes, encode, length-encode,
}

get_offsets-Parses :
    (rounds idx prior : ℕ) (xs rest : List ℕ)
    → length xs ≡ rounds
    → Ascending prior xs
    → Parses (get_offsets rounds idx prior) (offset_bytes xs) xs rest
unfolding get_offsets offset_bytes
get_offsets-Parses zero idx prior [] rest e h = Parses-pure [] rest
get_offsets-Parses zero idx prior (x ∷ xs) rest e h = absurd (omega arith)
get_offsets-Parses (suc rounds) idx prior [] rest e h = absurd (omega arith)
get_offsets-Parses (suc rounds) idx prior (x ∷ xs) rest e (le, aligned, small, h) =
    Parses-bind _ (to_le_bytes 4 x) (offset_bytes xs) rest
      (Parses-try_get_u32_le x (offset_bytes xs ++ rest) small)
      (Parses-test (not (x % 4 == 0)) (unaligned_offset idx x) _ (offset_bytes xs) rest
        (ap not (eq→== (x % 4) 0 aligned))
        (Parses-test (ltb x prior) (unordered_offset idx x) _ (offset_bytes xs) rest
          (le→not_ltb x prior le)
          (Parses-map (λ ys. x ∷ ys) (offset_bytes xs) rest
            (get_offsets-Parses rounds (idx + 1) x xs rest (omega arith) h))))

wire_value-Parses :
    (t : Tag) (rest : List ℕ) → Parses try_get_u32 (Tag.wire_value t) (Tag.tag_value t) rest
unfolding Tag.wire_value
wire_value-Parses t rest = Parses-try_get_u32 (Tag.tag_value t) rest (tag_value-lt t)

get_tags-Parses :
    (rounds idx : ℕ) (prior : Tag) (ts : List Tag) (rest : List ℕ)
    → length ts ≡ rounds
    → Sorted prior ts
    → Parses (get_tags rounds idx prior) (tag_bytes ts) ts rest
unfolding get_tags tag_bytes
get_tags-Parses zero idx prior [] rest e h = Parses-pure [] rest
get_tags-Parses zero idx prior (t ∷ ts) rest e h = absurd (omega arith)
get_tags-Parses (suc rounds) idx prior [] rest e h = absurd (omega arith)
get_tags-Parses (suc rounds) idx prior (t ∷ ts) rest e (le, valid, h) =
    let value : ℕ = Tag.tag_value t in
    Parses-bind _ (Tag.wire_value t) (tag_bytes ts) rest
      (wire_value-Parses t (tag_bytes ts ++ rest))
      (Parses-then _ (tag_bytes ts) rest
        (Parses-lift (Tag.try_from value) t (tag_bytes ts ++ rest) (try_from-tag_value t valid))
        (Parses-test (Tag.lt t prior) (unordered_tag idx value) _ (tag_bytes ts) rest le (
          Parses-map (λ us. t ∷ us) (tag_bytes ts) rest
            (get_tags-Parses rounds (idx + 1) t ts rest (omega arith) h))))

-- Before the bytes of a well-formed header `from_wire` gives that header and stops behind it.
pub from_wire-encode :
    (n : ℕ) (header : Header) (rest : List ℕ)
    → 0 < n
    → n < 2 ^ 32
    → IsWellFormed n header
    → Parses (from_wire n) (encode n header) header rest
unfolding from_wire encode
from_wire-encode n header rest pos small wf =
    let offsets : List ℕ = offset_bytes header.offsets in
    let tags : List ℕ = tag_bytes header.tags in
    let left : ℕ = length (to_le_bytes 4 n ++ (offsets ++ tags)) + length rest in
    Parses-remaining _ (to_le_bytes 4 n ++ (offsets ++ tags)) rest (
      Parses-test (ltb left (wire_size n)) (buffer_too_small (wire_size n) left) _
        (to_le_bytes 4 n ++ (offsets ++ tags)) rest
        (le→not_ltb left (wire_size n)
          (omega (arith, length-encode n header pos wf.num_offsets wf.num_tags)))
        (Parses-bind _ (to_le_bytes 4 n) (offsets ++ tags) rest
          (Parses-try_get_u32_le n ((offsets ++ tags) ++ rest) small)
          (Parses-test (not (n == n)) (mismatched_num_tags n n) _ (offsets ++ tags) rest
            (ap not (eq→== n n refl))
            (Parses-bind _ offsets tags rest
              (get_offsets-Parses (n - 1) 0 0 header.offsets (tags ++ rest) wf.num_offsets
                wf.offsets_ascend)
              (Parses-map (λ ts. record { offsets = header.offsets; tags = ts }) tags rest
                (get_tags-Parses n 0 Tag.invalid header.tags rest wf.num_tags wf.tags_ascend))))))

-- Offsets within a message of `n` bytes.
abbrev pub Within : ℕ → List ℕ → Type 0
Within n [] = Unit
Within n (offset ∷ offsets) = (offset ≤ n) × Within n offsets

check_offsets-Within :
    (idx n : ℕ) (offsets : List ℕ)
    → n < 2 ^ 32
    → Within n offsets
    → check_offsets idx offsets n ≡ ok tt
unfolding check_offsets
check_offsets-Within idx n [] small h = refl
check_offsets-Within idx n (x ∷ xs) small h =
    rw (le→not_ltb (n % 2 ^ 32) x (omega (arith, h.0)), check_offsets)
      (check_offsets-Within (idx + 1) n xs small h.1)

-- Offsets within what remains pass the test for bounds.
pub check_remaining-Parses :
    (header : Header) (rest : List ℕ)
    → length rest < 2 ^ 32
    → Within (length rest) header.offsets
    → Parses (check_remaining header) [] tt rest
unfolding check_remaining check_offset_bounds
check_remaining-Parses header rest small h = Parses-remaining _ [] rest (
    Parses-lift (check_offsets 0 header.offsets (0 + length rest)) tt rest (
      check_offsets-Within 0 (0 + length rest) header.offsets (omega arith)
        (subst (λ n. Within n header.offsets) (omega arith) h)))
