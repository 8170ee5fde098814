-- ===== src/Protocol/Header/Total.antt =====
-- `from_wire` of header.rs on any bytes: no panic, and every header that it accepts is well-formed.
use roughenough.Prelude.{
  ℕ, zero, suc, ◌+◌, ◌-◌, ◌%◌, ◌≤◌, ◌<◌, ◌≡◌, ◌≢◌, refl, ap, false, List, [], ◌∷◌, length, arith,
  not, ◌==◌, ltb, not_ltb→le,
}
use roughenough.Protocol.Error.{
  ok, panic, index, mismatched_num_tags, unaligned_offset, unordered_offset, unordered_tag,
  buffer_too_small,
}
use roughenough.Protocol.Cursor.{lift, remaining}
use roughenough.Protocol.Cursor.Total.{
  Total, Total-pure, Total-bind, Total-gets, Total-refuse_if, Total-try_get_u32_le,
  Total-try_get_u32, Total-lift,
}
use roughenough.Protocol.Tag
use roughenough.Protocol.Tag.{Tag}
use roughenough.Protocol.Tag.Wire.{try_from-ne-panic, try_from-ne-invalid}
use roughenough.Protocol.Header.{
  Header, wire_size, get_offsets, get_tags, from_wire, check_offsets, check_offset_bounds,
  check_remaining,
}
use roughenough.Protocol.Header.Spec.{Ascending, Sorted, IsWellFormed}

aligned_of : (value : ℕ) → not (value % 4 == 0) ≡ false → value % 4 ≡ 0
aligned_of value h = ground arith

get_offsets-Total :
    (rounds idx prior : ℕ)
    → Total (get_offsets rounds idx prior) (λ xs. (length xs ≡ rounds) × Ascending prior xs)
unfolding get_offsets
get_offsets-Total zero idx prior = Total-pure [] (refl, tt)
get_offsets-Total (suc rounds) idx prior = Total-bind _ _ Total-try_get_u32_le λ value small.
    Total-bind _ _ (Total-refuse_if (not (value % 4 == 0)) (unaligned_offset idx value))
      λ _ aligned.
        Total-bind _ _ (Total-refuse_if (ltb value prior) (unordered_offset idx value)) λ _ ordered.
          Total-bind _ _ (get_offsets-Total rounds (idx + 1) value) λ xs h.
            Total-pure (value ∷ xs)
              (ap suc h.0, (not_ltb→le value prior ordered, aligned_of value aligned, small, h.1))

get_tags-Total :
    (rounds idx : ℕ) (prior : Tag)
    → Total (get_tags rounds idx prior) (λ ts. (length ts ≡ rounds) × Sorted prior ts)
unfolding get_tags
get_tags-Total zero idx prior = Total-pure [] (refl, tt)
get_tags-Total (suc rounds) idx prior = Total-bind _ _ Total-try_get_u32 λ value small.
    Total-bind _ _
      (Total-lift (Tag.try_from value) (λ t. t ≢ Tag.invalid) (try_from-ne-panic value)
        (try_from-ne-invalid value))
      λ t valid.
        Total-bind _ _ (Total-refuse_if (Tag.lt t prior) (unordered_tag idx value)) λ _ ordered.
          Total-bind _ _ (get_tags-Total rounds (idx + 1) t)
            λ ts h. Total-pure (t ∷ ts) (ap suc h.0, (ordered, valid, h.1))

-- Whatever the bytes are, `from_wire` does not panic, and it accepts well-formed headers only.
pub from_wire-Total : (n : ℕ) → Total (from_wire n) (IsWellFormed n)
unfolding from_wire
from_wire-Total n = Total-bind _ _ (Total-gets remaining) λ left _.
    Total-bind _ _ (Total-refuse_if (ltb left (wire_size n)) (buffer_too_small (wire_size n) left))
      λ _ room. Total-bind _ _ Total-try_get_u32_le λ read small.
        Total-bind _ _ (Total-refuse_if (not (n == read)) (mismatched_num_tags n read)) λ _ same.
          Total-bind _ _ (get_offsets-Total (n - 1) 0 0) λ xs hx.
            Total-bind _ _ (get_tags-Total n 0 Tag.invalid) λ ts ht.
              Total-pure (record { offsets = xs; tags = ts })
                (record {
                  num_offsets = hx.0;
                  num_tags = ht.0;
                  offsets_ascend = hx.1;
                  tags_ascend = ht.1;
                })

check_offsets-ne-panic : (idx : ℕ) (xs : List ℕ) (total : ℕ) → check_offsets idx xs total ≢ panic
unfolding check_offsets
check_offsets-ne-panic idx [] total e = cc
check_offsets-ne-panic idx (x ∷ xs) total e =
    ground (arith, check_offsets-ne-panic (idx + 1) xs total)

pub check_remaining-Total : (header : Header) → Total (check_remaining header) (λ _. Unit {0})
unfolding check_remaining check_offset_bounds
check_remaining-Total header = Total-bind _ _ (Total-gets remaining) λ left _.
    Total-lift (check_offset_bounds header left) (λ _. Unit {0})
      (check_offsets-ne-panic 0 header.offsets left) (λ _ _. tt)

first_aligned :
    (xs : List ℕ)
    → Ascending 0 xs
    → 0 < length xs
    → Total (lift (index xs 0)) (λ offset. offset % 4 ≡ 0)
first_aligned [] h pos = absurd (omega arith)
first_aligned (x ∷ xs) h pos = Total-pure x h.1

-- The first offset of an accepted header is there, and is a multiple of four.
pub first_offset-Total :
    (n : ℕ) (header : Header)
    → 1 < n
    → IsWellFormed n header
    → Total (lift (index header.offsets 0)) (λ offset. offset % 4 ≡ 0)
first_offset-Total n header many wf =
    first_aligned header.offsets wf.offsets_ascend (omega (arith, wf.num_offsets))

-- Two neighbours among offsets that ascend.
pub record Neighbours (xs : List ℕ) (i : ℕ) : Type 0 where
  pub start : ℕ
  pub end : ℕ
  pub at_start : index xs i ≡ ok start
  pub at_end : index xs (suc i) ≡ ok end
  pub in_order : start ≤ end
  pub start_aligned : start % 4 ≡ 0
  pub end_aligned : end % 4 ≡ 0

pub neighbours :
    (i prior : ℕ) (xs : List ℕ) → Ascending prior xs → i + 1 < length xs → Neighbours xs i
neighbours zero prior [] h fits = absurd (omega arith)
neighbours zero prior (x ∷ []) h fits = absurd (omega arith)
neighbours zero prior (x ∷ y ∷ xs) (_, a, _, (le, b, _, _)) fits = record {
  start = x;
  end = y;
  at_start = refl;
  at_end = refl;
  in_order = le;
  start_aligned = a;
  end_aligned = b;
}
neighbours (suc i) prior [] h fits = absurd (omega arith)
neighbours (suc i) prior (x ∷ xs) (_, _, _, h) fits =
    let n : Neighbours xs i = neighbours i x xs h (omega arith) in
    record {
      start = n.start;
      end = n.end;
      at_start = n.at_start;
      at_end = n.at_end;
      in_order = n.in_order;
      start_aligned = n.start_aligned;
      end_aligned = n.end_aligned;
    }
