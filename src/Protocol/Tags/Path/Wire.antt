-- ===== src/Protocol/Tags/Path/Wire.antt =====
-- PATH on the wire: what tags/path.rs reads, on any bytes.
use roughenough.Prelude.{
  ℕ, ◌+◌, ◌/◌, ◌%◌, ◌≤◌, ◌≡◌, List, length, drop, replicate, arith, ltb, ◌==◌, not, not_ltb→le,
  length-append, length-drop, length-replicate,
}
use roughenough.Protocol.Error.{buffer_too_small, invalid_path_length}
use roughenough.Protocol.Cursor
use roughenough.Protocol.Cursor.{
  ParseCursor, Action, ◌>>=◌, ◌>>◌, pure, refuse_if, try_copy_to_slice,
}
use roughenough.Protocol.Cursor.Total.{
  Outcome, Total, IsBytes, Total-pure, Total-if, Total-bind, Total-refuse_if,
  Total-try_copy_to_slice,
}
use roughenough.Protocol.Cursor.{new}
use roughenough.Protocol.Wire.Frame.{Parses-whole}
use roughenough.Protocol.Error.{ok}
use roughenough.Prelude.{
  false, ap, refl, ◌*◌, zero, suc, take, take-append, length-take, [], ◌<◌, le→not_ltb, eq→==,
  subst, sym,
}
use roughenough.Protocol.Cursor.Reads.{Parses, Parses-test, Parses-map, Parses-try_copy_to_slice}
use roughenough.Protocol.Tags.Path.{
  MerklePath, max_paths, paths, elements, chunks, path_try_from, element_size, path_capacity,
  new_path, overwrite, path_from_wire_n,
}
use roughenough.Protocol.Tags.Path.Elements.{IsValid, new_path-IsValid}

pub length-overwrite_front :
    (bytes : List ℕ)
    → length bytes ≤ path_capacity
    → length (overwrite (replicate path_capacity 0) 0 bytes) ≡ path_capacity
unfolding overwrite
length-overwrite_front bytes h = omega (
  arith,
  h,
  length-append bytes (drop (0 + length bytes) (replicate path_capacity 0)),
  length-drop (0 + length bytes) (replicate {A = ℕ} path_capacity 0),
  length-replicate {A = ℕ} path_capacity 0,
)

-- Whatever the length and the bytes are, `from_wire_n` does not panic: it accepts at most `max_paths`
-- elements, and never writes beyond the buffer.
pub path_from_wire_n-Total : (n : ℕ) → Total (path_from_wire_n n) IsValid
unfolding path_from_wire_n
path_from_wire_n-Total n =
    Total-if (n == 0) _ _ (λ _. Total-pure new_path new_path-IsValid)
      λ _.
        Total-bind _ _ (Total-refuse_if (ltb path_capacity n) (buffer_too_small n path_capacity))
          λ _ fits.
            Total-bind _ _ (Total-refuse_if (not (n % element_size == 0)) (invalid_path_length n))
              λ _ _. Total-bind _ _ (Total-try_copy_to_slice n) λ bytes b.
                let le : n ≤ path_capacity = not_ltb→le path_capacity n fits in
                Total-pure
                  (record {
                    num_paths = n / element_size;
                    buf = overwrite (replicate path_capacity 0) 0 bytes;
                  })
                  (record {
                    fits = omega (arith, le);
                    full = length-overwrite_front bytes (omega (arith, le, b.size));
                  })

-- On any cursor within a buffer of bytes, for any length, `from_wire_n` does not panic. It gives an error, or a
-- path of at most `max_paths` elements in a buffer of `path_capacity` bytes.
pub path_from_wire_n-Outcome :
    (n : ℕ) (c : ParseCursor) → Cursor.Total.IsValid c → Outcome IsValid c (path_from_wire_n n c)
path_from_wire_n-Outcome n c v = (path_from_wire_n-Total n).at c v

-- The path that `from_wire_n` makes of `n` elements.
unfoldable pub read_path : ℕ → List ℕ → MerklePath
read_path n bytes = record { num_paths = n; buf = overwrite (replicate path_capacity 0) 0 bytes }

pub read_path-Parses :
    (n : ℕ) (bytes rest : List ℕ)
    → n < max_paths
    → length bytes ≡ suc n * element_size
    → Parses (path_from_wire_n (length bytes)) bytes (read_path (suc n) bytes) rest
unfolding path_from_wire_n read_path
read_path-Parses n bytes rest few size =
    let some_bytes : (length bytes == 0) ≡ false = ground arith in
    let whole : length bytes % element_size ≡ 0 = omega (arith, size) in
    let count : length bytes / element_size ≡ suc n = omega (arith, size) in
    rw (some_bytes, path_from_wire_n)
      (Parses-test (ltb path_capacity (length bytes))
        (buffer_too_small (length bytes) path_capacity) _ bytes rest
        (le→not_ltb path_capacity (length bytes) (omega (arith, size)))
        (Parses-test (not (length bytes % element_size == 0)) (invalid_path_length (length bytes)) _
          bytes rest (ap not (eq→== (length bytes % element_size) 0 whole))
          (subst
            (λ k.
              Parses
                (do
                  bs ← try_copy_to_slice (length bytes)
                  pure (record { num_paths = k; buf = overwrite (replicate path_capacity 0) 0 bs }))
                bytes (read_path (suc n) bytes) rest)
            (sym count)
            (Parses-map (λ bs. read_path (suc n) bs) bytes rest
              (Parses-try_copy_to_slice (length bytes) bytes rest refl)))))

pub elements-read_path :
    (n : ℕ) (bytes : List ℕ)
    → length bytes ≡ n * element_size
    → elements (read_path n bytes) ≡ chunks n bytes
unfolding elements paths read_path overwrite
elements-read_path n bytes size =
    ap (chunks n)
      (take-append (n * 32) bytes (drop (0 + length bytes) (replicate path_capacity 0)) size)

try_from_some :
    (n : ℕ) (bytes : List ℕ)
    → n < max_paths
    → length bytes ≡ suc n * element_size
    → path_try_from bytes ≡ ok (read_path (suc n) bytes)
unfolding path_try_from
try_from_some n bytes few size =
    rw
      (Parses-whole (length bytes) bytes (read_path-Parses n bytes [] few size) refl, path_try_from)

try_from_count :
    (n : ℕ) (buf : List ℕ) (v : IsValid (record { num_paths = n; buf = buf }))
    → (q : MerklePath) × (path_try_from (paths (record { num_paths = n; buf = buf })) ≡ ok q)
      × IsValid q
      × (elements q ≡ elements (record { num_paths = n; buf = buf }))
unfolding path_try_from paths elements path_from_wire_n chunks new_path read_path
try_from_count zero buf v = (new_path, refl, new_path-IsValid, refl)
try_from_count (suc n) buf v =
    let bytes : List ℕ = take (suc n * 32) buf in
    let size : length bytes ≡ suc n * 32 =
      omega (arith, v.fits, v.full, length-take (suc n * 32) buf) in
    (
      read_path (suc n) bytes,
      try_from_some n bytes (omega (arith, v.fits)) size,
      record { fits = v.fits; full = length-overwrite_front bytes (omega (arith, size, v.fits)) },
      elements-read_path (suc n) bytes size,
    )

-- The bytes of a valid path are accepted by `try_from`, and make a valid path with the same elements.
pub path_try_from-paths :
    (p : MerklePath)
    → IsValid p
    → (q : MerklePath) × (path_try_from (paths p) ≡ ok q) × IsValid q × (elements q ≡ elements p)
path_try_from-paths p v = try_from_count p.num_paths p.buf v
