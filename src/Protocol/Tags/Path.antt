-- ===== src/Protocol/Tags/Path.antt =====
-- crates/roughenough-protocol/src/tags/path.rs: the PATH tag, a fixed buffer of 32 hash values.
pub mod Elements
pub mod Wire
pub mod RoundTrip
use roughenough.Prelude.{
  ℕ, zero, suc, ◌+◌, ◌*◌, ◌/◌, ◌%◌, List, [], ◌∷◌, ◌++◌, length, take, drop, replicate, ltb, ◌==◌,
  not, if◌then◌else◌,
}
use roughenough.Protocol.Error
use roughenough.Protocol.Error.{Result, ok, err, panic, buffer_too_small, invalid_path_length}
use roughenough.Prelude.{Bool}
use roughenough.Protocol.Cursor.{
  new, Action, ◌>>=◌, ◌>>◌, pure, refuse_if, gets, remaining, put_slice, try_copy_to_slice,
}

abbrev pub max_paths : ℕ
max_paths = 32

abbrev pub element_size : ℕ
element_size = 32

abbrev pub path_capacity : ℕ
path_capacity = max_paths * element_size

-- `buf` is the field `data`, an array of `path_capacity` bytes.
pub record MerklePath : Type 0 where
  pub num_paths : ℕ
  pub buf : List ℕ

unfoldable pub new_path : MerklePath
new_path = record { num_paths = 0; buf = replicate path_capacity 0 }

unfoldable pub path_wire_size : MerklePath → ℕ
path_wire_size p = p.num_paths * element_size

-- `&self.data[..self.num_paths * Self::ELEMENT_SIZE]`
unfoldable pub paths : MerklePath → List ℕ
paths p = take (p.num_paths * element_size) p.buf

-- `chunks(Self::ELEMENT_SIZE)` of a slice of `n` elements.
unfoldable pub chunks : ℕ → List ℕ → List (List ℕ)
chunks zero xs = []
chunks (suc n) xs = take element_size xs ∷ chunks n (drop element_size xs)

unfoldable pub elements : MerklePath → List (List ℕ)
elements p = chunks p.num_paths (paths p)

unfoldable pub clear_path : MerklePath → MerklePath
clear_path p = record p { num_paths = 0 }

-- `self.data[start..start + src.len()].copy_from_slice(src)`
unfoldable pub overwrite : List ℕ → ℕ → List ℕ → List ℕ
overwrite xs start src = take start xs ++ (src ++ drop (start + length src) xs)

unfoldable pub push_element : MerklePath → List ℕ → Result MerklePath
unfolding overwrite
push_element p element =
    let start = p.num_paths * element_size in
    if ltb p.num_paths max_paths
    then ok (record { num_paths = p.num_paths + 1; buf = overwrite p.buf start element })
    else panic

-- Both buffers have `path_capacity` bytes, so the two slices have one length.
unfoldable pub copy_from : MerklePath → MerklePath → MerklePath
unfolding overwrite
copy_from p other = record {
  num_paths = other.num_paths;
  buf = overwrite p.buf 0 (take (other.num_paths * element_size) other.buf);
}

unfoldable pub path_to_wire : MerklePath → Action Unit
unfolding path_wire_size paths
path_to_wire p = if p.num_paths == 0 then pure tt else do
  left ← gets remaining
  refuse_if (ltb left (path_wire_size p)) (buffer_too_small (path_wire_size p) left)
  put_slice (paths p)

unfoldable pub path_from_wire_n : ℕ → Action MerklePath
unfolding new_path overwrite
path_from_wire_n n = if n == 0 then pure new_path else do
  refuse_if (ltb path_capacity n) (buffer_too_small n path_capacity)
  refuse_if (not (n % element_size == 0)) (invalid_path_length n)
  bytes ← try_copy_to_slice n
  pure
      (record { num_paths = n / element_size; buf = overwrite (replicate path_capacity 0) 0 bytes })

unfoldable pub path_depth : MerklePath → ℕ
path_depth p = p.num_paths

unfoldable pub is_empty_path : MerklePath → Bool
is_empty_path p = p.num_paths == 0

unfoldable pub path_from_wire : Action MerklePath
unfolding path_from_wire_n
path_from_wire = do left ← gets remaining; path_from_wire_n left

-- `MerklePath::try_from(slice)`
unfoldable pub path_try_from : List ℕ → Result MerklePath
unfolding path_from_wire_n
path_try_from slice = elim (path_from_wire_n (length slice) (new slice)) [
  | ok (p, c) ↦ ok p
  | err e ↦ err e
  | panic ↦ panic
]
