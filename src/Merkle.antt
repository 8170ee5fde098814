-- ===== src/Merkle.antt =====
-- crates/roughenough-merkle/src/lib.rs: the Merkle tree over a batch of requests.
-- SHA-512 is a parameter of the operations that hash.
pub mod Spec
pub mod Build
pub mod Paths
pub mod Inclusion
pub mod Binding
pub mod Root
use roughenough.Prelude.{
  ℕ, zero, suc, ◌+◌, ◌^◌, ◌-◌, ◌*◌, ◌/◌, ◌%◌, Bool, true, false, List, [], ◌∷◌, ◌++◌, length,
  is_empty, take, replicate, ltb, leb, ◌==◌, not, map, if◌then◌else◌,
}
use mathlib.Core.List.{flatten}
use roughenough.Protocol.Error.{Result, ok, panic, assert, ◌>>=◌, ◌>>◌, index, modify}
use roughenough.Protocol.Tags.Path.{MerklePath, new_path, is_empty_path, push_element, elements}

abbrev pub leaf_tweak : List ℕ
leaf_tweak = 0 ∷ []

abbrev pub node_tweak : List ℕ
node_tweak = 1 ∷ []

abbrev pub output_len : ℕ
output_len = 32

-- 32 bytes; `padding_node` is the `[0; OUTPUT_LEN]` that pads a level.
abbrev pub Hash : Type 0
Hash = List ℕ

abbrev pub padding_node : Hash
padding_node = replicate output_len 0

-- The field `algorithm` is always SHA-512, the parameter of the operations.
pub record MerkleTree : Type 0 where
  pub levels : List (List Hash)

unfoldable pub new_tree : MerkleTree
new_tree = record { levels = [] ∷ [] }

-- `ilog2` of a positive number of at most 64 bits, in one round for each bit.
unfoldable pub ilog2 : ℕ → ℕ → ℕ
ilog2 zero n = 0
ilog2 (suc bits) n = let half = ilog2 bits (n / 2) in if ltb n 2 then 0 else half + 1

-- A power of two has as many trailing zeros as its logarithm. Capacity has no effect here but for the levels that are added.
unfoldable pub max_levels : ℕ → ℕ
unfolding ilog2
max_levels num_leaves =
    if num_leaves == 2 ^ ilog2 64 num_leaves
    then ilog2 64 num_leaves + 1
    else ilog2 64 (num_leaves - 1) + 2

unfoldable pub reserve : ℕ → MerkleTree → MerkleTree
unfolding max_levels
reserve num_leaves tree = if num_leaves == 0 then tree else record {
  levels = tree.levels ++ replicate (max_levels num_leaves - length tree.levels) [];
}

unfoldable pub clear : MerkleTree → MerkleTree
clear tree = record { levels = map (λ level. []) tree.levels }

unfoldable pub is_empty_tree : MerkleTree → Result Bool
is_empty_tree tree = do row ← index tree.levels 0; ok (is_empty row)

-- The loop of `get_paths_to`. Each round indexes `levels` by a larger number, so one round more
-- than there are levels is enough; a loop out of fuel would panic.
unfoldable pub path_loop : ℕ → List (List Hash) → ℕ → ℕ → MerklePath → Result (MerklePath × ℕ)
path_loop zero levels level i path = panic
path_loop (suc fuel) levels level i path = do
  row ← index levels level
  let sibling = if i % 2 == 0 then i + 1 else i - 1
  elim (is_empty row) [
    | true ↦ ok (path, level)
    | false ↦ elim (leb (length row) sibling) [
      | true ↦ ok (path, level)
      | false ↦ do
        element ← index row sibling
        path' ← push_element path element
        path_loop fuel levels (level + 1) (i / 2) path'
    ]
  ]

unfoldable pub get_paths_to : MerkleTree → ℕ → MerklePath → Result MerklePath
unfolding path_loop is_empty_path
get_paths_to tree i path = do
  assert (is_empty_path path)
  (path', level) ← path_loop (suc (length tree.levels)) tree.levels 0 i path
  assert (leb level 32)
  ok path'

unfoldable pub get_paths : MerkleTree → ℕ → Result MerklePath
get_paths tree i = get_paths_to tree i new_path

module _ (sha512 : List ℕ → List ℕ) where
  unfoldable pub hash : List (List ℕ) → Hash
  hash to_hash = take output_len (sha512 (flatten to_hash))

  unfoldable pub hash_leaf : List ℕ → Hash
  unfolding hash
  hash_leaf leaf = hash (leaf_tweak ∷ leaf ∷ [])

  unfoldable pub hash_nodes : Hash → Hash → Hash
  unfolding hash
  hash_nodes first second = hash (node_tweak ∷ first ∷ second ∷ [])

  unfoldable pub push_leaf : MerkleTree → List ℕ → Result MerkleTree
  push_leaf tree leaf = do
    levels ← modify tree.levels 0 (λ row. row ++ (hash_leaf leaf ∷ []))
    ok (record { levels = levels })

  -- `for i in 0..node_count`: the nodes `i`, `i + 1`, … of a level from the pairs of the one below.
  unfoldable pub push_nodes : ℕ → ℕ → List Hash → List Hash → Result (List Hash)
  push_nodes zero i below row = ok row
  push_nodes (suc n) i below row = do
    first ← index below (i * 2)
    second ← index below (i * 2 + 1)
    push_nodes n (i + 1) below (row ++ (hash_nodes first second ∷ []))

  -- One round of the loop of `compute_root`: from a level and its number of nodes to the next.
  unfoldable pub compute_level : List (List Hash) → ℕ → ℕ → Result (List (List Hash) × ℕ)
  unfolding push_nodes
  compute_level levels below node_count = do
    let level = below + 1
    let grown = if ltb (length levels) (level + 1) then levels ++ ([] ∷ []) else levels
    cleared ← modify grown level (λ row. [])
    let odd = not (node_count % 2 == 0)
    padded ← if odd then modify cleared below (λ row. row ++ (padding_node ∷ [])) else ok cleared
    let half = (if odd then node_count + 1 else node_count) / 2
    nodes ← index padded below
    row ← push_nodes half 0 nodes []
    levels' ← modify padded level (λ _. row)
    ok (levels', half)

  -- `node_count` falls in each round, so `node_count` rounds are enough; a loop out of fuel would
  -- panic.
  unfoldable pub compute_loop : ℕ → List (List Hash) → ℕ → ℕ → Result (List (List Hash) × ℕ)
  unfolding compute_level
  compute_loop zero levels level node_count = if ltb 1 node_count then panic else ok (levels, level)
  compute_loop (suc fuel) levels level node_count = elim (ltb 1 node_count) [
    | true ↦ do
      (levels', half) ← compute_level levels level node_count
      compute_loop fuel levels' (level + 1) half
    | false ↦ ok (levels, level)
  ]

  -- The tree with its levels filled in, and the root.
  unfoldable pub compute_root : MerkleTree → Result (MerkleTree × Hash)
  unfolding compute_loop
  compute_root tree = do
    leaves ← index tree.levels 0
    assert (not (is_empty leaves))
    (levels, level) ← compute_loop (length leaves) tree.levels 0 (length leaves)
    top ← index levels level
    assert (length top == 1)
    root ← index top 0
    ok (record { levels = levels }, root)

  unfoldable pub root_loop : ℕ → Hash → List Hash → Hash
  root_loop i node [] = node
  root_loop i node (sibling ∷ path) =
      root_loop (i / 2) (if i % 2 == 0 then hash_nodes node sibling else hash_nodes sibling node)
        path

  unfoldable pub root_from_paths : ℕ → List ℕ → MerklePath → Hash
  unfolding root_loop hash_leaf
  root_from_paths i init path = root_loop i (hash_leaf init) (elements path)

  -- The leaves of a batch, pushed one by one.
  unfoldable pub push_leaves : MerkleTree → List (List ℕ) → Result MerkleTree
  unfolding push_leaf
  push_leaves tree [] = ok tree
  push_leaves tree (leaf ∷ leaves) = do tree' ← push_leaf tree leaf; push_leaves tree' leaves
