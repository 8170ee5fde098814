-- ===== src/Tests/Merkle.antt =====
-- The theorems on the Merkle tree at a batch of three requests, and on PATH at a path of one element.
use roughenough.Prelude.{
  ℕ, ◌≡◌, refl, List, [], ◌∷◌, ◌++◌, length, take, replicate, arith, map, length-append,
  length-replicate, length-take, ◌⊎◌,
}
use roughenough.Protocol.Error.{ok}
use roughenough.Protocol.Tags.Path.Wire.{path_try_from-paths}
use roughenough.Protocol.Tags.Path.{
  path_try_from, paths, MerklePath, new_path, elements, push_element, copy_from,
}
use roughenough.Protocol.Tags.Path.Elements.{
  IsValid, new_path-IsValid, pushed, pushed-IsValid, elements-push_element, elements-copy_from,
  num_paths-new_path,
}
use roughenough.Merkle.{Hash, MerkleTree, compute_root, get_paths, root_from_paths, hash_leaf}
use roughenough.Merkle.Spec.{build, height, root_of}
use roughenough.Merkle.Build.{compute_root-root_of}
use roughenough.Merkle.Inclusion.{batch_tree, leaf_at, root_from_paths-get_paths}
use roughenough.Merkle.Binding.{Collision, root_from_paths-injective, root_from_paths_sound}

-- In place of SHA-512: the first 64 bytes of the message.
abbrev toy_sha512 : List ℕ → List ℕ
toy_sha512 m = take 64 (m ++ replicate 64 0)

length-toy_sha512 : (m : List ℕ) → length (toy_sha512 m) ≡ 64
length-toy_sha512 m = omega (
  arith,
  length-take 64 (m ++ replicate 64 0),
  length-append m (replicate 64 0),
  length-replicate {A = ℕ} 64 0,
)

abbrev first_request : List ℕ
first_request = 1 ∷ []

abbrev other_requests : List (List ℕ)
other_requests = (2 ∷ []) ∷ (3 ∷ []) ∷ []

abbrev requests : List (List ℕ)
requests = first_request ∷ other_requests

-- What the theorem says of the request at `i`.
abbrev Proven : ℕ → Type 0
Proven i =
    (tree : MerkleTree) × (root : Hash) × (path : MerklePath) × (batch_tree toy_sha512 [] requests
      ≡ ok (tree, root))
    × (get_paths tree i ≡ ok path)
    × (root_from_paths toy_sha512 i (leaf_at requests i) path ≡ root)
    × IsValid path
    × (path.num_paths ≡ height toy_sha512 3 (map (hash_leaf toy_sha512) requests))

root_from_paths-get_paths_example : Proven 1
root_from_paths-get_paths_example =
    root_from_paths-get_paths toy_sha512 length-toy_sha512 [] first_request other_requests 1
      (omega arith) (omega arith)

abbrev proven : Proven 2
proven =
    root_from_paths-get_paths toy_sha512 length-toy_sha512 [] first_request other_requests 2
      (omega arith) (omega arith)

root_from_paths_sound_example : (leaf_at requests 2 ≡ leaf_at requests 2) ⊎ Collision toy_sha512
root_from_paths_sound_example =
    root_from_paths_sound toy_sha512 length-toy_sha512 [] first_request other_requests 2
      (leaf_at requests 2) proven.2 proven.0 proven.1 (omega arith) (omega arith) proven.6 proven.7
      proven.3 proven.5

root_from_paths-injective_example : (leaf_at requests 2 ≡ leaf_at requests 2) ⊎ Collision toy_sha512
root_from_paths-injective_example =
    root_from_paths-injective toy_sha512 length-toy_sha512 2 (leaf_at requests 2)
      (leaf_at requests 2) proven.2 proven.2 proven.6 proven.6 refl refl

compute_root-root_of_example :
    compute_root toy_sha512
      (record { levels = (replicate 32 1 ∷ replicate 32 2 ∷ replicate 32 3 ∷ []) ∷ [] })
    ≡ ok (
      record {
        levels = build toy_sha512 3 (replicate 32 1 ∷ replicate 32 2 ∷ replicate 32 3 ∷ []) [];
      },
      root_of toy_sha512 3 (replicate 32 1 ∷ replicate 32 2 ∷ replicate 32 3 ∷ []),
    )
compute_root-root_of_example =
    compute_root-root_of toy_sha512 (replicate 32 1) (replicate 32 2 ∷ replicate 32 3 ∷ []) []

abbrev element : List ℕ
element = replicate 32 9

elements-push_element_example :
    (q : MerklePath) × (push_element new_path element ≡ ok q)
    × IsValid q
    × (elements q ≡ elements new_path ++ (element ∷ []))
elements-push_element_example =
    elements-push_element new_path element new_path-IsValid (omega (arith, num_paths-new_path)) refl

abbrev one_element : MerklePath
one_element = pushed new_path element

one_element-IsValid : IsValid one_element
one_element-IsValid =
    pushed-IsValid new_path element new_path-IsValid (omega (arith, num_paths-new_path)) refl

elements-copy_from_example : elements (copy_from new_path one_element) ≡ elements one_element
elements-copy_from_example =
    elements-copy_from new_path one_element new_path-IsValid one_element-IsValid

path_try_from-paths_example :
    (q : MerklePath) × (path_try_from (paths one_element) ≡ ok q)
    × IsValid q
    × (elements q ≡ elements one_element)
path_try_from-paths_example = path_try_from-paths one_element one_element-IsValid
