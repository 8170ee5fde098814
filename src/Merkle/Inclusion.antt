-- ===== src/Merkle/Inclusion.antt =====
-- Inclusion proofs of merkle/src/lib.rs: what `root_from_paths` makes of the path of a leaf.
use roughenough.Prelude.{
  ℕ, zero, suc, ◌+◌, ◌^◌, ◌≤◌, ◌<◌, ◌≡◌, refl, ap, ap₂, ◌∙◌, sym, List, [], ◌∷◌, ◌++◌, length, map,
  arith, append_assoc, append-nil, length-map, length-take, le→leb, eq→==,
}
use mathlib.Core.List.{flatten}
use roughenough.Protocol.Error.{Result, ok, ◌>>=◌}
use roughenough.Protocol.Tags.Path.{MerklePath, new_path, is_empty_path, elements}
use roughenough.Protocol.Tags.Path.Elements.{
  IsValid, new_path-IsValid, elements-empty, num_paths-new_path,
}
use roughenough.Merkle.{
  Hash, MerkleTree, leaf_tweak, hash_leaf, push_leaves, compute_root, get_paths_to, get_paths,
  root_loop, root_from_paths,
}
use roughenough.Merkle.Spec.{build, height, root_of}
use roughenough.Merkle.Build.{compute_root-root_of}
use roughenough.Merkle.Paths.{
  at, siblings, Wide, root_loop-siblings, Collects, collects, height-le, height-lt-build,
}

-- The `i`th leaf of a batch.
unfoldable pub leaf_at : List (List ℕ) → ℕ → List ℕ
leaf_at [] i = []
leaf_at (leaf ∷ leaves) zero = leaf
leaf_at (leaf ∷ leaves) (suc i) = leaf_at leaves i

module _ (sha512 : List ℕ → List ℕ) where
  -- Pushing leaves appends their hashes to the bottom level.
  push_leaves-map :
      (row : List Hash) (above : List (List Hash)) (leaves : List (List ℕ))
      → push_leaves sha512 (record { levels = row ∷ above }) leaves
        ≡ ok (record { levels = (row ++ map (hash_leaf sha512) leaves) ∷ above })
  unfolding push_leaves
  push_leaves-map row above [] = ap (λ r. ok (record { levels = r ∷ above })) (sym (append-nil row))
  push_leaves-map row above (leaf ∷ leaves) =
      push_leaves-map (row ++ (hash_leaf sha512 leaf ∷ [])) above leaves
      ∙ ap (λ r. ok (record { levels = r ∷ above }))
          (append_assoc row (hash_leaf sha512 leaf ∷ []) (map (hash_leaf sha512) leaves))

  -- The tree and the root of a batch, over the levels that earlier batches left empty.
  pub batch_tree : List (List (List ℕ)) → List (List ℕ) → Result (MerkleTree × Hash)
  batch_tree above leaves = do
    tree ← push_leaves sha512 (record { levels = [] ∷ above }) leaves
    compute_root sha512 tree

  pub batch_tree-root_of :
      (above : List (List Hash)) (first : List ℕ) (rest : List (List ℕ))
      → let row : List Hash = map (hash_leaf sha512) (first ∷ rest) in
        batch_tree above (first ∷ rest)
        ≡ ok (
          record { levels = build sha512 (length row) row above },
          root_of sha512 (length row) row,
        )
  unfolding batch_tree
  batch_tree-root_of above first rest =
      rw (push_leaves-map [] above (first ∷ rest))
        (compute_root-root_of sha512 (hash_leaf sha512 first) (map (hash_leaf sha512) rest) above)

  at-map :
      (leaves : List (List ℕ)) (i : ℕ)
      → i < length leaves
      → at (map (hash_leaf sha512) leaves) i ≡ hash_leaf sha512 (leaf_at leaves i)
  unfolding at leaf_at
  at-map [] i h = absurd (omega arith)
  at-map (leaf ∷ leaves) zero h = refl
  at-map (leaf ∷ leaves) (suc i) h = at-map leaves i (omega arith)

module _ (sha512 : List ℕ → List ℕ) (digest_len : (m : List ℕ) → length (sha512 m) ≡ 64) where
  pub wide_leaf : (leaf : List ℕ) → length (hash_leaf sha512 leaf) ≡ 32
  unfolding hash_leaf
  wide_leaf leaf = omega (
    arith,
    length-take 32 (sha512 (flatten (leaf_tweak ∷ leaf ∷ []))),
    digest_len (flatten (leaf_tweak ∷ leaf ∷ [])),
  )

  pub Wide-leaves : (leaves : List (List ℕ)) → Wide (map (hash_leaf sha512) leaves)
  Wide-leaves [] = tt
  Wide-leaves (leaf ∷ leaves) = (wide_leaf leaf, Wide-leaves leaves)

  -- `get_paths_to` on the levels of a batch, from an empty path whatever its buffer holds.
  get_paths_to-build :
      (row : List Hash) (above : List (List Hash)) (i : ℕ) (start : MerklePath)
      → Wide row
      → i < length row
      → length row ≤ 2 ^ 32
      → IsValid start
      → start.num_paths ≡ 0
      → (path : MerklePath) × (get_paths_to
            (record { levels = build sha512 (length row) row above })
            i
            start
          ≡ ok path)
        × IsValid path
        × (elements path ≡ siblings sha512 (length row) row i)
        × (path.num_paths ≡ height sha512 (length row) row)
  unfolding get_paths_to Collects is_empty_path
  get_paths_to-build row above i start wide hi few v none =
      let n : ℕ = length row in
      let low : height sha512 n row ≤ 32 = height-le sha512 n 32 row few in
      finish (
        collects sha512 digest_len n (suc (length (build sha512 n row above))) 0 i [] row above
          start (omega arith) hi (omega arith) wide v (omega (arith, none))
          (omega (arith, height-lt-build sha512 n row above)))
    where
      finish :
          Collects sha512 digest_len
            (suc (length (build sha512 (length row) row above)))
            0
            i
            (length row)
            []
            row
            above
            start
          → (path : MerklePath) × (get_paths_to
                (record { levels = build sha512 (length row) row above })
                i
                start
              ≡ ok path)
            × IsValid path
            × (elements path ≡ siblings sha512 (length row) row i)
            × (path.num_paths ≡ height sha512 (length row) row)
      finish (path, run, valid, gathered, count) = (
        path,
        rw (eq→== start.num_paths 0 none) (
            rw run (
              rw (
                le→leb (0 + height sha512 (length row) row) 32
                  (omega (arith, height-le sha512 (length row) 32 row few))))),
        valid,
        gathered ∙ ap (λ es. es ++ siblings sha512 (length row) row i) (elements-empty start none),
        omega (arith, count, none),
      )

  root_from_paths-siblings :
      (first : List ℕ) (rest : List (List ℕ)) (i : ℕ) (path : MerklePath)
      → i < length (first ∷ rest)
      → elements path
        ≡ siblings sha512
            (length (map (hash_leaf sha512) (first ∷ rest)))
            (map (hash_leaf sha512) (first ∷ rest))
            i
      → root_from_paths sha512 i (leaf_at (first ∷ rest) i) path
        ≡ root_of sha512
            (length (map (hash_leaf sha512) (first ∷ rest)))
            (map (hash_leaf sha512) (first ∷ rest))
  unfolding root_from_paths
  root_from_paths-siblings first rest i path hi gathered =
      let row : List Hash = map (hash_leaf sha512) (first ∷ rest) in
      ap₂ (root_loop sha512 i) (sym (at-map sha512 (first ∷ rest) i hi)) gathered
      ∙ root_loop-siblings sha512 (length row) i row
          (omega (arith, length-map (first ∷ rest) (hash_leaf sha512))) (omega arith)

  -- Each leaf of a batch of at most 2 ^ 32 leaves is proved by the path that the tree gives for it.
  pub get_paths_to-batch :
      (above : List (List Hash)) (first : List ℕ) (rest : List (List ℕ)) (i : ℕ)
      (start : MerklePath)
      → i < length (first ∷ rest)
      → length (first ∷ rest) ≤ 2 ^ 32
      → IsValid start
      → start.num_paths ≡ 0
      → let row : List Hash = map (hash_leaf sha512) (first ∷ rest) in
        (path : MerklePath) × (get_paths_to
            (record { levels = build sha512 (length row) row above })
            i
            start
          ≡ ok path)
        × (root_from_paths sha512 i (leaf_at (first ∷ rest) i) path
            ≡ root_of sha512 (length row) row)
        × IsValid path
        × (path.num_paths ≡ height sha512 (length (first ∷ rest)) row)
  get_paths_to-batch above first rest i start hi few v none =
      let row : List Hash = map (hash_leaf sha512) (first ∷ rest) in
      let same : length row ≡ length (first ∷ rest) =
        length-map (first ∷ rest) (hash_leaf sha512) in
      let (path, run, valid, gathered, count) =
        get_paths_to-build row above i start (Wide-leaves (first ∷ rest)) (omega (arith, same))
          (omega (arith, same)) v none in
      (
        path,
        run,
        root_from_paths-siblings first rest i path hi gathered,
        valid,
        count ∙ ap (λ n. height sha512 n row) same,
      )

  -- For each leaf of a batch of at most 2 ^ 32, `get_paths` does not panic on the tree of the batch,
  -- and `root_from_paths` computes the root of the tree from the leaf, its place and that path.
  -- The path is a valid one, with an element for each level below the root's.
  pub root_from_paths-get_paths :
      (above : List (List Hash)) (first : List ℕ) (rest : List (List ℕ)) (i : ℕ)
      → i < length (first ∷ rest)
      → length (first ∷ rest) ≤ 2 ^ 32
      → (tree : MerkleTree) × (root : Hash) × (path : MerklePath) × (batch_tree sha512 above
            (first ∷ rest)
          ≡ ok (tree, root))
        × (get_paths tree i ≡ ok path)
        × (root_from_paths sha512 i (leaf_at (first ∷ rest) i) path ≡ root)
        × IsValid path
        × (path.num_paths
            ≡ height sha512 (length (first ∷ rest)) (map (hash_leaf sha512) (first ∷ rest)))
  unfolding get_paths
  root_from_paths-get_paths above first rest i hi few =
      let row : List Hash = map (hash_leaf sha512) (first ∷ rest) in
      let (path, run, proved, valid, count) =
        get_paths_to-batch above first rest i new_path hi few new_path-IsValid num_paths-new_path in
      (
        record { levels = build sha512 (length row) row above },
        root_of sha512 (length row) row,
        path,
        batch_tree-root_of sha512 above first rest,
        run,
        proved,
        valid,
        count,
      )
