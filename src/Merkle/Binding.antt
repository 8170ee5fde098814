-- ===== src/Merkle/Binding.antt =====
-- A root binds its leaves: two proofs of merkle/src/lib.rs that lead to one root prove one leaf, or
-- they show two inputs of the hash with one output.
use roughenough.Prelude.{
  ℕ, ◌/◌, ◌%◌, ◌^◌, ◌≤◌, ◌<◌, ◌≡◌, ◌≢◌, ap, ◌∙◌, sym, List, [], ◌∷◌, ◌++◌, length, map, Bool-cases,
  ◌==◌, arith, take, take-append, drop, drop-append, append-nil, ◌⊎◌, inl, inr,
}
use mathlib.Core.List.{flatten}
use native.Mathlib.Decide.{ℕ_discrete}
use roughenough.Protocol.Error.{ok}
use roughenough.Protocol.Tags.Path.{MerklePath, elements}
use roughenough.Protocol.Tags.Path.Elements.{IsValid, length-elements, elements_full}
use roughenough.Merkle.{
  Hash, MerkleTree, node_tweak, leaf_tweak, hash, hash_leaf, hash_nodes, root_loop, root_from_paths,
}
use roughenough.Merkle.Spec.{height}
use roughenough.Merkle.Paths.{Wide, wide_node}
use roughenough.Merkle.Inclusion.{leaf_at, batch_tree, root_from_paths-get_paths, wide_leaf}

bytes_discrete : Discrete (List ℕ)
bytes_discrete = hlevel ℕ_discrete

-- Two inputs with one output of the truncated SHA-512.
abbrev pub Collision : (List ℕ → List ℕ) → Type 0
Collision sha512 = (x : List ℕ) × (y : List ℕ) × (x ≢ y) × (take 32 (sha512 x) ≡ take 32 (sha512 y))

module _ (sha512 : List ℕ → List ℕ) where
  hash-injective :
      (x y : List (List ℕ))
      → hash sha512 x ≡ hash sha512 y
      → (flatten x ≡ flatten y) ⊎ Collision sha512
  unfolding hash
  hash-injective x y e = elim (bytes_discrete (flatten x) (flatten y)) [
    | yes same ↦ inl same
    | no differ ↦ inr (flatten x, flatten y, differ, e)
  ]

  tail_eq : (a b : ℕ) (xs ys : List ℕ) → a ∷ xs ≡ b ∷ ys → xs ≡ ys
  tail_eq a b xs ys e = cc

  hash_leaf-injective :
      (x y : List ℕ) → hash_leaf sha512 x ≡ hash_leaf sha512 y → (x ≡ y) ⊎ Collision sha512
  unfolding hash_leaf flatten
  hash_leaf-injective x y e = elim (hash-injective (leaf_tweak ∷ x ∷ []) (leaf_tweak ∷ y ∷ []) e) [
    | inl same ↦ inl (sym (append-nil x) ∙ tail_eq 0 0 (x ++ []) (y ++ []) same ∙ append-nil y)
    | inr clash ↦ inr clash
  ]

  split : (a b c d : List ℕ) → length a ≡ 32 → length c ≡ 32 → a ++ b ≡ c ++ d → (a ≡ c) × (b ≡ d)
  split a b c d ha hc e = (
    sym (take-append 32 a b ha) ∙ ap (take 32) e ∙ take-append 32 c d hc,
    sym (drop-append 32 a b ha) ∙ ap (drop 32) e ∙ drop-append 32 c d hc,
  )

  hash_nodes-injective :
      (a b c d : Hash)
      → length a ≡ 32
      → length c ≡ 32
      → hash_nodes sha512 a b ≡ hash_nodes sha512 c d
      → ((a ≡ c) × (b ≡ d)) ⊎ Collision sha512
  unfolding hash_nodes flatten
  hash_nodes-injective a b c d ha hc e =
      elim (hash-injective (node_tweak ∷ a ∷ b ∷ []) (node_tweak ∷ c ∷ d ∷ []) e) [
        | inl same ↦ inl (
            split a b c d ha hc (
              ap (λ t. a ++ t) (sym (append-nil b))
              ∙ tail_eq 1 1 (a ++ (b ++ [])) (c ++ (d ++ [])) same
              ∙ ap (λ t. c ++ t) (append-nil d)))
        | inr clash ↦ inr clash
      ]

module _ (sha512 : List ℕ → List ℕ) (digest_len : (m : List ℕ) → length (sha512 m) ≡ 64) where
  root_loop-injective :
      (i : ℕ) (x y : Hash) (p q : List Hash)
      → length x ≡ 32
      → length y ≡ 32
      → Wide p
      → Wide q
      → length p ≡ length q
      → root_loop sha512 i x p ≡ root_loop sha512 i y q
      → (x ≡ y) ⊎ Collision sha512
  unfolding root_loop
  root_loop-injective i x y [] [] hx hy hp hq same e = inl e
  root_loop-injective i x y [] (b ∷ q) hx hy hp hq same e = absurd (omega arith)
  root_loop-injective i x y (a ∷ p) [] hx hy hp hq same e = absurd (omega arith)
  root_loop-injective i x y (a ∷ p) (b ∷ q) hx hy hp hq same e = elim (Bool-cases (i % 2 == 0)) [
    | inl left ↦
        elim (root_loop-injective (i / 2) (hash_nodes sha512 x a) (hash_nodes sha512 y b) p q
          (wide_node sha512 digest_len x a) (wide_node sha512 digest_len y b) hp.1 hq.1
          (omega arith) (rw left at e)) [
            | inl eq ↦ elim (hash_nodes-injective sha512 x a y b hx hy eq) [
              | inl (xy, ab) ↦ inl xy
              | inr clash ↦ inr clash
            ]
            | inr clash ↦ inr clash
          ]
    | inr right ↦
        elim (root_loop-injective (i / 2) (hash_nodes sha512 a x) (hash_nodes sha512 b y) p q
          (wide_node sha512 digest_len a x) (wide_node sha512 digest_len b y) hp.1 hq.1
          (omega arith) (rw right at e)) [
            | inl eq ↦ elim (hash_nodes-injective sha512 a x b y hp.0 hq.0 eq) [
              | inl (ab, xy) ↦ inl xy
              | inr clash ↦ inr clash
            ]
            | inr clash ↦ inr clash
          ]
  ]

  -- Two paths of one depth that lead from the same place to one root prove the same data, or they
  -- show a collision of the truncated SHA-512.
  pub root_from_paths-injective :
      (i : ℕ) (x y : List ℕ) (p q : MerklePath)
      → IsValid p
      → IsValid q
      → p.num_paths ≡ q.num_paths
      → root_from_paths sha512 i x p ≡ root_from_paths sha512 i y q
      → (x ≡ y) ⊎ Collision sha512
  unfolding root_from_paths
  root_from_paths-injective i x y p q vp vq depth e =
      elim (root_loop-injective i (hash_leaf sha512 x) (hash_leaf sha512 y) (elements p)
        (elements q) (wide_leaf sha512 digest_len x) (wide_leaf sha512 digest_len y)
        (elements_full p vp) (elements_full q vq)
        (omega (arith, length-elements p, length-elements q)) e) [
          | inl same ↦ hash_leaf-injective sha512 x y same
          | inr clash ↦ inr clash
        ]

  -- Whoever proves data `x` at place `i` of a batch, by a path as deep as the tree of the batch is
  -- high, proves the request that was pushed at that place, or shows a collision.
  pub root_from_paths_sound :
      (above : List (List Hash)) (first : List ℕ) (rest : List (List ℕ)) (i : ℕ) (x : List ℕ)
      (path : MerklePath) (tree : MerkleTree) (root : Hash)
      → i < length (first ∷ rest)
      → length (first ∷ rest) ≤ 2 ^ 32
      → IsValid path
      → path.num_paths
        ≡ height sha512 (length (first ∷ rest)) (map (hash_leaf sha512) (first ∷ rest))
      → batch_tree sha512 above (first ∷ rest) ≡ ok (tree, root)
      → root_from_paths sha512 i x path ≡ root
      → (x ≡ leaf_at (first ∷ rest) i) ⊎ Collision sha512
  root_from_paths_sound above first rest i x path tree root hi few v depth batch e =
      let (tree', root', path', batch', run, proof, valid, depth') =
        root_from_paths-get_paths sha512 digest_len above first rest i hi few in
      let roots : root ≡ root' = cc (sym batch ∙ batch') in
      root_from_paths-injective i x (leaf_at (first ∷ rest) i) path path' v valid
        (depth ∙ sym depth') (e ∙ roots ∙ sym proof)
