-- ===== src/Merkle/Root.antt =====
-- The root that merkle/src/lib.rs computes is a hash value.
use roughenough.Prelude.{ℕ, zero, suc, ◌+◌, ◌≤◌, ◌<◌, ◌≡◌, List, [], ◌∷◌, length, map, arith}
use roughenough.Merkle.{Hash, hash_leaf}
use roughenough.Merkle.Spec.{parents, root_of, length-parents}
use roughenough.Merkle.Paths.{Wide, Wide-parents}
use roughenough.Merkle.Inclusion.{Wide-leaves}

module _ (sha512 : List ℕ → List ℕ)
    (digest_len : (message : List ℕ) → length (sha512 message) ≡ 64) where
  length-root_of :
      (k : ℕ) (row : List Hash)
      → 0 < length row
      → length row ≤ k + 1
      → Wide row
      → length (root_of sha512 k row) ≡ 32
  unfolding root_of
  length-root_of k [] pos small w = absurd (omega arith)
  length-root_of k (a ∷ []) pos small w = w.0
  length-root_of zero (a ∷ b ∷ row) pos small w = absurd (omega arith)
  length-root_of (suc k) (a ∷ b ∷ row) pos small w =
      let size : length (parents sha512 (a ∷ b ∷ row)) ≡ _ = length-parents sha512 (a ∷ b ∷ row) in
      length-root_of k (parents sha512 (a ∷ b ∷ row)) (omega (arith, size)) (omega (arith, size))
        (Wide-parents sha512 digest_len (a ∷ b ∷ row))

  -- The root of a batch has 32 bytes.
  pub length-root_of_batch :
      (first : List ℕ) (rest : List (List ℕ))
      → length (
          root_of sha512
            (length (map (hash_leaf sha512) (first ∷ rest)))
            (map (hash_leaf sha512) (first ∷ rest)))
        ≡ 32
  length-root_of_batch first rest =
      length-root_of (length (map (hash_leaf sha512) (first ∷ rest)))
        (map (hash_leaf sha512) (first ∷ rest)) (omega arith) (omega arith)
        (Wide-leaves sha512 digest_len (first ∷ rest))
