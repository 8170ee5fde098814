-- ===== src/Merkle/Spec.antt =====
-- The Merkle tree of RFC section 5.3 by rows: each row is hashed in pairs, a row of odd length is
-- padded with a zero node, and the row of one node holds the root.
use roughenough.Prelude.{ℕ, zero, suc, ◌+◌, ◌/◌, ◌≡◌, List, [], ◌∷◌, length, arith, ◌%◌, tail}
use roughenough.Merkle.{Hash, padding_node, hash_nodes}

unfoldable pub pad : List Hash → List Hash
pad [] = []
pad (a ∷ []) = a ∷ padding_node ∷ []
pad (a ∷ b ∷ row) = a ∷ b ∷ pad row

module _ (sha512 : List ℕ → List ℕ) where
  unfoldable pub parents : List Hash → List Hash
  parents [] = []
  parents (a ∷ []) = hash_nodes sha512 a padding_node ∷ []
  parents (a ∷ b ∷ row) = hash_nodes sha512 a b ∷ parents row

  -- The root over a row of at most 2 ^ k nodes, and at most k + 1.
  unfoldable pub root_of : ℕ → List Hash → Hash
  root_of k [] = []
  root_of k (a ∷ []) = a
  root_of zero (a ∷ b ∷ row) = []
  root_of (suc k) (a ∷ b ∷ row) = root_of k (parents (a ∷ b ∷ row))

  -- The levels from `row` on, over old levels `above`.
  unfoldable pub build : ℕ → List Hash → List (List Hash) → List (List Hash)
  build k [] above = [] ∷ above
  build k (a ∷ []) above = (a ∷ []) ∷ above
  build zero (a ∷ b ∷ row) above = (a ∷ b ∷ row) ∷ above
  build (suc k) (a ∷ b ∷ row) above =
      pad (a ∷ b ∷ row) ∷ build k (parents (a ∷ b ∷ row)) (tail above)

  -- How many levels stand above `row`.
  unfoldable pub height : ℕ → List Hash → ℕ
  height k [] = 0
  height k (a ∷ []) = 0
  height zero (a ∷ b ∷ row) = 0
  height (suc k) (a ∷ b ∷ row) = suc (height k (parents (a ∷ b ∷ row)))

  pub length-parents : (row : List Hash) → length (parents row) ≡ (length row + 1) / 2
  unfolding parents
  length-parents [] = omega arith
  length-parents (a ∷ []) = omega arith
  length-parents (a ∷ b ∷ row) = omega (arith, length-parents row)

pub length-pad : (row : List Hash) → length (pad row) ≡ length row + length row % 2
unfolding pad
length-pad [] = omega arith
length-pad (a ∷ []) = omega arith
length-pad (a ∷ b ∷ row) = omega (arith, length-pad row)
