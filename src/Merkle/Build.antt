-- ===== src/Merkle/Build.antt =====
-- `compute_root` of merkle/src/lib.rs builds the levels of the row by row tree.
use roughenough.Prelude.{
  ◌⊎◌, inl, inr, ℕ, zero, suc, ◌+◌, ◌*◌, ◌/◌, ◌%◌, ◌≤◌, ◌<◌, ◌≡◌, refl, ap, ◌∙◌, sym, ap₂, Bool,
  List, [], ◌∷◌, ◌++◌, length, ltb, ◌==◌, not, if◌then◌else◌, arith, append_assoc, length-append,
  lt→ltb, tail, le→not_ltb, append-nil,
}
use roughenough.Protocol.Error.{ok, index, modify, index-append, modify-append, modify-append_next}
use roughenough.Merkle.{
  Hash, padding_node, hash_nodes, push_nodes, compute_level, compute_loop, compute_root,
}
use roughenough.Merkle.Spec.{pad, parents, build, height, root_of, length-parents, length-pad}

pad_odd : (row : List Hash) → length row % 2 ≡ 1 → row ++ (padding_node ∷ []) ≡ pad row
unfolding pad
pad_odd [] h = absurd (omega arith)
pad_odd (a ∷ []) h = refl
pad_odd (a ∷ b ∷ row) h = ap (λ r. a ∷ b ∷ r) (pad_odd row (omega arith))

pad_even : (row : List Hash) → length row % 2 ≡ 0 → row ≡ pad row
unfolding pad
pad_even [] h = refl
pad_even (a ∷ []) h = absurd (omega arith)
pad_even (a ∷ b ∷ row) h = ap (λ r. a ∷ b ∷ r) (pad_even row (omega arith))

even_or_odd : (n : ℕ) → (n % 2 ≡ 0) ⊎ (n % 2 ≡ 1)
even_or_odd n = omega arith

abbrev grown : ℕ → List (List Hash) → List (List Hash)
grown i levels = if ltb (length levels) (i + 1 + 1) then levels ++ ([] ∷ []) else levels

-- The next level is there, and empty.
clear_next :
    (i : ℕ) (front : List (List Hash)) (row : List Hash) (above : List (List Hash))
    → i ≡ length front
    → modify (grown i (front ++ (row ∷ above))) (i + 1) (λ _. [])
      ≡ ok (front ++ (row ∷ [] ∷ tail above))
clear_next i front row [] h =
    rw
      (lt→ltb (length (front ++ (row ∷ []))) (i + 1 + 1)
        (omega (arith, length-append front (row ∷ []))))
      (rw (append_assoc front (row ∷ []) ([] ∷ []))
        (modify-append_next (i + 1) front row [] [] (λ _. []) (omega arith)))
clear_next i front row (r ∷ above) h =
    rw
      (le→not_ltb (length (front ++ (row ∷ r ∷ above))) (i + 1 + 1)
        (omega (arith, length-append front (row ∷ r ∷ above))))
      (modify-append_next (i + 1) front row r above (λ _. []) (omega arith))

is_odd : ℕ → Bool
is_odd n = not (n % 2 == 0)

pad_level :
    (i : ℕ) (front : List (List Hash)) (row : List Hash) (back : List (List Hash))
    → i ≡ length front
    → (if is_odd (length row)
        then modify (front ++ (row ∷ back)) i (λ r. r ++ (padding_node ∷ []))
        else ok (front ++ (row ∷ back)))
      ≡ ok (front ++ (pad row ∷ back))
unfolding is_odd
pad_level i front row back h = elim (even_or_odd (length row)) [
  | inl e ↦ rw e (ap (λ r. ok (front ++ (r ∷ back))) (pad_even row e))
  | inr o ↦ rw o (
      modify-append i front row back (λ r. r ++ (padding_node ∷ [])) h
      ∙ ap (λ r. ok (front ++ (r ∷ back))) (pad_odd row o))
]

half_nodes : (n : ℕ) → (if is_odd n then n + 1 else n) / 2 ≡ (n + 1) / 2
unfolding is_odd
half_nodes n = ground arith

module _ (sha512 : List ℕ → List ℕ) where
  -- The pairs from `2 * i` on, behind the nodes that are done.
  push_nodes-parents :
      (n i : ℕ) (front rest acc : List Hash)
      → length front ≡ i * 2
      → length rest ≡ n * 2
      → push_nodes sha512 n i (front ++ rest) acc ≡ ok (acc ++ parents sha512 rest)
  unfolding push_nodes parents
  push_nodes-parents zero i front [] acc h k = ap ok (sym (append-nil acc))
  push_nodes-parents zero i front (a ∷ rest) acc h k = absurd (omega arith)
  push_nodes-parents (suc n) i front [] acc h k = absurd (omega arith)
  push_nodes-parents (suc n) i front (a ∷ []) acc h k = absurd (omega arith)
  push_nodes-parents (suc n) i front (a ∷ b ∷ rest) acc h k =
      let front' : List Hash = front ++ (a ∷ b ∷ []) in
      let acc' : List Hash = acc ++ (hash_nodes sha512 a b ∷ []) in
      let regroup : front' ++ rest ≡ front ++ (a ∷ b ∷ rest) =
        append_assoc front (a ∷ b ∷ []) rest in
      let second : index (front ++ (a ∷ b ∷ rest)) (i * 2 + 1) ≡ ok b =
        ap (λ xs. index xs (i * 2 + 1)) (sym (append_assoc front (a ∷ []) (b ∷ rest)))
        ∙ index-append (i * 2 + 1) (front ++ (a ∷ [])) b rest
            (omega (arith, length-append front (a ∷ []))) in
      rw (index-append (i * 2) front a (b ∷ rest) (omega arith), second)
        (ap (λ xs. push_nodes sha512 n (i + 1) xs acc') (sym regroup)
          ∙ push_nodes-parents n (i + 1) front' rest acc'
              (omega (arith, length-append front (a ∷ b ∷ []))) (omega arith)
          ∙ ap ok (append_assoc acc (hash_nodes sha512 a b ∷ []) (parents sha512 rest)))

  parents-pad : (row : List Hash) → parents sha512 (pad row) ≡ parents sha512 row
  unfolding parents pad
  parents-pad [] = refl
  parents-pad (a ∷ []) = refl
  parents-pad (a ∷ b ∷ row) = ap (λ r. hash_nodes sha512 a b ∷ r) (parents-pad row)

  pub compute_level_lem :
      (i : ℕ) (front : List (List Hash)) (row : List Hash) (above : List (List Hash))
      → i ≡ length front
      → compute_level sha512 (front ++ (row ∷ above)) i (length row)
        ≡ ok (front ++ (pad row ∷ parents sha512 row ∷ tail above), length (parents sha512 row))
  unfolding compute_level is_odd
  compute_level_lem i front row above h =
      let nodes : push_nodes sha512 ((length row + 1) / 2) 0 (pad row) []
          ≡ ok (parents sha512 row) =
        push_nodes-parents ((length row + 1) / 2) 0 [] (pad row) [] (omega arith)
          (omega (arith, length-pad row))
        ∙ ap ok (parents-pad row) in
      rw (
        clear_next i front row above h,
        pad_level i front row ([] ∷ tail above) h,
        index-append i front (pad row) ([] ∷ tail above) h,
        half_nodes (length row),
        nodes,
        modify-append_next (i + 1) front (pad row) [] (tail above) (λ _. parents sha512 row)
            (omega arith),
        length-parents sha512 row,
      )

  compute_loop_done :
      (fuel i n : ℕ) (levels : List (List Hash))
      → n ≤ 1
      → compute_loop sha512 fuel levels i n ≡ ok (levels, i)
  unfolding compute_loop
  compute_loop_done zero i n levels h = rw (le→not_ltb 1 n h, compute_loop)
  compute_loop_done (suc fuel) i n levels h = rw (le→not_ltb 1 n h, compute_loop)

  compute_loop_step :
      (fuel i : ℕ) (front : List (List Hash)) (row : List Hash) (above : List (List Hash))
      → i ≡ length front
      → 1 < length row
      → compute_loop sha512 (suc fuel) (front ++ (row ∷ above)) i (length row)
        ≡ compute_loop sha512 fuel
            ((front ++ (pad row ∷ [])) ++ (parents sha512 row ∷ tail above))
            (i + 1)
            (length (parents sha512 row))
  unfolding compute_loop
  compute_loop_step fuel i front row above h more =
      rw (lt→ltb 1 (length row) more, compute_loop)
        (rw (compute_level_lem i front row above h) (
          ap (λ levels. compute_loop sha512 fuel levels (i + 1) (length (parents sha512 row)))
            (sym (append_assoc front (pad row ∷ []) (parents sha512 row ∷ tail above)))))

  -- From any level the loop builds all levels above it, and stops at the root's.
  pub compute_loop-build :
      (fuel i : ℕ) (front : List (List Hash)) (row : List Hash) (above : List (List Hash))
      → i ≡ length front
      → length row ≤ fuel + 1
      → compute_loop sha512 fuel (front ++ (row ∷ above)) i (length row)
        ≡ ok (front ++ build sha512 fuel row above, i + height sha512 fuel row)
  unfolding build height
  compute_loop-build fuel i front [] above h k =
      compute_loop_done fuel i 0 (front ++ ([] ∷ above)) (omega arith)
      ∙ ap (λ j. ok (front ++ ([] ∷ above), j)) (omega arith)
  compute_loop-build fuel i front (a ∷ []) above h k =
      compute_loop_done fuel i 1 (front ++ ((a ∷ []) ∷ above)) (omega arith)
      ∙ ap (λ j. ok (front ++ ((a ∷ []) ∷ above), j)) (omega arith)
  compute_loop-build zero i front (a ∷ b ∷ row) above h k = absurd (omega arith)
  compute_loop-build (suc fuel) i front (a ∷ b ∷ row) above h k =
      let row' : List Hash = a ∷ b ∷ row in
      let up : List Hash = parents sha512 row' in
      compute_loop_step fuel i front row' above h (omega arith)
      ∙ compute_loop-build fuel (i + 1) (front ++ (pad row' ∷ [])) up (tail above)
          (omega (arith, length-append front (pad row' ∷ [])))
          (omega (arith, length-parents sha512 row'))
      ∙ ap₂ (λ levels j. ok (levels, j))
          (append_assoc front (pad row' ∷ []) (build sha512 fuel up (tail above))) (omega arith)

  -- The level at the computed height holds the root.
  index-build-height :
      (fuel : ℕ) (a : Hash) (row : List Hash) (above : List (List Hash))
      → length row ≤ fuel
      → index (build sha512 fuel (a ∷ row) above) (height sha512 fuel (a ∷ row))
        ≡ ok (root_of sha512 fuel (a ∷ row) ∷ [])
  unfolding build height root_of parents
  index-build-height fuel a [] above h = refl
  index-build-height zero a (b ∷ row) above h = absurd (omega arith)
  index-build-height (suc fuel) a (b ∷ row) above h =
      index-build-height fuel (hash_nodes sha512 a b) (parents sha512 row) (tail above)
        (omega (arith, length-parents sha512 row))

  -- On a tree with a leaf `compute_root` does not panic: it fills in the levels of the row by row
  -- tree, and returns the root of that tree.
  pub compute_root-root_of :
      (leaf : Hash) (row : List Hash) (above : List (List Hash))
      → compute_root sha512 (record { levels = (leaf ∷ row) ∷ above })
        ≡ ok (
          record { levels = build sha512 (length (leaf ∷ row)) (leaf ∷ row) above },
          root_of sha512 (length (leaf ∷ row)) (leaf ∷ row),
        )
  unfolding compute_root
  compute_root-root_of leaf row above =
      let n : ℕ = length (leaf ∷ row) in
      let loop : compute_loop sha512 n ((leaf ∷ row) ∷ above) 0 n
          ≡ ok (build sha512 n (leaf ∷ row) above, height sha512 n (leaf ∷ row)) =
        compute_loop-build n 0 [] (leaf ∷ row) above (omega arith) (omega arith)
        ∙ ap (λ j. ok (build sha512 n (leaf ∷ row) above, j)) (omega arith) in
      rw (loop, index-build-height n leaf row above (omega arith))
