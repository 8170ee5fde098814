-- ===== src/Merkle/Paths.antt =====
-- The paths that `get_paths_to` of merkle/src/lib.rs collects, and the root that `root_from_paths`
-- computes from them.
use roughenough.Prelude.{
  ℕ, zero, suc, ◌+◌, ◌-◌, ◌/◌, ◌%◌, ◌^◌, ◌≤◌, ◌<◌, ◌≡◌, refl, ap, ◌∙◌, sym, false, List, [], ◌∷◌,
  ◌++◌, length, is_empty, length-take, leb, ◌==◌, if◌then◌else◌, arith, append_assoc, length-append,
  tail, append-nil, All, lt→not_leb,
}
use roughenough.Protocol.Error.{ok, index, index-append}
use roughenough.Protocol.Tags.Path.{MerklePath, elements, push_element}
use roughenough.Protocol.Tags.Path.Elements.{
  IsValid, pushed, push_element-pushed, pushed-IsValid, elements-pushed,
}
use mathlib.Core.List.{flatten}
use native.Mathlib.Nat.{pow-suc}
use roughenough.Merkle.{node_tweak, Hash, padding_node, hash_nodes, path_loop, root_loop}
use roughenough.Merkle.Spec.{pad, parents, build, height, root_of, length-parents, length-pad}

-- The node of a row at a place, or nothing beyond its end.
unfoldable pub at : List Hash → ℕ → Hash
at [] i = []
at (a ∷ row) zero = a
at (a ∷ row) (suc i) = at row i

sibling : ℕ → ℕ
sibling i = if i % 2 == 0 then i + 1 else i - 1

-- A node and its sibling, hashed in the order of their places.
join : (Hash → Hash → Hash) → ℕ → Hash → Hash → Hash
join node i a b = if i % 2 == 0 then node a b else node b a

index-at : (row : List Hash) (i : ℕ) → i < length row → index row i ≡ ok (at row i)
unfolding at
index-at [] i h = absurd (omega arith)
index-at (a ∷ row) zero h = refl
index-at (a ∷ row) (suc i) h = index-at row i (omega arith)

parity_step : (i : ℕ) → (suc (suc i) % 2 == 0) ≡ (i % 2 == 0)
parity_step i = ap (λ r. r == 0) (omega arith)

sibling_step : (i : ℕ) → sibling (suc (suc i)) ≡ suc (suc (sibling i))
unfolding sibling
sibling_step i = ground (arith, parity_step i)

half_step : (i : ℕ) → suc (suc i) / 2 ≡ suc (i / 2)
half_step i = omega arith

join_step :
    (node : Hash → Hash → Hash) (i : ℕ) (a b : Hash) → join node (suc (suc i)) a b ≡ join node i a b
unfolding join
join_step node i a b = ap (λ even. if even then node a b else node b a) (parity_step i)

sibling_lt : (i : ℕ) (row : List Hash) → i < length row → sibling i < length (pad row)
unfolding sibling
sibling_lt i row h = ground (arith, length-pad row)

-- One round of the loop at a node that has a sibling.
path_loop_step :
    (fuel : ℕ) (levels : List (List Hash)) (i j : ℕ) (path path' : MerklePath) (row : List Hash)
    (node : Hash)
    → index levels i ≡ ok row
    → is_empty row ≡ false
    → leb (length row) (sibling j) ≡ false
    → index row (sibling j) ≡ ok node
    → push_element path node ≡ ok path'
    → path_loop (suc fuel) levels i j path ≡ path_loop fuel levels (i + 1) (j / 2) path'
unfolding path_loop sibling
path_loop_step fuel levels i j path path' row node e1 e2 e3 e4 e5 = ground arith

-- A row of 32-byte nodes.
abbrev pub Wide : List Hash → Type 0
Wide row = All (λ node. length node ≡ 32) row

Wide-at : (row : List Hash) (i : ℕ) → Wide row → i < length row → length (at row i) ≡ 32
unfolding at
Wide-at [] i w h = absurd (omega arith)
Wide-at (a ∷ row) zero w h = w.0
Wide-at (a ∷ row) (suc i) w h = Wide-at row i w.1 (omega arith)

Wide-pad : (row : List Hash) → Wide row → Wide (pad row)
unfolding pad
Wide-pad [] w = w
Wide-pad (a ∷ []) w = (w.0, (refl, tt))
Wide-pad (a ∷ b ∷ row) w = (w.0, (w.1.0, Wide-pad row w.1.1))

module _ (sha512 : List ℕ → List ℕ) where
  parents-at_step :
      (a b : Hash) (row : List Hash) (i : ℕ)
      → at (parents sha512 row) (i / 2)
        ≡ join (hash_nodes sha512) i (at row i) (at (pad row) (sibling i))
      → at (hash_nodes sha512 a b ∷ parents sha512 row) (suc (suc i) / 2)
        ≡ join
            (hash_nodes sha512)
            (suc (suc i))
            (at row i)
            (at (a ∷ b ∷ pad row) (sibling (suc (suc i))))
  unfolding at
  parents-at_step a b row i h =
      rw
        (
          half_step i,
          sibling_step i,
          join_step (hash_nodes sha512) i (at row i) (at (pad row) (sibling i)),
        )
        h

  -- The parent of a node is the hash of it and its sibling, in order.
  parents-at :
      (row : List Hash) (i : ℕ)
      → i < length row
      → at (parents sha512 row) (i / 2)
        ≡ join (hash_nodes sha512) i (at row i) (at (pad row) (sibling i))
  unfolding at parents pad sibling join
  parents-at [] i h = absurd (omega arith)
  parents-at (a ∷ []) zero h = refl
  parents-at (a ∷ []) (suc i) h = absurd (omega arith)
  parents-at (a ∷ b ∷ row) zero h = refl
  parents-at (a ∷ b ∷ row) (suc zero) h = refl
  parents-at (a ∷ b ∷ row) (suc (suc i)) h =
      parents-at_step a b row i (parents-at row i (omega arith))

  -- The siblings of the nodes from the one at place `i` of `row` to the root.
  pub siblings : ℕ → List Hash → ℕ → List Hash
  siblings k [] i = []
  siblings k (a ∷ []) i = []
  siblings zero (a ∷ b ∷ row) i = []
  siblings (suc k) (a ∷ b ∷ row) i =
      at (pad (a ∷ b ∷ row)) (sibling i) ∷ siblings k (parents sha512 (a ∷ b ∷ row)) (i / 2)

  pub root_loop-siblings :
      (k i : ℕ) (row : List Hash)
      → i < length row
      → length row ≤ k + 1
      → root_loop sha512 i (at row i) (siblings k row i) ≡ root_of sha512 k row
  unfolding root_loop siblings root_of at join
  root_loop-siblings k i [] h f = absurd (omega arith)
  root_loop-siblings k zero (a ∷ []) h f = refl
  root_loop-siblings k (suc i) (a ∷ []) h f = absurd (omega arith)
  root_loop-siblings zero i (a ∷ b ∷ row) h f = absurd (omega arith)
  root_loop-siblings (suc k) i (a ∷ b ∷ row) h f =
      let row' : List Hash = a ∷ b ∷ row in
      ap (λ node. root_loop sha512 (i / 2) node (siblings k (parents sha512 row') (i / 2)))
        (sym (parents-at row' i h))
      ∙ root_loop-siblings k (i / 2) (parents sha512 row')
          (omega (arith, length-parents sha512 row')) (omega (arith, length-parents sha512 row'))

-- SHA-512 gives 64 bytes.
module _ (sha512 : List ℕ → List ℕ) (digest_len : (m : List ℕ) → length (sha512 m) ≡ 64) where
  pub wide_node : (a b : Hash) → length (hash_nodes sha512 a b) ≡ 32
  unfolding hash_nodes
  wide_node a b = omega (
    arith,
    length-take 32 (sha512 (flatten (node_tweak ∷ a ∷ b ∷ []))),
    digest_len (flatten (node_tweak ∷ a ∷ b ∷ [])),
  )

  pub Wide-parents : (row : List Hash) → Wide (parents sha512 row)
  unfolding parents
  Wide-parents [] = tt
  Wide-parents (a ∷ []) = (wide_node a padding_node, tt)
  Wide-parents (a ∷ b ∷ row) = (wide_node a b, Wide-parents row)

  -- What the loop of `get_paths_to` makes of the levels from `row` on.
  unfoldable pub Collects :
      (fuel i j k : ℕ) (front : List (List Hash)) (row : List Hash) (above : List (List Hash))
      (path : MerklePath)
      → Type 0
  Collects fuel i j k front row above path =
      (path' : MerklePath) × (path_loop fuel (front ++ build sha512 k row above) i j path
        ≡ ok (path', i + height sha512 k row))
      × IsValid path'
      × (elements path' ≡ elements path ++ siblings sha512 k row j)
      × (path'.num_paths ≡ path.num_paths + height sha512 k row)

  collect_top :
      (fuel i k : ℕ) (front : List (List Hash)) (a : Hash) (above : List (List Hash))
      (path : MerklePath)
      → i ≡ length front
      → IsValid path
      → Collects (suc fuel) i 0 k front (a ∷ []) above path
  unfolding Collects path_loop build height siblings
  collect_top fuel i k front a above path h v = (
    path,
    rw (index-append i front (a ∷ []) above h) (ap (λ j. ok (path, j)) (omega arith)),
    v,
    sym (append-nil (elements path)),
    omega arith,
  )

  collect_step :
      (fuel i j k : ℕ) (front : List (List Hash)) (a b : Hash) (row : List Hash)
      (above : List (List Hash)) (path : MerklePath)
      → i ≡ length front
      → j < length (a ∷ b ∷ row)
      → Wide (a ∷ b ∷ row)
      → IsValid path
      → path.num_paths < 32
      → path_loop (suc fuel) (front ++ build sha512 (suc k) (a ∷ b ∷ row) above) i j path
        ≡ path_loop fuel
            ((front ++ (pad (a ∷ b ∷ row) ∷ []))
              ++ build sha512 k (parents sha512 (a ∷ b ∷ row)) (tail above))
            (i + 1)
            (j / 2)
            (pushed path (at (pad (a ∷ b ∷ row)) (sibling j)))
  unfolding build pad
  collect_step fuel i j k front a b row above path h hj wide v room =
      let row' : List Hash = a ∷ b ∷ pad row in
      let up : List (List Hash) = build sha512 k (parents sha512 (a ∷ b ∷ row)) (tail above) in
      let near : sibling j < length row' = sibling_lt j (a ∷ b ∷ row) hj in
      let next : MerklePath = pushed path (at row' (sibling j)) in
      path_loop_step fuel (front ++ (row' ∷ up)) i j path next row' (at row' (sibling j))
        (index-append i front row' up h) refl (lt→not_leb (length row') (sibling j) near)
        (index-at row' (sibling j) near)
        (push_element-pushed path (at row' (sibling j)) v room
          (Wide-at row' (sibling j) (Wide-pad (a ∷ b ∷ row) wide) near))
      ∙ ap (λ levels. path_loop fuel levels (i + 1) (j / 2) next)
          (sym (append_assoc front (row' ∷ []) up))

  collect_climb :
      (fuel i j k : ℕ) (front : List (List Hash)) (a b : Hash) (row : List Hash)
      (above : List (List Hash)) (path : MerklePath)
      → i ≡ length front
      → j < length (a ∷ b ∷ row)
      → Wide (a ∷ b ∷ row)
      → IsValid path
      → path.num_paths < 32
      → Collects fuel
          (i + 1)
          (j / 2)
          k
          (front ++ (pad (a ∷ b ∷ row) ∷ []))
          (parents sha512 (a ∷ b ∷ row))
          (tail above)
          (pushed path (at (pad (a ∷ b ∷ row)) (sibling j)))
      → Collects (suc fuel) i j (suc k) front (a ∷ b ∷ row) above path
  unfolding Collects siblings height pushed
  collect_climb fuel i j k front a b row above path h hj wide v room
        (path', run, valid, gathered, count) =
      let row' : List Hash = a ∷ b ∷ row in
      let node : Hash = at (pad row') (sibling j) in
      let rest : List Hash = siblings sha512 k (parents sha512 row') (j / 2) in
      let node_wide : length node ≡ 32 =
        Wide-at (pad row') (sibling j) (Wide-pad row' wide) (sibling_lt j row' hj) in
      (
        path',
        collect_step fuel i j k front a b row above path h hj wide v room
            ∙ run
            ∙ ap (λ n. ok (path', n)) (omega arith),
        valid,
        gathered
            ∙ ap (λ es. es ++ rest) (elements-pushed path node v room node_wide)
            ∙ append_assoc (elements path) (node ∷ []) rest,
        omega arith,
      )

  pub collects :
      (k fuel i j : ℕ) (front : List (List Hash)) (row : List Hash) (above : List (List Hash))
      (path : MerklePath)
      → i ≡ length front
      → j < length row
      → length row ≤ k + 1
      → Wide row
      → IsValid path
      → path.num_paths + height sha512 k row ≤ 32
      → height sha512 k row < fuel
      → Collects fuel i j k front row above path
  unfolding height pushed
  collects k fuel i j front [] above path h hj f wide v room enough = absurd (omega arith)
  collects k zero i j front (a ∷ row) above path h hj f wide v room enough = absurd (omega arith)
  collects k (suc fuel) i zero front (a ∷ []) above path h hj f wide v room enough =
      collect_top fuel i k front a above path h v
  collects k (suc fuel) i (suc j) front (a ∷ []) above path h hj f wide v room enough =
      absurd (omega arith)
  collects zero (suc fuel) i j front (a ∷ b ∷ row) above path h hj f wide v room enough =
      absurd (omega arith)
  collects (suc k) (suc fuel) i j front (a ∷ b ∷ row) above path h hj f wide v room enough =
      let row' : List Hash = a ∷ b ∷ row in
      let node : Hash = at (pad row') (sibling j) in
      collect_climb fuel i j k front a b row above path h hj wide v (omega arith) (
        collects k fuel (i + 1) (j / 2) (front ++ (pad row' ∷ [])) (parents sha512 row')
          (tail above) (pushed path node) (omega (arith, length-append front (pad row' ∷ [])))
          (omega (arith, length-parents sha512 row')) (omega (arith, length-parents sha512 row'))
          (Wide-parents row')
          (pushed-IsValid path node v (omega arith)
            (Wide-at (pad row') (sibling j) (Wide-pad row' wide) (sibling_lt j row' hj)))
          (omega arith) (omega arith))

-- A row of at most 2 ^ h nodes has at most h levels above it.
pub height-le :
    (sha512 : List ℕ → List ℕ) (k h : ℕ) (row : List Hash)
    → length row ≤ 2 ^ h
    → height sha512 k row ≤ h
unfolding height
height-le sha512 k h [] e = omega arith
height-le sha512 k h (a ∷ []) e = omega arith
height-le sha512 zero h (a ∷ b ∷ row) e = omega arith
height-le sha512 (suc k) zero (a ∷ b ∷ row) e = absurd (omega arith)
height-le sha512 (suc k) (suc h) (a ∷ b ∷ row) e = omega (
  arith,
  height-le sha512 k h (parents sha512 (a ∷ b ∷ row))
      (omega (arith, length-parents sha512 (a ∷ b ∷ row), pow-suc 2 h)),
)

pub height-lt-build :
    (sha512 : List ℕ → List ℕ) (k : ℕ) (row : List Hash) (above : List (List Hash))
    → height sha512 k row < length (build sha512 k row above)
unfolding height build
height-lt-build sha512 k [] above = omega arith
height-lt-build sha512 k (a ∷ []) above = omega arith
height-lt-build sha512 zero (a ∷ b ∷ row) above = omega arith
height-lt-build sha512 (suc k) (a ∷ b ∷ row) above =
    omega (arith, height-lt-build sha512 k (parents sha512 (a ∷ b ∷ row)) (tail above))
