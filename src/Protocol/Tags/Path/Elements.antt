-- ===== src/Protocol/Tags/Path/Elements.antt =====
-- The PATH buffer of tags/path.rs as the list of its elements.
use roughenough.Prelude.{
  ℕ, zero, suc, ◌+◌, ◌*◌, ◌≤◌, ◌<◌, ◌≡◌, refl, ap, ap₂, ◌∙◌, sym, List, [], ◌∷◌, ◌++◌, length, take,
  drop, arith, All, take-append, take-append_le, drop-append_le, take_all, length-append,
  length-take, length-drop, lt→ltb, append_assoc, length-replicate,
}
use roughenough.Protocol.Error.{ok}
use roughenough.Protocol.Tags.Path.{
  MerklePath, max_paths, element_size, path_capacity, new_path, paths, chunks, elements, overwrite,
  push_element, copy_from,
}

pub record IsValid (p : MerklePath) : Type 0 where
  pub fits : p.num_paths ≤ max_paths
  pub full : length p.buf ≡ path_capacity

pub new_path-IsValid : IsValid new_path
unfolding new_path
new_path-IsValid = record { fits = omega arith; full = length-replicate {A = ℕ} path_capacity 0 }

pub elements-new_path : elements new_path ≡ []
unfolding elements chunks new_path
elements-new_path = refl

-- A path without elements, whatever its buffer holds.
pub elements-empty : (p : MerklePath) → p.num_paths ≡ 0 → elements p ≡ []
unfolding elements chunks
elements-empty p none = ap (λ n. chunks n (paths p)) none

pub num_paths-new_path : new_path.num_paths ≡ 0
unfolding new_path
num_paths-new_path = refl

chunks-append :
    (n : ℕ) (xs e : List ℕ)
    → length xs ≡ n * 32
    → length e ≡ 32
    → chunks (suc n) (xs ++ e) ≡ chunks n xs ++ (e ∷ [])
unfolding chunks
chunks-append zero [] e h k = ap (λ ys. ys ∷ []) (take_all 32 e (omega arith))
chunks-append zero (x ∷ xs) e h k = absurd (omega arith)
chunks-append (suc n) xs e h k =
    rw (take-append_le 32 xs e (omega arith), drop-append_le 32 xs e (omega arith))
      (ap (λ ys. take 32 xs ∷ ys)
        (chunks-append n (drop 32 xs) e (omega (arith, length-drop 32 xs)) k))

length-chunks : (n : ℕ) (xs : List ℕ) → length (chunks n xs) ≡ n
unfolding chunks
length-chunks zero xs = refl
length-chunks (suc n) xs = ap suc (length-chunks n (drop 32 xs))

chunks_full : (n : ℕ) (xs : List ℕ) → n * 32 ≤ length xs → All (λ e. length e ≡ 32) (chunks n xs)
unfolding chunks
chunks_full zero xs h = tt
chunks_full (suc n) xs h = (
  omega (arith, length-take 32 xs),
  chunks_full n (drop 32 xs) (omega (arith, length-drop 32 xs)),
)

pub length-elements : (p : MerklePath) → length (elements p) ≡ p.num_paths
unfolding elements
length-elements p = length-chunks p.num_paths (paths p)

pub elements_full : (p : MerklePath) → IsValid p → All (λ e. length e ≡ 32) (elements p)
unfolding elements paths
elements_full p v =
    chunks_full p.num_paths _ (omega (arith, v.fits, v.full, length-take (p.num_paths * 32) p.buf))

-- What `push_element` makes of a path that has room.
unfoldable pub pushed : MerklePath → List ℕ → MerklePath
pushed p e = record {
  num_paths = p.num_paths + 1;
  buf = overwrite p.buf (p.num_paths * element_size) e;
}

module _ (p : MerklePath) (e : List ℕ) (v : IsValid p) (room : p.num_paths < 32)
    (len : length e ≡ 32) where
  pub push_element-pushed : push_element p e ≡ ok (pushed p e)
  unfolding push_element pushed
  push_element-pushed = rw (lt→ltb _ _ room)

  start_fits : length (take (p.num_paths * 32) p.buf) ≡ p.num_paths * 32
  start_fits = omega (arith, v.full, length-take (p.num_paths * 32) p.buf)

  pub pushed-IsValid : IsValid (pushed p e)
  unfolding pushed overwrite
  pushed-IsValid = record {
    fits = omega arith;
    full = omega (
      arith,
      v.full,
      start_fits,
      length-append (take (p.num_paths * 32) p.buf) (e ++ drop (p.num_paths * 32 + length e) p.buf),
      length-append e (drop (p.num_paths * 32 + length e) p.buf),
      length-drop (p.num_paths * 32 + length e) p.buf,
    );
  }

  pub elements-pushed : elements (pushed p e) ≡ elements p ++ (e ∷ [])
  unfolding pushed overwrite elements paths
  elements-pushed =
      let n : ℕ = p.num_paths in
      let front : List ℕ = take (n * 32) p.buf in
      let back : List ℕ = drop (n * 32 + length e) p.buf in
      let cut : take ((n + 1) * 32) (front ++ (e ++ back)) ≡ front ++ e =
        ap (take ((n + 1) * 32)) (sym (append_assoc front e back))
        ∙ take-append ((n + 1) * 32) (front ++ e) back
            (omega (arith, start_fits, length-append front e)) in
      ap₂ chunks add_one cut ∙ chunks-append n front e start_fits len
    where
      add_one : p.num_paths + 1 ≡ suc p.num_paths
      add_one = omega arith

-- A copied path has the elements of its source.
pub elements-copy_from :
    (p q : MerklePath) → IsValid p → IsValid q → elements (copy_from p q) ≡ elements q
unfolding elements paths copy_from overwrite
elements-copy_from p q v w =
    let n : ℕ = q.num_paths in
    let src : List ℕ = take (n * 32) q.buf in
    ap (chunks n) (
      take-append (n * 32) src (drop (0 + length src) p.buf)
        (omega (arith, w.full, w.fits, length-take (n * 32) q.buf)))

pub copy_from-IsValid : (p q : MerklePath) → IsValid p → IsValid q → IsValid (copy_from p q)
unfolding copy_from overwrite
copy_from-IsValid p q v w = record {
  fits = w.fits;
  full =
      let src : List ℕ = take (q.num_paths * 32) q.buf in
      omega (
        arith,
        length-append src (drop (0 + length src) p.buf),
        length-drop (0 + length src) p.buf,
        length-take (q.num_paths * 32) q.buf,
      );
}

-- On a valid path of less than `max_paths` elements `push_element` does not panic for an element of 32 bytes. The
-- path stays valid, and its elements are those that it had, with the new one behind them.
pub elements-push_element :
    (p : MerklePath) (e : List ℕ)
    → IsValid p
    → p.num_paths < max_paths
    → length e ≡ element_size
    → (q : MerklePath) × (push_element p e ≡ ok q)
      × IsValid q
      × (elements q ≡ elements p ++ (e ∷ []))
elements-push_element p e v room len = (
  pushed p e,
  push_element-pushed p e v room len,
  pushed-IsValid p e v room len,
  elements-pushed p e v room len,
)
