-- ===== src/Protocol/Tags/Path/RoundTrip.antt =====
-- PATH of tags/path.rs through `to_wire` and back through `from_wire_n`.
use roughenough.Prelude.{
  ℕ, zero, suc, ◌*◌, ◌≡◌, subst, List, length, take, arith, length-take, ◌==◌, false,
}
use roughenough.Protocol.Cursor.Reads.{Parses, Parses-pure}
use roughenough.Protocol.Cursor.Writes.{Writes, Writes-pure, Writes-put_slice, Writes-room}
use roughenough.Protocol.Tags.Path.{
  MerklePath, paths, elements, path_wire_size, new_path, overwrite, path_to_wire, path_from_wire_n,
}
use roughenough.Protocol.Tags.Path.Elements.{IsValid}
use roughenough.Protocol.Tags.Path.Wire.{
  read_path, read_path-Parses, elements-read_path, length-overwrite_front,
}

-- The path that is read of the bytes that a path is written as: zeros stand behind the elements.
unfoldable pub reread : MerklePath → MerklePath
unfolding read_path
reread p = read_path p.num_paths (paths p)

pub length-paths : (p : MerklePath) → IsValid p → length (paths p) ≡ path_wire_size p
unfolding paths path_wire_size
length-paths p v = omega (arith, v.fits, v.full, length-take (p.num_paths * 32) p.buf)

pub reread-IsValid : (p : MerklePath) → IsValid p → IsValid (reread p)
unfolding reread path_wire_size
reread-IsValid p v = record {
  fits = v.fits;
  full = length-overwrite_front (paths p) (omega (arith, v.fits, length-paths p v));
}

pub elements-reread : (p : MerklePath) → IsValid p → elements (reread p) ≡ elements p
unfolding reread elements path_wire_size
elements-reread p v = elements-read_path p.num_paths (paths p) (length-paths p v)

reread_count :
    (n : ℕ) (buf rest : List ℕ) (v : IsValid (record { num_paths = n; buf = buf }))
    → Parses
        (path_from_wire_n (length (paths (record { num_paths = n; buf = buf }))))
        (paths (record { num_paths = n; buf = buf }))
        (reread (record { num_paths = n; buf = buf }))
        rest
unfolding reread paths path_from_wire_n new_path overwrite path_wire_size
reread_count zero buf rest v = Parses-pure new_path rest
reread_count (suc n) buf rest v =
    read_path-Parses n (take (suc n * 32) buf) rest (omega (arith, v.fits))
      (unfold paths in length-paths (record { num_paths = suc n; buf = buf }) v)

-- Before the bytes of a path `from_wire_n` gives that path, with zeros behind its elements.
pub path_from_wire_n-Parses :
    (p : MerklePath) (rest : List ℕ)
    → IsValid p
    → Parses (path_from_wire_n (path_wire_size p)) (paths p) (reread p) rest
path_from_wire_n-Parses p rest v =
    subst (λ n. Parses (path_from_wire_n n) (paths p) (reread p) rest) (length-paths p v)
      (reread_count p.num_paths p.buf rest v)

write_count :
    (n : ℕ) (buf : List ℕ) (v : IsValid (record { num_paths = n; buf = buf }))
    → Writes
        (path_to_wire (record { num_paths = n; buf = buf }))
        (paths (record { num_paths = n; buf = buf }))
unfolding path_to_wire paths
write_count zero buf v = Writes-pure
write_count (suc n) buf v =
    let some_bytes : (suc n == 0) ≡ false = ground arith in
    rw (some_bytes, path_to_wire)
      (Writes-room (suc n * 32) _
        (omega (arith, length-paths (record { num_paths = suc n; buf = buf }) v))
        (Writes-put_slice (take (suc n * 32) buf)))

pub path_to_wire-Writes : (p : MerklePath) → IsValid p → Writes (path_to_wire p) (paths p)
path_to_wire-Writes p v = write_count p.num_paths p.buf v
