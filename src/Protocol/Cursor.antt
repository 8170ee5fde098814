-- ===== src/Protocol/Cursor.antt =====
-- crates/roughenough-protocol/src/cursor.rs: a position in a byte buffer that is read and written.
-- A method that changes the cursor is a function from the cursor to a result and the cursor after
-- it. On an error the code drops the cursor, so an error carries none.
pub mod Reads
pub mod Writes
pub mod Total
use roughenough.Prelude.{
  ℕ, ◌+◌, ◌-◌, ◌≤◌, Bool, List, ◌++◌, length, take, drop, ltb, leb, if◌then◌else◌,
}
use roughenough.Prelude.Bytes.{to_le_bytes, from_le_bytes, to_be_bytes, from_be_bytes}
use roughenough.Protocol.Error.{Error, Result, ok, err, panic, buffer_too_small}

-- `bytes` is the field `data`.
pub record ParseCursor : Type 0 where
  pub bytes : List ℕ
  pub position : ℕ

abbrev pub Action : Type 0 → Type 0
Action A = ParseCursor → Result (A × ParseCursor)

infixl 5 ◌>>=◌ ◌>>◌
unfoldable pub ◌>>=◌ : {A B : Type 0} → Action A → (A → Action B) → Action B
◌>>=◌ m f c = elim (m c) [ ok (a, c') ↦ f a c' | err e ↦ err e | panic ↦ panic ]

abbrev pub ◌>>◌ : {A B : Type 0} → Action A → Action B → Action B
m >> k = m >>= λ _. k

abbrev pub pure : {A : Type 0} → A → Action A
pure a c = ok (a, c)

abbrev pub fail : {A : Type 0} → Error → Action A
fail e c = err e

-- Fallible code that does not touch the cursor.
abbrev pub lift : {A : Type 0} → Result A → Action A
lift (ok a) c = ok (a, c)
lift (err e) c = err e
lift panic c = panic

-- `if b { return Err(e); }`
abbrev pub refuse_if : Bool → Error → Action Unit
refuse_if b e = if b then fail e else pure tt

unfoldable pub new : List ℕ → ParseCursor
new bytes = record { bytes = bytes; position = 0 }

unfoldable pub remaining : ParseCursor → ℕ
remaining c = length c.bytes - c.position

unfoldable pub has_remaining : ParseCursor → Bool
has_remaining c = ltb c.position (length c.bytes)

unfoldable pub capacity : ParseCursor → ℕ
capacity c = length c.bytes

-- A value that a method without effect gives, such as `cursor.remaining()`.
unfoldable pub gets : {A : Type 0} → (ParseCursor → A) → Action A
gets f c = ok (f c, c)

-- The bytes that are still ahead, none if the position is beyond the end.
unfoldable pub remaining_bytes : ParseCursor → List ℕ
remaining_bytes c = drop c.position c.bytes

-- `&self.data[self.position..]`.
unfoldable pub peek : ParseCursor → Result (List ℕ)
unfolding remaining_bytes
peek c = if ltb (length c.bytes) c.position then panic else ok (remaining_bytes c)

-- What every method that advances does to the position.
unfoldable pub skip : ℕ → ParseCursor → ParseCursor
skip n c = record c { position = c.position + n }

-- `&self.data[self.position..self.position + n]`, and `self.position += n`.
unfoldable pub get_fixed : ℕ → Action (List ℕ)
unfolding skip
get_fixed n c =
    if leb (c.position + n) (length c.bytes)
    then ok (take n (drop c.position c.bytes), skip n c)
    else panic

-- The test of the methods named `try_`.
unfoldable pub checked : {A : Type 0} → ℕ → Action A → Action A
unfolding remaining
checked n m c = if ltb (remaining c) n then err (buffer_too_small n (remaining c)) else m c

unfoldable pub try_get_fixed : ℕ → Action (List ℕ)
unfolding get_fixed checked
try_get_fixed n = checked n (get_fixed n)

-- `copy_to_slice` into a buffer of `n` bytes.
unfoldable pub try_copy_to_slice : ℕ → Action (List ℕ)
unfolding get_fixed checked
try_copy_to_slice n = checked n (get_fixed n)

unfoldable pub get_u32_le : Action ℕ
unfolding ◌>>=◌ get_fixed from_le_bytes
get_u32_le = do bytes ← get_fixed 4; pure (from_le_bytes bytes)

unfoldable pub try_get_u32_le : Action ℕ
unfolding get_u32_le checked
try_get_u32_le = checked 4 get_u32_le

unfoldable pub get_u32 : Action ℕ
unfolding ◌>>=◌ get_fixed from_be_bytes
get_u32 = do bytes ← get_fixed 4; pure (from_be_bytes bytes)

unfoldable pub try_get_u32 : Action ℕ
unfolding get_u32 checked
try_get_u32 = checked 4 get_u32

unfoldable pub get_u64_le : Action ℕ
unfolding ◌>>=◌ get_fixed from_le_bytes
get_u64_le = do bytes ← get_fixed 8; pure (from_le_bytes bytes)

unfoldable pub try_get_u64_le : Action ℕ
unfolding get_u64_le checked
try_get_u64_le = checked 8 get_u64_le

unfoldable pub get_u64 : Action ℕ
unfolding ◌>>=◌ get_fixed from_be_bytes
get_u64 = do bytes ← get_fixed 8; pure (from_be_bytes bytes)

unfoldable pub try_get_u64 : Action ℕ
unfolding get_u64 checked
try_get_u64 = checked 8 get_u64

-- The buffer with `src` from the position on, and the position behind it.
unfoldable pub written : List ℕ → ParseCursor → ParseCursor
written src c = record {
  bytes = take c.position c.bytes ++ (src ++ drop (c.position + length src) c.bytes);
  position = c.position + length src;
}

-- `self.data[self.position..self.position + src.len()].copy_from_slice(src)`
unfoldable pub put_slice : List ℕ → Action Unit
unfolding written
put_slice src c =
    if leb (c.position + length src) (length c.bytes) then ok (tt, written src c) else panic

unfoldable pub try_put_slice : List ℕ → Action Unit
unfolding put_slice checked
try_put_slice src = checked (length src) (put_slice src)

unfoldable pub try_put_fixed : List ℕ → Action Unit
unfolding put_slice checked
try_put_fixed src = checked (length src) (put_slice src)

unfoldable pub put_u32_le : ℕ → Action Unit
unfolding put_slice to_le_bytes
put_u32_le value = put_slice (to_le_bytes 4 value)

unfoldable pub try_put_u32_le : ℕ → Action Unit
unfolding put_u32_le checked
try_put_u32_le value = checked 4 (put_u32_le value)

unfoldable pub put_u64_le : ℕ → Action Unit
unfolding put_slice to_le_bytes
put_u64_le value = put_slice (to_le_bytes 8 value)

unfoldable pub put_u64 : ℕ → Action Unit
unfolding put_slice to_be_bytes
put_u64 value = put_slice (to_be_bytes 8 value)

unfoldable pub try_put_u64_le : ℕ → Action Unit
unfolding put_u64_le checked
try_put_u64_le value = checked 8 (put_u64_le value)

unfoldable pub try_put_u64 : ℕ → Action Unit
unfolding put_u64 checked
try_put_u64 value = checked 8 (put_u64 value)

unfoldable pub advance : ℕ → Action Unit
unfolding checked skip
advance n = checked n (λ c. ok (tt, skip n c))

unfoldable pub set_position : ℕ → ParseCursor → ParseCursor
set_position pos c = record c { position = pos }

unfoldable pub reset : ParseCursor → ParseCursor
reset c = record c { position = 0 }

-- A change of the cursor alone.
unfoldable pub update : (ParseCursor → ParseCursor) → Action Unit
update f c = ok (tt, f c)
