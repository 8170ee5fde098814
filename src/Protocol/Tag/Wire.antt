-- ===== src/Protocol/Tag/Wire.antt =====
-- The wire form of tag.rs and its inverse.
use roughenough.Prelude.{
  ℕ, ◌<◌, ◌^◌, ◌≡◌, ◌≢◌, refl, sym, ap, ◌∙◌, List, [], ◌∷◌, length, ltb, arith, true, Bool-cases,
  ltb→lt, All, inl, inr,
}
use roughenough.Prelude.Bytes.{to_be_bytes, length-to_be_bytes}
use roughenough.Protocol.Error.{ok, panic}
use roughenough.Protocol.Tag.{
  Tag, invalid, sig, tag_value, wire_value, bytes_eq, arms, match_arms, from_wire, try_from,
}

-- Every tag but INVALID is read back from the word that it is written as.
pub try_from-tag_value : (t : Tag) → t ≢ invalid → try_from (tag_value t) ≡ ok t
unfolding try_from tag_value
try_from-tag_value invalid h = absurd (h refl)
try_from-tag_value sig h = refl
try_from-tag_value _ h = refl

pub tag_value-lt : (t : Tag) → tag_value t < 2 ^ 32
unfolding tag_value
tag_value-lt sig = omega arith
tag_value-lt _ = omega arith

pub bytes_eq→eq : (xs ys : List ℕ) → bytes_eq xs ys ≡ true → xs ≡ ys
unfolding bytes_eq
bytes_eq→eq [] [] h = refl
bytes_eq→eq [] (y ∷ ys) h = cc
bytes_eq→eq (x ∷ xs) [] h = cc
bytes_eq→eq (x ∷ xs) (y ∷ ys) h = ground (arith, bytes_eq→eq xs ys)

-- A literal is the wire form of its tag.
abbrev IsArm : List ℕ × Tag → Type 0
IsArm p = p.0 ≡ wire_value p.1

arms-IsArm : All IsArm arms
unfolding wire_value
arms-IsArm = (
  refl,
  (
    refl,
    (
      refl,
      (
        refl,
        (
          refl,
          (
            refl,
            (
              refl,
              (
                refl,
                (
                  refl,
                  (
                    refl,
                    (refl, (refl, (refl, (refl, (refl, (refl, (refl, (refl, (refl, tt))))))))),
                  ),
                ),
              ),
            ),
          ),
        ),
      ),
    ),
  ),
)

match_arms_sound :
    (bytes : List ℕ) (rest : List (List ℕ × Tag)) (t : Tag)
    → All IsArm rest
    → match_arms bytes rest ≡ ok t
    → bytes ≡ wire_value t
unfolding match_arms
match_arms_sound bytes [] t h e = cc
match_arms_sound bytes ((literal, u) ∷ rest) t (h, hs) e =
    elim (Bool-cases (bytes_eq literal bytes)) [
      | inl hit ↦
          let same : u ≡ t = cc (rw hit at e) in
          sym (bytes_eq→eq literal bytes hit) ∙ h ∙ ap wire_value same
      | inr miss ↦ match_arms_sound bytes rest t hs (rw miss at e)
    ]

-- `from_wire` accepts the wire forms of the tags, INVALID's excepted, and nothing else.
pub from_wire_iff :
    (bytes : List ℕ) (t : Tag)
    → t ≢ invalid
    → (from_wire bytes ≡ ok t → bytes ≡ wire_value t)
      × (bytes ≡ wire_value t → from_wire bytes ≡ ok t)
unfolding from_wire
from_wire_iff bytes t h = (λ e. sound e, λ e. rw e (unfold wire_value in complete t h))
  where
    sound : from_wire bytes ≡ ok t → bytes ≡ wire_value t
    sound e = elim (Bool-cases (ltb (length bytes) 4)) [
      | inl short ↦ cc (rw short at e)
      | inr long ↦ match_arms_sound bytes arms t arms-IsArm (rw long at e)
    ]

    complete : (t : Tag) → t ≢ invalid → from_wire (wire_value t) ≡ ok t
    complete t h = unfold try_from wire_value in try_from-tag_value t h

match_arms-ne-panic : (bytes : List ℕ) (rest : List (List ℕ × Tag)) → match_arms bytes rest ≢ panic
unfolding match_arms
match_arms-ne-panic bytes [] e = cc
match_arms-ne-panic bytes ((literal, u) ∷ rest) e = ground (arith, match_arms-ne-panic bytes rest)

pub try_from-ne-panic : (value : ℕ) → try_from value ≢ panic
unfolding try_from
try_from-ne-panic value e = ground (arith, match_arms-ne-panic (to_be_bytes 4 value) arms)

match_arms-ne-invalid :
    (bytes : List ℕ) (rest : List (List ℕ × Tag))
    → All (λ p. p.1 ≢ invalid) rest
    → match_arms bytes rest ≢ ok invalid
unfolding match_arms
match_arms-ne-invalid bytes [] h e = cc
match_arms-ne-invalid bytes ((literal, u) ∷ rest) h e = elim (Bool-cases (bytes_eq literal bytes)) [
  | inl hit ↦ h.0 (cc (rw hit at e))
  | inr miss ↦ match_arms-ne-invalid bytes rest h.1 (rw miss at e)
]

arms-ne-invalid : All (λ p. p.1 ≢ invalid) arms
arms-ne-invalid = (
  λ e. cc,
  (
    λ e. cc,
    (
      λ e. cc,
      (
        λ e. cc,
        (
          λ e. cc,
          (
            λ e. cc,
            (
              λ e. cc,
              (
                λ e. cc,
                (
                  λ e. cc,
                  (
                    λ e. cc,
                    (
                      λ e. cc,
                      (
                        λ e. cc,
                        (
                          λ e. cc,
                          (λ e. cc, (λ e. cc, (λ e. cc, (λ e. cc, (λ e. cc, (λ e. cc, tt)))))),
                        ),
                      ),
                    ),
                  ),
                ),
              ),
            ),
          ),
        ),
      ),
    ),
  ),
)

-- INVALID is never read.
pub try_from-ne-invalid : (value : ℕ) (t : Tag) → try_from value ≡ ok t → t ≢ invalid
unfolding try_from
try_from-ne-invalid value t e h =
    let e' : try_from value ≡ ok invalid = e ∙ ap ok h in
    elim (Bool-cases (ltb (length (to_be_bytes 4 value)) 4)) [
      | inl short ↦ short_word short
      | inr long ↦ match_arms-ne-invalid (to_be_bytes 4 value) arms arms-ne-invalid (rw long at e')
    ]
  where
    short_word : ltb (length (to_be_bytes 4 value)) 4 ≡ true → ⊥
    short_word short =
        absurd
          (omega (arith, ltb→lt (length (to_be_bytes 4 value)) 4 short, length-to_be_bytes 4 value))

-- What `from_wire` accepts as a tag other than INVALID is the wire form of that tag, and nothing else.
pub wire_value-from_wire :
    (bytes : List ℕ) (t : Tag) → t ≢ invalid → from_wire bytes ≡ ok t → bytes ≡ wire_value t
wire_value-from_wire bytes t h e = (from_wire_iff bytes t h).0 e

-- The tag of a word, and INVALID for a word that is none's.
tag_of : ℕ → Tag
unfolding try_from
tag_of value = elim (try_from value) [ ok t ↦ t | _ ↦ invalid ]

tag_of-tag_value : (t : Tag) → tag_of (tag_value t) ≡ t
unfolding tag_of tag_value
tag_of-tag_value invalid = refl
tag_of-tag_value _ = refl

-- No two tags share a word.
pub tag_value_injective : (a b : Tag) → tag_value a ≡ tag_value b → a ≡ b
tag_value_injective a b e = sym (tag_of-tag_value a) ∙ ap tag_of e ∙ tag_of-tag_value b
