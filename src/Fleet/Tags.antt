-- ===== src/Fleet/Tags.antt =====
-- Tags, `key=value` (internal/fleet/config.go), and the texts that the program compares.
use spinloop.Prelude.{
  String, Char, code, Bool, true, false, ◌≡◌, refl, ap, List, ◌∷◌, ◌++◌, Option, none, some, ◌==◌,
  if◌then◌else◌, arith, str_eq, ◌||◌, any, inl, inr, ◌⊎◌, Bool-cases,
}
use spinloop.Prelude.Text.{codes}

-- s == ""
abbrev pub is_empty : String → Bool
is_empty String.[] = true
is_empty (String.◌∷◌ c s) = false

-- A longer first part.
under_key : Char → Option (String × String) → Option (String × String)
under_key c none = none
under_key c (some (k, v)) = some (String.◌∷◌ c k, v)

-- The text before the first `=`, and the text behind it.
cut : String → Option (String × String)
unfolding under_key
cut String.[] = none
cut (String.◌∷◌ c s) =
    let rest = under_key c (cut s) in if code c == b'=' then some (String.[], s) else rest

tag_of : Option (String × String) → String × String × Bool
tag_of none = (String.[], String.[], false)
tag_of (some (k, v)) =
    if is_empty k || is_empty v then (String.[], String.[], false) else (k, v, true)

-- The three results of `SplitTag`: the key, the value, and whether the text is a tag.
unfoldable pub split_tag : String → String × String × Bool
unfolding cut tag_of
split_tag s = tag_of (cut s)

abbrev pub key_of : String → String
key_of tag = (split_tag tag).0

abbrev pub is_tag : String → Bool
is_tag tag = (split_tag tag).2

abbrev pub contains : String → List String → Bool
contains k xs = any (λ x. str_eq x k) xs

-- Nothing in the text is a `=`.
abbrev pub NoEquals : String → Type 0
NoEquals String.[] = Unit {0}
NoEquals (String.◌∷◌ c s) = ((code c == b'=') ≡ false) × NoEquals s

abbrev CutOf : String → Option (String × String) → Type 0
CutOf s none = NoEquals s
CutOf s (some (k, v)) = (codes s ≡ codes k ++ b'=' ∷ codes v) × NoEquals k

under_key-CutOf :
    (c : Char) (s : String) (o : Option (String × String))
    → (code c == b'=') ≡ false
    → CutOf s o
    → CutOf (String.◌∷◌ c s) (under_key c o)
unfolding under_key
under_key-CutOf c s none e h = (e, h)
under_key-CutOf c s (some (k, v)) e h = (ap (◌∷◌ (code c)) h.0, (e, h.1))

cut-CutOf : (s : String) → CutOf s (cut s)
unfolding cut
cut-CutOf String.[] = tt
cut-CutOf (String.◌∷◌ c s) = elim (Bool-cases (code c == b'=')) [
  | inl e ↦ rw e (ground arith, tt)
  | inr e ↦ rw e (under_key-CutOf c s (cut s) e (cut-CutOf s))
]

-- The verdict, as one type for each of its outcomes.
abbrev pub TagOf : String → String × String × Bool → Type 0
TagOf s (k, v, true) =
    (codes s ≡ codes k ++ b'=' ∷ codes v) × NoEquals k × (is_empty k ≡ false) × (is_empty v ≡ false)
TagOf s (k, v, false) =
    (is_empty k ≡ true)
    × (is_empty v ≡ true)
    × (NoEquals s
        ⊎ ((j : String) × (w : String) × (codes s ≡ codes j ++ b'=' ∷ codes w)
            × NoEquals j
            × ((is_empty j || is_empty w) ≡ true)))

tag_of-TagOf : (s : String) (o : Option (String × String)) → CutOf s o → TagOf s (tag_of o)
unfolding tag_of
tag_of-TagOf s none h = (refl, refl, inl h)
tag_of-TagOf s (some (String.[], v)) h = (refl, refl, inr (String.[], v, h.0, h.1, refl))
tag_of-TagOf s (some (String.◌∷◌ c k, String.[])) h =
    (refl, refl, inr (String.◌∷◌ c k, String.[], h.0, h.1, refl))
tag_of-TagOf s (some (String.◌∷◌ c k, String.◌∷◌ d v)) h = (h.0, h.1, refl, refl)

-- A text that is taken for a tag is its key, the first `=` and its value, neither side empty. A
-- text that is refused, with two empty results, has no `=`, or its first `=` has nothing on one of
-- its sides.
pub split_tag-TagOf : (s : String) → TagOf s (split_tag s)
unfolding split_tag
split_tag-TagOf s = tag_of-TagOf s (cut s) (cut-CutOf s)
