-- ===== src/Prelude/Text.antt =====
-- Text as a list of code points, for the files that the program reads itself, and what it calls of
-- Go's `strings`, `unicode` and `bufio` there.
pub mod Laws
use Prim.Native.Nat.{ℕ, zero, suc, ◌+◌}
use Prim.Native.Char.{code}
use Prim.Native.String.{String}
use mathlib.Core.Bool.{Bool, true, false, ◌&&◌, ◌||◌}
use mathlib.Core.Option.{Option, none, some}
use mathlib.Core.List.{List, [], ◌∷◌}
use spinloop.Prelude.Tests.{ltb, leb, ◌==◌, if◌then◌else◌}

abbrev pub Text : Type 0
Text = List ℕ

-- The code points of a text.
abbrev pub codes : String → Text
codes String.[] = []
codes (String.◌∷◌ c s) = code c ∷ codes s

abbrev pub text_eq : Text → Text → Bool
text_eq [] [] = true
text_eq [] (d ∷ t) = false
text_eq (c ∷ s) [] = false
text_eq (c ∷ s) (d ∷ t) = c == d && text_eq s t

-- unicode.IsSpace
abbrev pub is_space : ℕ → Bool
is_space c =
    if ltb c 256
    then (leb 9 c && leb c 13) || c == 32 || c == 0x85 || c == 0xa0
    else c == 0x1680
      || (leb 0x2000 c && leb c 0x200a)
      || c == 0x2028
      || c == 0x2029
      || c == 0x202f
      || c == 0x205f
      || c == 0x3000

-- The bytes of a text in UTF-8.
abbrev pub width : ℕ → ℕ
width c = if ltb c 0x80 then 1 else if ltb c 0x800 then 2 else if ltb c 0x10000 then 3 else 4

abbrev pub size : Text → ℕ
size [] = 0
size (c ∷ s) = width c + size s

unfoldable pub trim_left : Text → Text
trim_left [] = []
trim_left (c ∷ s) = let rest = trim_left s in if is_space c then rest else c ∷ s

push_back : ℕ → Text → Text
push_back c [] = if is_space c then [] else c ∷ []
push_back c (d ∷ s) = c ∷ d ∷ s

unfoldable pub trim_right : Text → Text
unfolding push_back
trim_right [] = []
trim_right (c ∷ s) = push_back c (trim_right s)

-- strings.TrimSpace
unfoldable pub trim : Text → Text
unfolding trim_left trim_right
trim s = trim_right (trim_left s)

push_word : Text → List Text → List Text
push_word [] ws = ws
push_word (c ∷ w) ws = (c ∷ w) ∷ ws

take_code : ℕ → Text × List Text → Text × List Text
unfolding push_word
take_code c (w, ws) = if is_space c then ([], push_word w ws) else (c ∷ w, ws)

-- The word that a text begins with, and the words behind it.
words_of : Text → Text × List Text
unfolding take_code
words_of [] = ([], [])
words_of (c ∷ s) = take_code c (words_of s)

-- strings.Fields
unfoldable pub fields : Text → List Text
unfolding words_of
fields s = push_word (words_of s).0 (words_of s).1

before : ℕ → Option (Text × Text) → Option (Text × Text)
before c none = none
before c (some (k, v)) = some (c ∷ k, v)

-- strings.Cut at one character: what stands before its first occurrence and behind it.
unfoldable pub cut_at : ℕ → Text → Option (Text × Text)
unfolding before
cut_at sep [] = none
cut_at sep (c ∷ s) = let rest = before c (cut_at sep s) in if c == sep then some ([], s) else rest

abbrev pub contains_code : ℕ → Text → Bool
contains_code c [] = false
contains_code c (d ∷ s) = d == c || contains_code c s

push_code : ℕ → List Text → List Text
push_code c [] = (c ∷ []) ∷ []
push_code c (l ∷ ls) = (c ∷ l) ∷ ls

-- The lines of a text without their newlines; a newline at the end begins no further line.
unfoldable pub pieces : Text → List Text
unfolding push_code
pieces [] = []
pieces (c ∷ s) = let rest = pieces s in if c == 10 then [] ∷ rest else push_code c rest

-- bufio.ScanLines drops one carriage return at the end of a line.
unfoldable pub drop_cr : Text → Text
drop_cr [] = []
drop_cr (c ∷ []) = if c == 13 then [] else c ∷ []
drop_cr (c ∷ d ∷ s) = c ∷ drop_cr (d ∷ s)
