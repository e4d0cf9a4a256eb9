-- ===== src/Preset/Shell.antt =====
-- What a shell reads as the words of a simple command, by the rules of POSIX (Shell Command Language,
-- 2.2, 2.3 and 2.9.1) and apart from the code that quotes for it. Reserved words and aliases are not
-- told from other words.
use spinloop.Prelude.{
  ℕ, Bool, true, false, not, List, [], ◌∷◌, ◌++◌, Option, none, some, if◌then◌else◌, ◌==◌, any, leb,
  ◌&&◌, ◌||◌,
}

-- The printable bytes that mean something to a shell outside quotes, the space, the quote and the
-- backslash aside: operators, expansions, patterns, comments, tildes, braces, and the rest of those
-- that are to be quoted.
abbrev meaningful : List ℕ
meaningful =
    b'|' ∷ b'&' ∷ b';' ∷ b'<' ∷ b'>' ∷ b'(' ∷ b')' ∷ b'$' ∷ b'`' ∷ 34 ∷ b'*' ∷ b'?' ∷ b'[' ∷ b']'
    ∷ b'#' ∷ b'~' ∷ b'!' ∷ b'{' ∷ b'}' ∷ b'^' ∷ []

-- A byte that stands for itself outside quotes.
unfoldable pub is_plain : ℕ → Bool
is_plain c = leb 33 c && (leb c 126 && not (any (λ m. c == m) meaningful))

unfoldable pub is_name_start : ℕ → Bool
is_name_start c = (leb b'A' c && leb c b'Z') || ((leb b'a' c && leb c b'z') || c == b'_')

unfoldable pub is_name_byte : ℕ → Bool
unfolding is_name_start
is_name_byte c = is_name_start c || (leb b'0' c && leb c b'9')

-- Behind the first byte of a name: it goes on, or an equals sign ends it.
unfoldable pub goes_on : List ℕ → Bool
goes_on [] = false
goes_on (c ∷ s) = let rest = goes_on s in if c == b'=' then true else is_name_byte c && rest

-- The text begins with a name and an equals sign: the shell takes its first word for an assignment.
unfoldable pub is_assignment : List ℕ → Bool
unfolding goes_on
is_assignment [] = false
is_assignment (c ∷ s) = is_name_start c && goes_on s

-- Where a shell stands in its input: between two words, in a word, in a quoted part of one, or
-- behind a backslash.
pub data Mode : Type 0 where
  between in_word quoted escaped : Mode

-- What one byte does: the word that it ends, if any, and where the shell stands behind it, with what
-- it has read of a word.
pub record Step : Type 0 where
  pub ends : List (List ℕ)
  pub mode : Mode
  pub word : List ℕ

-- A byte outside quotes: one that does not stand for itself is refused.
unfoldable pub plain_step : List ℕ → ℕ → Option Step
plain_step word c =
    if c == 39
    then some (record { ends = []; mode = quoted; word = word })
    else if c == 92
    then some (record { ends = []; mode = escaped; word = word })
    else if is_plain c
    then some (record { ends = []; mode = in_word; word = word ++ c ∷ [] })
    else none

unfoldable pub step : Mode → List ℕ → ℕ → Option Step
unfolding plain_step
step between word c =
    if c == 32 then some (record { ends = []; mode = between; word = [] }) else plain_step [] c
step in_word word c =
    if c == 32
    then some (record { ends = word ∷ []; mode = between; word = [] })
    else plain_step word c
step quoted word c =
    if c == 39
    then some (record { ends = []; mode = in_word; word = word })
    else some (record { ends = []; mode = quoted; word = word ++ c ∷ [] })
step escaped word c = some (record { ends = []; mode = in_word; word = word ++ c ∷ [] })

abbrev pub ended : List (List ℕ) → Option (List (List ℕ)) → Option (List (List ℕ))
ended words none = none
ended words (some more) = some (words ++ more)

abbrev pub go_on : Option Step → (Mode → List ℕ → Option (List (List ℕ))) → Option (List (List ℕ))
go_on none next = none
go_on (some st) next = ended st.ends (next st.mode st.word)

-- The words that a shell reads, where every byte outside quotes is plain.
unfoldable pub words : Mode → List ℕ → List ℕ → Option (List (List ℕ))
unfolding step
words between word [] = some []
words in_word word [] = some (word ∷ [])
words quoted word [] = none
words escaped word [] = none
words mode word (c ∷ s) = go_on (step mode word c) (λ m w. words m w s)

-- Nothing where a byte outside quotes does not stand for itself, and where the first word assigns.
unfoldable pub shell_words : List ℕ → Option (List (List ℕ))
unfolding words
shell_words s = if is_assignment s then none else words between [] s
