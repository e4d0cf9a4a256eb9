-- ===== src/Preset/Command.antt =====
-- A command that is printed for a shell (`FormatCommand` of internal/preset/preset.go). A token is
-- the list of its bytes.
pub mod Words
use spinloop.Prelude.{
  ℕ, Bool, true, false, not, List, [], ◌∷◌, ◌++◌, map, any, if◌then◌else◌, leb, ◌==◌, ◌&&◌, ◌||◌,
}

abbrev marks : List ℕ
marks = b'_' ∷ b'@' ∷ b'%' ∷ b'+' ∷ b'=' ∷ b':' ∷ b',' ∷ b'.' ∷ b'/' ∷ b'-' ∷ []

-- The class of `safeArg`.
unfoldable pub is_safe : ℕ → Bool
is_safe c =
    (leb b'A' c && leb c b'Z')
    || ((leb b'a' c && leb c b'z') || ((leb b'0' c && leb c b'9') || any (λ m. c == m) marks))

abbrev pub all_safe : List ℕ → Bool
all_safe [] = true
all_safe (c ∷ s) = is_safe c && all_safe s

abbrev pub is_nil : List ℕ → Bool
is_nil [] = true
is_nil (c ∷ s) = false

-- Each quote is written as a quote that ends the quoted part, an escaped quote, and one that begins
-- the next part.
unfoldable pub escape : List ℕ → List ℕ
escape [] = []
escape (c ∷ s) = let rest = escape s in if c == 39 then 39 ∷ 92 ∷ 39 ∷ 39 ∷ rest else c ∷ rest

unfoldable pub shell_quote : List ℕ → List ℕ
shell_quote s = if not (is_nil s) && all_safe s then s else 39 ∷ (escape s ++ 39 ∷ [])

-- strings.Join(tokens, " ")
unfoldable pub join : List (List ℕ) → List ℕ
join [] = []
join (s ∷ []) = s
join (s ∷ t ∷ tokens) = s ++ 32 ∷ join (t ∷ tokens)

unfoldable pub format_command : List (List ℕ) → List ℕ
format_command argv = join (map shell_quote argv)
