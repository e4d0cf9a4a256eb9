-- ===== src/Prelude/Text/Laws.antt =====
-- Laws of the texts: what has no space is one word, and what ends in no space is trimmed.
use Prim.Native.Nat.{ℕ}
use mathlib.Core.Path.{◌≡◌, refl, ap}
use mathlib.Core.Logic.{◌≢◌, inl, inr}
use mathlib.Core.Bool.{true, false}
use mathlib.Core.Option.{none, some}
use mathlib.Core.List.{[], ◌∷◌, ◌++◌}
use native.Mathlib.Omega.{arith}
use spinloop.Prelude.Tests.{◌==◌, Bool-cases}
use spinloop.Prelude.Lists.{All}
use spinloop.Prelude.Text.{
  Text, is_space, trim_left, push_back, trim_right, words_of, fields, cut_at, contains_code, pieces,
  drop_cr, trim,
}

-- No character is a space.
abbrev pub IsWord : Text → Type 0
IsWord = All (λ c. is_space c ≡ false)

abbrev pub Lacks : ℕ → Text → Type 0
Lacks d = All (λ c. (c == d) ≡ false)

eq_of_test : (c d : ℕ) → (c == d) ≡ true → c ≡ d
eq_of_test c d e = ground arith

pub trim_left-word : (s : Text) → IsWord s → trim_left s ≡ s
unfolding trim_left
trim_left-word [] w = refl
trim_left-word (c ∷ s) w = rw w.0

pub trim_right-word : (s : Text) → IsWord s → trim_right s ≡ s
unfolding trim_right
trim_right-word [] w = refl
trim_right-word (c ∷ []) w = rw w.0
trim_right-word (c ∷ d ∷ s) w = rw (trim_right-word (d ∷ s) w.1)

push_back-mid : (c d : ℕ) (xs s : Text) → push_back c (xs ++ d ∷ s) ≡ c ∷ xs ++ d ∷ s
unfolding push_back
push_back-mid c d [] s = refl
push_back-mid c d (x ∷ xs) s = refl

-- What stands before a trimmed end stays.
pub trim_right-append : (xs s : Text) → s ≢ [] → trim_right s ≡ s → trim_right (xs ++ s) ≡ xs ++ s
unfolding trim_right
trim_right-append xs [] n e = absurd (n refl)
trim_right-append [] (d ∷ s) n e = e
trim_right-append (x ∷ xs) (d ∷ s) n e =
    rw (trim_right-append xs (d ∷ s) n e) (push_back-mid x d xs s)

words_of-word : (s : Text) → IsWord s → words_of s ≡ (s, [])
unfolding words_of
words_of-word [] w = refl
words_of-word (c ∷ s) w = rw (words_of-word s w.1, w.0)

pub fields-word : (c : ℕ) (s : Text) → IsWord (c ∷ s) → fields (c ∷ s) ≡ (c ∷ s) ∷ []
unfolding fields
fields-word c s w = rw (words_of-word s w.1, w.0)

pub cut_at-append :
    (sep : ℕ) (k v : Text)
    → Lacks sep k
    → (sep == sep) ≡ true
    → cut_at sep (k ++ sep ∷ v) ≡ some (k, v)
unfolding cut_at
cut_at-append sep [] v n e = rw e
cut_at-append sep (c ∷ k) v n e = rw (cut_at-append sep k v n.1 e, n.0)

pub cut_at-Lacks : (sep : ℕ) (s : Text) → Lacks sep s → cut_at sep s ≡ none
unfolding cut_at
cut_at-Lacks sep [] n = refl
cut_at-Lacks sep (c ∷ s) n = rw (cut_at-Lacks sep s n.1, n.0)

pub contains_code-Lacks : (d : ℕ) (s : Text) → Lacks d s → contains_code d s ≡ false
contains_code-Lacks d [] n = refl
contains_code-Lacks d (c ∷ s) n = rw (n.0, contains_code-Lacks d s n.1)

-- A line with no newline in it, and its newline, are the first piece of the text that they begin.
pub pieces-line : (l s : Text) → Lacks 10 l → pieces (l ++ 10 ∷ s) ≡ l ∷ pieces s
unfolding pieces
pieces-line [] s n = refl
pieces-line (c ∷ l) s n = rw (pieces-line l s n.1, n.0)

trim_right-rest : (c d : ℕ) (s t : Text) → push_back c t ≡ c ∷ d ∷ s → t ≡ d ∷ s
unfolding push_back
trim_right-rest c d s [] e = ground arith
trim_right-rest c d s (x ∷ t) e = ground arith

-- A carriage return is a space, so a trimmed line ends in none.
pub drop_cr-trimmed : (s : Text) → trim_right s ≡ s → drop_cr s ≡ s
unfolding drop_cr trim_right
drop_cr-trimmed [] e = refl
drop_cr-trimmed (c ∷ []) e = ground arith
drop_cr-trimmed (c ∷ d ∷ s) e =
    rw (drop_cr-trimmed (d ∷ s) (trim_right-rest c d s (trim_right (d ∷ s)) e))

pub Lacks-contains_code : (d : ℕ) (s : Text) → contains_code d s ≡ false → Lacks d s
Lacks-contains_code d [] e = tt
Lacks-contains_code d (c ∷ s) e = (ground arith, Lacks-contains_code d s (ground arith))

pub trim_left-word_append : (s t : Text) → s ≢ [] → IsWord s → trim_left (s ++ t) ≡ s ++ t
unfolding trim_left
trim_left-word_append [] t n w = absurd (n refl)
trim_left-word_append (c ∷ s) t n w = rw w.0

trim_right-word_space : (s : Text) → IsWord s → trim_right (s ++ 32 ∷ []) ≡ s
unfolding trim_right
trim_right-word_space [] w = refl
trim_right-word_space (c ∷ []) w = rw w.0
trim_right-word_space (c ∷ d ∷ s) w = rw (trim_right-word_space (d ∷ s) w.1)

-- A word with a space behind it is trimmed to the word.
pub trim-word_space : (s : Text) → s ≢ [] → IsWord s → trim (s ++ 32 ∷ []) ≡ s
unfolding trim
trim-word_space s n w = rw (trim_left-word_append s (32 ∷ []) n w) (trim_right-word_space s w)

pub trim-space_before : (s : Text) → trim_left s ≡ s → trim_right s ≡ s → trim (32 ∷ s) ≡ s
unfolding trim trim_left
trim-space_before s l r = rw l r

pub trim-word : (s : Text) → IsWord s → trim s ≡ s
unfolding trim
trim-word s w = rw (trim_left-word s w) (trim_right-word s w)

pub snoc-append : (c : ℕ) (s t : Text) → (s ++ c ∷ []) ++ t ≡ s ++ c ∷ t
snoc-append c [] t = refl
snoc-append c (d ∷ s) t = rw (snoc-append c s t)

pub IsWord-Lacks : (d : ℕ) (s : Text) → is_space d ≡ true → IsWord s → Lacks d s
IsWord-Lacks d [] e w = tt
IsWord-Lacks d (c ∷ s) e w = elim (Bool-cases (c == d)) [
  | inl h ↦ cc (ap is_space (eq_of_test c d h), e, w.0)
  | inr h ↦ (h, IsWord-Lacks d s e w.1)
]
