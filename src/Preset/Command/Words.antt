-- ===== src/Preset/Command/Words.antt =====
-- A shell reads the printed command as the tokens that it was made of.
use mathlib.Core.List.{append_assoc, append-nil}
use spinloop.Prelude.{
  ℕ, true, false, ◌≡◌, refl, ap, sym, ◌∙◌, List, [], ◌∷◌, ◌++◌, Option, none, some, ◌==◌, arith,
  map, Bool-cases, inl, inr,
}
use spinloop.Preset.Shell.{
  quoted, in_word, between, ended, words, step, plain_step, shell_words, is_plain, is_assignment,
  goes_on, is_name_start, is_name_byte,
}
use spinloop.Preset.Command.{is_safe, all_safe, escape, shell_quote, join, format_command}

-- A word that ends nothing leaves the words as they are.
ended_none : (o : Option (List (List ℕ))) → ended [] o ≡ o
ended_none none = refl
ended_none (some more) = refl

quoted-escape :
    (s word rest : List ℕ)
    → words quoted word (escape s ++ 39 ∷ rest) ≡ words in_word (word ++ s) rest
unfolding words escape step plain_step
quoted-escape [] word rest =
    ended_none (words in_word word rest) ∙ ap (λ w. words in_word w rest) (sym (append-nil word))
quoted-escape (c ∷ s) word rest =
    let next =
      quoted-escape s (word ++ c ∷ []) rest
      ∙ ap (λ w. words in_word w rest) (append_assoc word (c ∷ []) s) in
    elim (Bool-cases (c == 39)) [
      | inl e ↦
          (let q : 39 ≡ c = ground arith in
            rw e (
              ended_none _
              ∙ ended_none _
              ∙ ended_none _
              ∙ ended_none _
              ∙ ap (λ d. words quoted (word ++ d ∷ []) (escape s ++ 39 ∷ rest)) q
              ∙ next))
      | inr e ↦ rw (e, e) (ended_none _ ∙ next)
    ]

-- A safe byte is no space, no quote and no backslash, and it stands for itself.
is_safe-is_plain :
    (c : ℕ)
    → is_safe c ≡ true
    → ((c == 32) ≡ false) × ((c == 39) ≡ false) × ((c == 92) ≡ false) × (is_plain c ≡ true)
unfolding is_safe is_plain
is_safe-is_plain c h = ground arith

plain_step-lem :
    (c : ℕ) (word : List ℕ)
    → is_safe c ≡ true
    → plain_step word c ≡ some (record { ends = []; mode = in_word; word = word ++ c ∷ [] })
unfolding plain_step
plain_step-lem c word h = let (p, q, r, n) = is_safe-is_plain c h in rw (q, r, n) refl

-- A token that is written whole.
safe-words :
    (s word rest : List ℕ)
    → all_safe s ≡ true
    → words in_word word (s ++ rest) ≡ words in_word (word ++ s) rest
unfolding words step
safe-words [] word rest h = ap (λ w. words in_word w rest) (sym (append-nil word))
safe-words (c ∷ s) word rest h =
    let safe : is_safe c ≡ true = ground arith in
    let more : all_safe s ≡ true = ground arith in
    let (p, q, r, n) = is_safe-is_plain c safe in
    rw (p, plain_step-lem c word safe)
      (ended_none _
        ∙ safe-words s (word ++ c ∷ []) rest more
        ∙ ap (λ w. words in_word w rest) (append_assoc word (c ∷ []) s))

-- A printed token, between two words.
shell_quote-words :
    (s rest : List ℕ) → words between [] (shell_quote s ++ rest) ≡ words in_word s rest
unfolding shell_quote words step plain_step escape
shell_quote-words [] rest = ended_none _ ∙ ended_none _
shell_quote-words (c ∷ s) rest = elim (Bool-cases (all_safe (c ∷ s))) [
  | inl e ↦
      let safe : is_safe c ≡ true = ground arith in
      let more : all_safe s ≡ true = ground arith in
      let (p, q, r, n) = is_safe-is_plain c safe in
      rw (safe, more, p, q, r, n) (ended_none _ ∙ safe-words s (c ∷ []) rest more)
  | inr e ↦ rw e (
      ended_none _
      ∙ ap (λ l. words quoted [] l) (append_assoc (escape (c ∷ s)) (39 ∷ []) rest)
      ∙ quoted-escape (c ∷ s) [] rest)
]

words-join : (argv : List (List ℕ)) → words between [] (join (map shell_quote argv)) ≡ some argv
unfolding join words step
words-join [] = refl
words-join (s ∷ []) =
    ap (λ l. words between [] l) (sym (append-nil (shell_quote s))) ∙ shell_quote-words s []
words-join (s ∷ t ∷ argv) =
    shell_quote-words s (32 ∷ join (map shell_quote (t ∷ argv)))
    ∙ ap (ended (s ∷ [])) (words-join (t ∷ argv))

-- What may stand behind a printed token.
abbrev Behind : List ℕ → Type 0
Behind [] = Unit {0}
Behind (c ∷ s) = c ≡ 32

goes_on-append : (s rest : List ℕ) → Behind rest → goes_on (s ++ rest) ≡ goes_on s
unfolding goes_on is_name_byte is_name_start
goes_on-append [] [] h = refl
goes_on-append [] (c ∷ rest) h = ground arith
goes_on-append (c ∷ s) rest h = ground (arith, goes_on-append s rest h)

-- A printed token assigns only where the token is an assignment.
is_assignment-shell_quote :
    (s rest : List ℕ)
    → Behind rest
    → is_assignment s ≡ false
    → is_assignment (shell_quote s ++ rest) ≡ false
unfolding is_assignment is_name_start shell_quote
is_assignment-shell_quote [] rest b h = refl
is_assignment-shell_quote (c ∷ s) rest b h = elim (Bool-cases (all_safe (c ∷ s))) [
  | inl e ↦ rw e (ground (arith, goes_on-append s rest b))
  | inr e ↦ rw e refl
]

abbrev pub head_of : List (List ℕ) → List ℕ
head_of [] = []
head_of (s ∷ argv) = s

is_assignment-join :
    (argv : List (List ℕ))
    → is_assignment (head_of argv) ≡ false
    → is_assignment (join (map shell_quote argv)) ≡ false
unfolding join is_assignment
is_assignment-join [] h = refl
is_assignment-join (s ∷ []) h =
    ap is_assignment (sym (append-nil (shell_quote s))) ∙ is_assignment-shell_quote s [] tt h
is_assignment-join (s ∷ t ∷ argv) h = is_assignment-shell_quote s _ refl h

-- A printed command whose first token does not look like an assignment is read by a shell as its
-- tokens, whatever bytes they hold.
pub format_command-words :
    (argv : List (List ℕ))
    → is_assignment (head_of argv) ≡ false
    → shell_words (format_command argv) ≡ some argv
unfolding shell_words format_command
format_command-words argv h = rw (is_assignment-join argv h) (words-join argv)
