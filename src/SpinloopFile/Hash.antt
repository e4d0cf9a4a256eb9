-- ===== src/SpinloopFile/Hash.antt =====
-- What becomes of a `#` inside a value (stripComment of internal/spinloop/spinloop.go).
use spinloop.Prelude.{ℕ, ◌≡◌, refl, ◌≢◌, [], ◌∷◌, ◌++◌, none}
use spinloop.Prelude.Result.{ok}
use spinloop.Prelude.Text.{Text}
use spinloop.Prelude.Text.Laws.{IsWord, Lacks, trim_right-word}
use spinloop.SpinloopFile.{
  Keyword, provider, model, alias, context, output, parallel, base_url, preset, Reading, read_line,
  upper_name, instruction, set_value, seen_at, strip_comment, until_hash,
}
use spinloop.SpinloopFile.Line.{
  IsLower, read_line-sets, strip_comment-Lacks, keyword-IsName, instruction-Lacks,
}

until_hash-append : (p q : Text) → Lacks b'#' p → until_hash (p ++ b'#' ∷ q) ≡ p
unfolding until_hash
until_hash-append [] q h = refl
until_hash-append (c ∷ p) q h = rw (h.0, until_hash-append p q h.1)

strip_comment-instruction :
    (k : Keyword) (p q : Text)
    → Lacks b'#' p
    → strip_comment (instruction (upper_name k) (p ++ b'#' ∷ q)) ≡ instruction (upper_name k) p
unfolding strip_comment
strip_comment-instruction provider p q h = rw (until_hash-append p q h)
strip_comment-instruction model p q h = rw (until_hash-append p q h)
strip_comment-instruction alias p q h = rw (until_hash-append p q h)
strip_comment-instruction context p q h = rw (until_hash-append p q h)
strip_comment-instruction output p q h = rw (until_hash-append p q h)
strip_comment-instruction parallel p q h = rw (until_hash-append p q h)
strip_comment-instruction base_url p q h = rw (until_hash-append p q h)
strip_comment-instruction preset p q h = rw (until_hash-append p q h)

-- The line that Format writes for a value with a `#` in it, whatever stands before the `#`, sets the
-- keyword to the part before it: a token with no space, where the keyword was not seen before.
pub read_line-hash :
    (lower : ℕ → ℕ) (n : ℕ) (k : Keyword) (p q : Text) (r : Reading)
    → IsLower lower
    → p ≢ []
    → IsWord p
    → Lacks b'#' p
    → seen_at k r.seen ≡ none
    → read_line lower n (instruction (upper_name k) (p ++ b'#' ∷ q)) r
      ≡ ok (record { sel = set_value k p r.sel; seen = (k, n) ∷ r.seen })
unfolding read_line
read_line-hash lower n k p q r a f w h fresh =
    let f' = keyword-IsName lower a k in
    rw (strip_comment-instruction k p q h) (
      rw
        (strip_comment-Lacks (instruction (upper_name k) p)
          (instruction-Lacks lower (upper_name k) _ f' p f (trim_right-word p w) h))
        at (read_line-sets lower a n p r f w h k fresh))
