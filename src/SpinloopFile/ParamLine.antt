-- ===== src/SpinloopFile/ParamLine.antt =====
-- What the parser makes of a PARAM line that Format wrote (internal/spinloop/spinloop.go).
use spinloop.Prelude.{ℕ, ◌≡◌, refl, ◌≢◌, false, [], ◌∷◌, ◌++◌, ◌==◌, All-append}
use spinloop.Prelude.Result.{ok}
use spinloop.Prelude.Text.{Text, codes, trim_left, trim_right, trim, cut_at}
use spinloop.Prelude.Text.Laws.{
  IsWord, Lacks, trim_left-word, trim_left-word_append, trim_right-append, trim_right-word,
  cut_at-append, cut_at-Lacks, trim-word, trim-word_space, trim-space_before, snoc-append,
  contains_code-Lacks, IsWord-Lacks,
}
use spinloop.SpinloopFile.{
  param, Reading, read_line, read_fields, instruction, add_param, cut_or_all, Param, param_text,
  param_text_of,
}
use spinloop.SpinloopFile.Line.{
  IsLower, param-IsName, read_line-instruction, is_nothing-of, append-ne-nil,
}

-- A flag whose key is one token, and whose value is trimmed and on one line.
abbrev pub IsParam : Param → Type 0
IsParam p =
    (p.key ≢ [])
    × IsWord p.key
    × Lacks b'=' p.key
    × Lacks b'#' p.key
    × (trim_left p.value ≡ p.value)
    × (trim_right p.value ≡ p.value)
    × Lacks b'#' p.value
    × Lacks 10 p.value

module _ (k : Text) (filled : k ≢ []) (word : IsWord k) (eq : Lacks b'=' k)
    (hash : Lacks b'#' k) where
  -- The text of a flag is trimmed, and the parser cuts it into the key and the value.
  pub param_text-trimmed :
      (v : Text)
      → trim_right v ≡ v
      → (param_text_of k v ≢ [])
        × (trim_left (param_text_of k v) ≡ param_text_of k v)
        × (trim_right (param_text_of k v) ≡ param_text_of k v)
  param_text-trimmed [] t = (filled, trim_left-word k word, trim_right-word k word)
  param_text-trimmed (c ∷ v) t = (
    append-ne-nil k 32 (codes "= " ++ c ∷ v),
    trim_left-word_append k (codes " = " ++ c ∷ v) filled word,
    trim_right-append k (codes " = " ++ c ∷ v) (cc)
        (trim_right-append (codes " = ") (c ∷ v) (cc) t),
  )

  pub param_text-Lacks :
      (d : ℕ) (v : Text)
      → Lacks d k
      → Lacks d (codes " = ")
      → Lacks d v
      → Lacks d (param_text_of k v)
  param_text-Lacks d [] hash e h = hash
  param_text-Lacks d (c ∷ v) hash e h =
      All-append (λ c. (c == d) ≡ false) k (codes " = " ++ c ∷ v) hash (e.0, (e.1.0, (e.1.1.0, h)))

  cut_at-param_text :
      (v : Text)
      → trim_left v ≡ v
      → trim_right v ≡ v
      → let kv = cut_or_all (param_text_of k v) (cut_at b'=' (param_text_of k v)) in
        (trim kv.0 ≡ k) × (trim kv.1 ≡ v)
  unfolding cut_or_all
  cut_at-param_text [] l t = rw (cut_at-Lacks b'=' k eq) (trim-word k word, trim-word [] tt)
  cut_at-param_text (c ∷ v) l t =
      rw
        (
          ← snoc-append 32 k (codes "= " ++ c ∷ v),
          cut_at-append b'=' (k ++ 32 ∷ []) (32 ∷ c ∷ v)
              (All-append (λ c. (c == b'=') ≡ false) k (32 ∷ []) eq (refl, tt)) refl,
        )
        (trim-word_space k filled word, trim-space_before (c ∷ v) l t)

add_param-lem :
    (n : ℕ) (text : Text) (kv : Text × Text) (p : Param) (r : Reading)
    → p.key ≢ []
    → IsWord p.key
    → trim kv.0 ≡ p.key
    → trim kv.1 ≡ p.value
    → add_param n text kv r
      ≡ ok (record r { sel = record r.sel { params = r.sel.params ++ p ∷ [] } })
unfolding add_param
add_param-lem n text (k, v) p r filled word e e' = rw (
  e,
  e',
  is_nothing-of p.key filled,
  contains_code-Lacks 32 p.key (IsWord-Lacks 32 p.key refl word),
  contains_code-Lacks 9 p.key (IsWord-Lacks 9 p.key refl word),
)

pub read_line-param :
    (lower : ℕ → ℕ) (a : IsLower lower) (n : ℕ) (p : Param) (r : Reading)
    → IsParam p
    → read_line lower n (instruction (codes "PARAM") (param_text p)) r
      ≡ ok (record r { sel = record r.sel { params = r.sel.params ++ p ∷ [] } })
unfolding read_fields trim
read_line-param lower a n p r h =
    let f = param-IsName lower a in
    let t = param_text-trimmed p.key h.0 h.1 h.2 h.3 p.value h.5 in
    let kv = cut_at-param_text p.key h.0 h.1 h.2 h.3 p.value h.4 h.5 in
    rw
      (
        read_line-instruction lower (codes "PARAM") param f (param_text p) t.0 t.2
            (param_text-Lacks p.key h.0 h.1 h.2 h.3 b'#' p.value h.3 (refl, (refl, (refl, tt))) h.6)
            n r,
        f.means,
        f.spaced (param_text p),
        t.1,
        t.2,
      )
      (add_param-lem n (instruction (codes "PARAM") (param_text p)) _ p r h.0 h.1 kv.0 kv.1)
