-- ===== src/SpinloopFile/Line.antt =====
-- What the parser makes of a line that Format wrote (internal/spinloop/spinloop.go).
use spinloop.Prelude.{
  ℕ, ◌+◌, ◌<◌, ◌≡◌, refl, ap, ◌∙◌, ◌≢◌, false, [], ◌∷◌, ◌++◌, map, none, some, arith, leb, ◌==◌,
  ◌&&◌, if◌then◌else◌, length, drop, All, All-append,
}
use spinloop.Prelude.Result.{ok}
use spinloop.Prelude.Text.{
  Text, codes, trim_left, trim_right, trim, fields, contains_code, is_space,
}
use spinloop.Prelude.Text.Laws.{
  IsWord, Lacks, trim_right-word, trim_right-append, fields-word, cut_at-append,
  Lacks-contains_code,
}
use spinloop.SpinloopFile.{
  Keyword, provider, model, alias, context, output, parallel, base_url, preset, Valued, sets, env,
  Instruction, valued, param, canonical_keyword, strip_comment, starts_comment, until_hash,
  cut_after_blank, Reading, read_line, read_fields, upper_name, instruction, pad, set_value,
  seen_at, with_value, EnvVar, env_text, is_nothing,
}

-- unicode.ToLower on the ASCII characters.
abbrev pub ascii_lower : ℕ → ℕ
ascii_lower c = if leb b'A' c && leb c b'Z' then c + 32 else c

abbrev pub IsLower : (ℕ → ℕ) → Type 0
IsLower lower = (c : ℕ) → c < 128 → lower c ≡ ascii_lower c

map-lower :
    (lower : ℕ → ℕ) (s : Text)
    → IsLower lower
    → All (λ c. c < 128) s
    → map lower s ≡ map ascii_lower s
map-lower lower [] a h = refl
map-lower lower (c ∷ s) a h = rw (a c h.0, map-lower lower s a h.1)

starts_comment-Lacks : (s : Text) → Lacks b'#' s → starts_comment s ≡ false
unfolding starts_comment
starts_comment-Lacks [] n = refl
starts_comment-Lacks (c ∷ s) n = ground (arith, n.0, starts_comment-Lacks s n.1)

until_hash-Lacks : (s : Text) → Lacks b'#' s → until_hash s ≡ s
unfolding until_hash
until_hash-Lacks [] n = refl
until_hash-Lacks (c ∷ s) n = rw (n.0, until_hash-Lacks s n.1)

cut_after_blank-Lacks : (s : Text) → Lacks b'#' s → cut_after_blank s ≡ s
unfolding cut_after_blank
cut_after_blank-Lacks [] n = refl
cut_after_blank-Lacks (c ∷ s) n =
    rw (cut_after_blank-Lacks s n.1, n.0, until_hash-Lacks s n.1) (ground arith)

pub strip_comment-Lacks : (s : Text) → Lacks b'#' s → strip_comment s ≡ s
unfolding strip_comment
strip_comment-Lacks s n = rw (starts_comment-Lacks s n, cut_after_blank-Lacks s n)

-- What is so of each of the names that Format writes.
pub record IsName (lower : ℕ → ℕ) (name : Text) (i : Instruction) : Type 0 where
  pub means : canonical_keyword (map lower name) ≡ some i
  pub solid : (v : Text) → trim_left (instruction name v) ≡ instruction name v
  pub reads : (v : Text) → fields (instruction name v) ≡ name ∷ fields v
  pub spaced : (v : Text) → trim_left (drop (length name) (instruction name v)) ≡ trim_left v
  pub no_hash : contains_code b'#' (pad 8 name) ≡ false
  pub one_line : contains_code 10 (pad 8 name) ≡ false

module _ (lower : ℕ → ℕ) (a : IsLower lower) where
  name_lem :
      (name : Text) (i : Instruction)
      → All (λ c. c < 128) name
      → canonical_keyword (map ascii_lower name) ≡ some i
      → ((v : Text) → trim_left (instruction name v) ≡ instruction name v)
      → ((v : Text) → fields (instruction name v) ≡ name ∷ fields v)
      → ((v : Text) → trim_left (drop (length name) (instruction name v)) ≡ trim_left v)
      → contains_code b'#' (pad 8 name) ≡ false
      → contains_code 10 (pad 8 name) ≡ false
      → IsName lower name i
  name_lem name i h e solid reads spaced no_hash one_line = record {
    means = ap canonical_keyword (map-lower lower name a h) ∙ e;
    solid = solid;
    reads = reads;
    spaced = spaced;
    no_hash = no_hash;
    one_line = one_line;
  }

  pub keyword-IsName : (k : Keyword) → IsName lower (upper_name k) (valued (sets k))
  unfolding canonical_keyword trim_left fields
  keyword-IsName provider =
      name_lem _ _ (omega arith) refl (λ v. refl) (λ v. refl) (λ v. refl) refl refl
  keyword-IsName model =
      name_lem _ _ (omega arith) refl (λ v. refl) (λ v. refl) (λ v. refl) refl refl
  keyword-IsName alias =
      name_lem _ _ (omega arith) refl (λ v. refl) (λ v. refl) (λ v. refl) refl refl
  keyword-IsName context =
      name_lem _ _ (omega arith) refl (λ v. refl) (λ v. refl) (λ v. refl) refl refl
  keyword-IsName output =
      name_lem _ _ (omega arith) refl (λ v. refl) (λ v. refl) (λ v. refl) refl refl
  keyword-IsName parallel =
      name_lem _ _ (omega arith) refl (λ v. refl) (λ v. refl) (λ v. refl) refl refl
  keyword-IsName base_url =
      name_lem _ _ (omega arith) refl (λ v. refl) (λ v. refl) (λ v. refl) refl refl
  keyword-IsName preset =
      name_lem _ _ (omega arith) refl (λ v. refl) (λ v. refl) (λ v. refl) refl refl

  pub param-IsName : IsName lower (codes "PARAM") param
  unfolding canonical_keyword trim_left fields
  param-IsName = name_lem _ _ (omega arith) refl (λ v. refl) (λ v. refl) (λ v. refl) refl refl

  pub env-IsName : IsName lower (codes "ENV") (valued env)
  unfolding canonical_keyword trim_left fields
  env-IsName = name_lem _ _ (omega arith) refl (λ v. refl) (λ v. refl) (λ v. refl) refl refl

-- A line of a name and a value whose end is trimmed.
module _ (lower : ℕ → ℕ) (name : Text) (i : Instruction) (f : IsName lower name i) (v : Text)
    (filled : v ≢ []) (trimmed : trim_right v ≡ v) (hash : Lacks b'#' v) where
  pub instruction-Lacks : Lacks b'#' (instruction name v)
  instruction-Lacks =
      All-append (λ c. (c == b'#') ≡ false) (pad 8 name) (32 ∷ v)
        (Lacks-contains_code b'#' (pad 8 name) f.no_hash) (refl, hash)

  pub instruction-end : trim_right (instruction name v) ≡ instruction name v
  instruction-end =
      trim_right-append (pad 8 name) (32 ∷ v) (cc) (trim_right-append (32 ∷ []) v filled trimmed)

  trim-instruction : trim (strip_comment (instruction name v)) ≡ instruction name v
  unfolding trim
  trim-instruction =
      rw (strip_comment-Lacks (instruction name v) instruction-Lacks, f.solid v) instruction-end

  -- The parser takes the line for the name and the fields of the value.
  pub read_line-instruction :
      (n : ℕ) (r : Reading)
      → read_line lower n (instruction name v) r
        ≡ read_fields lower n (instruction name v) (name ∷ fields v) r
  unfolding read_line
  read_line-instruction n r = rw (trim-instruction, f.reads v)

module _ (lower : ℕ → ℕ) (a : IsLower lower) (n : ℕ) (v : Text) (r : Reading) (filled : v ≢ [])
    (word : IsWord v) (hash : Lacks b'#' v) where
  fields_of-word : fields v ≡ v ∷ []
  fields_of-word = go v filled word
    where
      go : (v : Text) → v ≢ [] → IsWord v → fields v ≡ v ∷ []
      go [] f w = absurd (f refl)
      go (c ∷ v) f w = fields-word c v w

  read_line-value :
      (i : Valued) (name : Text)
      → IsName lower name (valued i)
      → read_line lower n (instruction name v) r ≡ with_value n i (v ∷ []) r
  unfolding read_fields
  read_line-value i name f = rw (
    read_line-instruction lower name (valued i) f v filled (trim_right-word v word) hash n r,
    fields_of-word,
    f.means,
  )

  -- A line that Format wrote for a keyword not seen before sets it.
  pub read_line-sets :
      (k : Keyword)
      → seen_at k r.seen ≡ none
      → read_line lower n (instruction (upper_name k) v) r
        ≡ ok (record { sel = set_value k v r.sel; seen = (k, n) ∷ r.seen })
  unfolding with_value
  read_line-sets k fresh =
      rw (read_line-value (sets k) (upper_name k) (keyword-IsName lower a k), fresh)

pub is_nothing-of : (s : Text) → s ≢ [] → is_nothing s ≡ false
is_nothing-of [] n = absurd (n refl)
is_nothing-of (c ∷ s) n = refl

pub append-ne-nil : (s : Text) (c : ℕ) (t : Text) → s ++ c ∷ t ≢ []
append-ne-nil [] c t = λ e. cc
append-ne-nil (d ∷ s) c t = λ e. cc

-- A variable whose line is one token.
abbrev pub IsEnv : EnvVar → Type 0
IsEnv e =
    (e.key ≢ [])
    × IsWord e.key
    × Lacks b'=' e.key
    × Lacks b'#' e.key
    × IsWord e.value
    × Lacks b'#' e.value

pub read_line-env :
    (lower : ℕ → ℕ) (a : IsLower lower) (n : ℕ) (e : EnvVar) (r : Reading)
    → IsEnv e
    → read_line lower n (instruction (codes "ENV") (env_text e)) r
      ≡ ok (record r { sel = record r.sel { env = r.sel.env ++ e ∷ [] } })
unfolding with_value
read_line-env lower a n e r h = rw (
  read_line-value lower a n (env_text e) r (append-ne-nil e.key b'=' e.value)
      (All-append (λ c. is_space c ≡ false) e.key (b'=' ∷ e.value) h.1 (refl, h.4))
      (All-append (λ c. (c == b'#') ≡ false) e.key (b'=' ∷ e.value) h.3 (refl, h.5)) env
      (codes "ENV") (env-IsName lower a),
  cut_at-append b'=' e.key e.value h.2 refl,
  is_nothing-of e.key h.0,
)
