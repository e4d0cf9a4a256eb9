-- ===== src/SpinloopFile.antt =====
-- The Spinloop file (internal/spinloop/spinloop.go): the selection of a provider and a model, its
-- text, and the parser. A text is its code points. What unicode.ToLower makes of a character is an
-- argument; of ToUpper, which the messages use, nothing is kept.
pub mod Line
pub mod ParamLine
pub mod RoundTrip
pub mod Hash
use spinloop.Prelude.{
  ℕ, zero, suc, ◌+◌, ◌-◌, Bool, true, false, List, [], ◌∷◌, ◌++◌, map, Option, none, some, ltb, leb,
  ◌==◌, ◌||◌, if◌then◌else◌, length, drop,
}
use spinloop.Prelude.Result.{Result, ok, err, ◌>>=◌}
use spinloop.Prelude.Text.{
  Text, codes, text_eq, trim, fields, cut_at, contains_code, pieces, drop_cr, size,
}

pub record EnvVar : Type 0 where
  pub key : Text
  pub value : Text

pub record Param : Type 0 where
  pub key : Text
  pub value : Text

pub record Selection : Type 0 where
  pub provider : Text
  pub model : Text
  pub alias : Text
  pub context : Text
  pub output : Text
  pub providers : Text
  pub base_url : Text
  pub preset : Text
  pub parallel : Text
  pub display_name : Text
  pub env : List EnvVar
  pub params : List Param
  pub discovered_models : List Text

-- Selection{}
abbrev pub nothing : Selection
nothing = record {
  provider = [];
  model = [];
  alias = [];
  context = [];
  output = [];
  providers = [];
  base_url = [];
  preset = [];
  parallel = [];
  display_name = [];
  env = [];
  params = [];
  discovered_models = [];
}

-- The instructions that set one value.
pub data Keyword : Type 0 where
  provider model alias context output parallel base_url preset : Keyword

-- What takes a single token, and the one instruction that takes the rest of its line.
pub data Valued : Type 0 where
  sets : Keyword → Valued
  env : Valued

pub data Instruction : Type 0 where
  valued : Valued → Instruction
  param : Instruction

-- A keyword's place among the eight, by which two are compared.
abbrev pub keyword_rank : Keyword → ℕ
keyword_rank provider = 0
keyword_rank model = 1
keyword_rank alias = 2
keyword_rank context = 3
keyword_rank output = 4
keyword_rank parallel = 5
keyword_rank base_url = 6
keyword_rank preset = 7

-- canonicalKeyword
unfoldable pub canonical_keyword : Text → Option Instruction
canonical_keyword kw =
    if text_eq kw (codes "provider")
    then some (valued (sets provider))
    else if text_eq kw (codes "model")
    then some (valued (sets model))
    else if text_eq kw (codes "alias")
    then some (valued (sets alias))
    else if text_eq kw (codes "context")
    then some (valued (sets context))
    else if text_eq kw (codes "output")
    then some (valued (sets output))
    else if text_eq kw (codes "parallel")
    then some (valued (sets parallel))
    else if text_eq kw (codes "preset")
    then some (valued (sets preset))
    else if text_eq kw (codes "param")
    then some param
    else if text_eq kw (codes "env")
    then some (valued env)
    else if text_eq kw (codes "baseurl")
        || text_eq kw (codes "base-url")
        || text_eq kw (codes "base_url")
        || text_eq kw (codes "url")
    then some (valued (sets base_url))
    else none

pub data ParseError : Type 0 where
  -- Of the scanner, for a line of 64 KB or more.
  too_long : ParseError
  removed : ℕ → ParseError
  unknown_keyword : ℕ → Text → ParseError
  bad_param : ℕ → Text → ParseError
  needs_value : ℕ → Valued → ParseError
  single_value : ℕ → Valued → ℕ → ParseError
  bad_env : ℕ → Text → ParseError
  duplicate : ℕ → Keyword → ℕ → ParseError
  no_provider : ParseError

abbrev is_blank : ℕ → Bool
is_blank c = c == 32 || c == 9

-- strings.TrimLeft(s, " \t"), and whether a `#` comes first then.
starts_comment : Text → Bool
starts_comment [] = false
starts_comment (c ∷ s) = let rest = starts_comment s in if is_blank c then rest else c == b'#'

-- s[:j] for the first `#`, if there is one.
until_hash : Text → Text
until_hash [] = []
until_hash (c ∷ s) = let rest = until_hash s in if c == b'#' then [] else c ∷ rest

-- From the first blank on, the text ends at the first `#`.
cut_after_blank : Text → Text
unfolding until_hash
cut_after_blank [] = []
cut_after_blank (c ∷ s) =
    let rest = cut_after_blank s in if is_blank c then until_hash (c ∷ s) else c ∷ rest

unfoldable pub strip_comment : Text → Text
unfolding starts_comment cut_after_blank
strip_comment s = if starts_comment s then [] else cut_after_blank s

-- What the loop of `Parse` keeps: the selection, and the line at which each keyword first stood.
pub record Reading : Type 0 where
  pub sel : Selection
  pub seen : List (Keyword × ℕ)

abbrev pub seen_at : Keyword → List (Keyword × ℕ) → Option ℕ
seen_at k [] = none
seen_at k ((j, n) ∷ seen) = if keyword_rank j == keyword_rank k then some n else seen_at k seen

abbrev pub set_value : Keyword → Text → Selection → Selection
set_value provider v s = record s { provider = v }
set_value model v s = record s { model = v }
set_value alias v s = record s { alias = v }
set_value context v s = record s { context = v }
set_value output v s = record s { output = v }
set_value parallel v s = record s { parallel = v }
set_value base_url v s = record s { base_url = v }
set_value preset v s = record s { preset = v }

set_once : ℕ → Keyword → Text → Reading → Option ℕ → Result ParseError Reading
set_once line k v r (some prev) = err (duplicate line k prev)
set_once line k v r none = ok (record { sel = set_value k v r.sel; seen = (k, line) ∷ r.seen })

-- strings.Cut: the whole text, and nothing behind it, where there is no separator.
unfoldable pub cut_or_all : Text → Option (Text × Text) → Text × Text
cut_or_all s none = (s, [])
cut_or_all s (some kv) = kv

abbrev pub is_nothing : Text → Bool
is_nothing [] = true
is_nothing (c ∷ s) = false

unfoldable pub add_param : ℕ → Text → Text × Text → Reading → Result ParseError Reading
add_param line text (k, v) r =
    if is_nothing (trim k) || contains_code 32 (trim k) || contains_code 9 (trim k)
    then err (bad_param line text)
    else ok (record r {
      sel = record r.sel { params = r.sel.params ++ record { key = trim k; value = trim v } ∷ [] };
    })

add_env : ℕ → Text → Option (Text × Text) → Reading → Result ParseError Reading
add_env line value none r = err (bad_env line value)
add_env line value (some (k, v)) r =
    if is_nothing k
    then err (bad_env line value)
    else ok
        (record r { sel = record r.sel { env = r.sel.env ++ record { key = k; value = v } ∷ [] } })

-- The instructions that take one value, given the fields behind the keyword.
with_value : ℕ → Valued → List Text → Reading → Result ParseError Reading
unfolding set_once add_env
with_value line i [] r = err (needs_value line i)
with_value line i (v ∷ w ∷ ws) r = err (single_value line i (length (v ∷ w ∷ ws)))
with_value line (sets k) (v ∷ []) r = set_once line k v r (seen_at k r.seen)
with_value line env (v ∷ []) r = add_env line v (cut_at b'=' v) r

-- What an instruction does, or why there is none; `w` is the first field, and `kw` the same in lower
-- case.
carry_out :
    ℕ → Text → Text → Text → List Text → Option Instruction → Reading → Result ParseError Reading
unfolding with_value
carry_out line text w kw ws none r =
    if text_eq kw (codes "remote") then err (removed line) else err (unknown_keyword line w)
carry_out line text w kw ws (some param) r =
    let rest = trim (drop (length w) text) in
    add_param line text (cut_or_all rest (cut_at b'=' rest)) r
carry_out line text w kw ws (some (valued i)) r = with_value line i ws r

-- The line's trimmed text, with its fields. A trimmed text has no field exactly where it is empty.
unfoldable pub read_fields : (ℕ → ℕ) → ℕ → Text → List Text → Reading → Result ParseError Reading
unfolding carry_out
read_fields lower line text [] r = ok r
read_fields lower line text (w ∷ ws) r =
    carry_out line text w (map lower w) ws (canonical_keyword (map lower w)) r

-- One turn of the loop of `Parse`.
unfoldable pub read_line : (ℕ → ℕ) → ℕ → Text → Reading → Result ParseError Reading
unfolding read_fields strip_comment
read_line lower line l r =
    let text = trim (strip_comment l) in read_fields lower line text (fields text) r

-- bufio.MaxScanTokenSize
abbrev pub max_line : ℕ
max_line = 65536

unfoldable pub read_lines : (ℕ → ℕ) → ℕ → List Text → Reading → Result ParseError Reading
unfolding read_line
read_lines lower line [] r = ok r
read_lines lower line (l ∷ ls) r =
    let rest = λ (r' : Reading). read_lines lower (suc line) ls r' in
    if leb max_line (size l) then err too_long else read_line lower line (drop_cr l) r >>= rest

with_provider : Selection → Result ParseError Selection
with_provider sel = if is_nothing sel.provider then err no_provider else ok sel

unfoldable pub parse : (ℕ → ℕ) → Text → Result ParseError Selection
unfolding read_lines with_provider
parse lower s =
    read_lines lower 1 (pieces s) (record { sel = nothing; seen = [] }) >>= λ r. with_provider r.sel

-- %-8s
abbrev pad : ℕ → Text → Text
pad zero s = s
pad (suc n) [] = 32 ∷ pad n []
pad (suc n) (c ∷ s) = c ∷ pad n s

abbrev pub upper_name : Keyword → Text
upper_name provider = codes "PROVIDER"
upper_name model = codes "MODEL"
upper_name alias = codes "ALIAS"
upper_name context = codes "CONTEXT"
upper_name output = codes "OUTPUT"
upper_name parallel = codes "PARALLEL"
upper_name base_url = codes "BASEURL"
upper_name preset = codes "PRESET"

abbrev pub instruction : Text → Text → Text
instruction name value = pad 8 name ++ 32 ∷ value

-- The closure `line` of `Format`: nothing for an empty value.
abbrev pub line : Text → Text → Text
line name [] = []
line name (c ∷ v) = instruction name (c ∷ v) ++ 10 ∷ []

abbrev pub param_text_of : Text → Text → Text
param_text_of k [] = k
param_text_of k (c ∷ v) = k ++ (codes " = " ++ c ∷ v)

abbrev pub param_text : Param → Text
param_text p = param_text_of p.key p.value

abbrev pub env_text : EnvVar → Text
env_text e = e.key ++ b'=' ∷ e.value

abbrev pub param_lines : List Param → Text
param_lines [] = []
param_lines (p ∷ ps) = line (codes "PARAM") (param_text p) ++ param_lines ps

abbrev pub env_lines : List EnvVar → Text
env_lines [] = []
env_lines (e ∷ es) = line (codes "ENV") (env_text e) ++ env_lines es

unfoldable pub format : Selection → Text
format s =
    line (upper_name provider) s.provider
    ++ (line (upper_name model) s.model
        ++ (line (upper_name alias) s.alias
            ++ (line (upper_name context) s.context
                ++ (line (upper_name output) s.output
                    ++ (line (upper_name parallel) s.parallel
                        ++ (line (upper_name base_url) s.base_url
                            ++ (line (upper_name preset) s.preset
                                ++ (param_lines s.params ++ env_lines s.env))))))))
