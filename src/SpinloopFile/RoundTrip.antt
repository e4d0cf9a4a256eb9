-- ===== src/SpinloopFile/RoundTrip.antt =====
-- A selection that is written as a file is read back (internal/spinloop/spinloop.go).
use spinloop.Prelude.{ℕ, ◌<◌, ◌≡◌, ◌≢◌, List, [], All}
use spinloop.Prelude.Result.{Result, ◌>>=◌}
use spinloop.Prelude.Text.{Text, codes, pieces, size}
use spinloop.Prelude.Text.Laws.{IsWord, Lacks}
use spinloop.SpinloopFile.{
  env, Keyword, provider, model, alias, context, output, parallel, base_url, preset, Selection,
  read_lines, ParseError, upper_name, instruction, keyword_rank, Param, EnvVar, param_text,
  env_text, with_provider, max_line,
}
use spinloop.SpinloopFile.Line.{IsEnv}
use spinloop.SpinloopFile.ParamLine.{IsParam}

abbrev Below : ℕ → List (Keyword × ℕ) → Type 0
Below j = All (λ e. keyword_rank e.0 < j)

-- From any line on, with the keywords before `j` seen at most, the text gives the result.
abbrev From : (ℕ → ℕ) → ℕ → Text → Selection → Result ParseError Selection → Type 0
From lower j s sel result =
    (n : ℕ) (seen : List (Keyword × ℕ))
    → Below j seen
    → (read_lines lower n (pieces s) (record { sel = sel; seen = seen }) >>= λ r.
        with_provider r.sel)
      ≡ result

-- A value that its line holds as one token, within the scanner's limit.
abbrev pub IsValue : Text → Text → Type 0
IsValue name v = IsWord v × Lacks b'#' v × (size (instruction name v) < max_line)

abbrev pub IsWrittenParam : Param → Type 0
IsWrittenParam p = IsParam p × (size (instruction (codes "PARAM") (param_text p)) < max_line)

abbrev pub IsWrittenEnv : EnvVar → Type 0
IsWrittenEnv e = IsEnv e × (size (instruction (codes "ENV") (env_text e)) < max_line)

-- What Format can write so that a reader finds it again.
pub record IsWritten (s : Selection) : Type 0 where
  pub has_provider : s.provider ≢ []
  pub provider_fits : IsValue (upper_name provider) s.provider
  pub model_fits : IsValue (upper_name model) s.model
  pub alias_fits : IsValue (upper_name alias) s.alias
  pub context_fits : IsValue (upper_name context) s.context
  pub output_fits : IsValue (upper_name output) s.output
  pub parallel_fits : IsValue (upper_name parallel) s.parallel
  pub base_url_fits : IsValue (upper_name base_url) s.base_url
  pub preset_fits : IsValue (upper_name preset) s.preset
  pub params_fit : All IsWrittenParam s.params
  pub env_fits : All IsWrittenEnv s.env
  -- Format writes none of these.
  pub no_providers : s.providers ≡ []
  pub no_display_name : s.display_name ≡ []
  pub no_discovered : s.discovered_models ≡ []

-- The selection that the file gives: the fields that it holds.
written : Selection → Selection
written s = record s { providers = []; display_name = []; discovered_models = [] }
