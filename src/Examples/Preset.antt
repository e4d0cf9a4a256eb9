-- ===== src/Examples/Preset.antt =====
-- A small preset, and a command that is printed (internal/preset).
use spinloop.Prelude.{ℕ, String, ◌≡◌, refl, List, [], ◌∷◌, map, some}
use spinloop.Preset.{Param, Preset, Dialect, merge}
use spinloop.Preset.Command.{format_command}
use spinloop.Preset.Shell.{shell_words, is_assignment, is_name_start, is_name_byte}
use spinloop.Preset.Command.Words.{format_command-words}
use spinloop.Preset.Merged.{flatten, first_keys, key_of, param_of, last_of, merge-lem}

abbrev dialect : Dialect
dialect = record { fold = λ s. s; aliases = ("c", "ctx-size") ∷ []; boolean = "mmap" ∷ [] }

abbrev param : String → String → Param
param key value = record { key = key; value = value }

-- The context is given under its short form, and again under its long one.
abbrev layers : List (List Param)
layers = (param "c" "4096" ∷ param "mmap" "1" ∷ []) ∷ (param "ctx-size" "8192" ∷ []) ∷ []

merge-lem_example :
    (map (key_of dialect) (merge dialect layers)
      ≡ first_keys (map (key_of dialect) (flatten layers)) [])
    × ((ck : String)
        → param_of dialect ck (merge dialect layers) ≡ last_of dialect ck (flatten layers))
merge-lem_example = merge-lem dialect layers

abbrev preset : Preset
preset = record {
  global = [];
  sections = record { name = "a"; params = [] } ∷ record { name = "b"; params = [] } ∷ [];
}

-- The tokens `ls`, `it's` and an empty one.
abbrev argv : List (List ℕ)
argv = (108 ∷ 115 ∷ []) ∷ (105 ∷ 116 ∷ 39 ∷ 115 ∷ []) ∷ [] ∷ []

format_command-words_example : shell_words (format_command argv) ≡ some argv
unfolding is_assignment is_name_start is_name_byte
format_command-words_example = format_command-words argv refl
