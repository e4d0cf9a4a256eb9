-- ===== src/Preset.antt =====
-- The preset of an engine's flags (internal/preset/preset.go). What strings.ToLower and
-- strings.TrimSpace make of a key is an argument: they read tables of Unicode.
pub mod Command
pub mod Shell
pub mod Merged
pub mod Selected
use Prim.Native.String.{◌++◌ as ◌++ₛ◌, len}
use spinloop.Prelude.{
  ℕ, zero, suc, ◌+◌, String, Bool, true, false, not, List, [], ◌∷◌, ◌++◌, map, Option, none, some,
  if◌then◌else◌, str_eq, length, ◌==◌,
}
use spinloop.Prelude.Map.{Map, lookup, put}
use spinloop.Prelude.Result.{Result, ok, err}
use spinloop.Fleet.Tags.{is_empty, contains}

pub record Param : Type 0 where
  pub key : String
  pub value : String

pub record Section : Type 0 where
  pub name : String
  pub params : List Param

pub record Preset : Type 0 where
  pub global : List Param
  pub sections : List Section

-- How an engine spells its flags: the long forms of its short ones, and the flags that take no
-- value. `fold` is strings.ToLower behind strings.TrimSpace.
pub record Dialect : Type 0 where
  pub fold : String → String
  pub aliases : Map String
  pub boolean : List String

abbrev pub alias_or : String → Option String → String
alias_or name none = name
alias_or name (some long) = long

unfoldable pub canonical_key : Dialect → String → String
canonical_key d key = alias_or (d.fold key) (lookup (d.fold key) d.aliases)

-- ordered[i] = kv
unfoldable pub set_at : ℕ → Param → List Param → List Param
set_at i kv [] = []
set_at zero kv (p ∷ ordered) = kv ∷ ordered
set_at (suc i) kv (p ∷ ordered) = p ∷ set_at i kv ordered

-- What is merged so far, and where each flag stands in it.
pub record Merging : Type 0 where
  pub ordered : List Param
  pub at : Map ℕ

unfoldable pub place_param : Param → String → Option ℕ → Merging → Merging
place_param kv ck (some i) m = record m { ordered = set_at i kv m.ordered }
place_param kv ck none m = record {
  ordered = m.ordered ++ kv ∷ [];
  at = put ck (length m.ordered) m.at;
}

unfoldable pub merge_layer : Dialect → List Param → Merging → Merging
merge_layer d [] m = m
merge_layer d (kv ∷ layer) m =
    let ck = canonical_key d kv.key in merge_layer d layer (place_param kv ck (lookup ck m.at) m)

merge_layers : Dialect → List (List Param) → Merging → Merging
unfolding merge_layer
merge_layers d [] m = m
merge_layers d (layer ∷ layers) m = merge_layers d layers (merge_layer d layer m)

unfoldable pub merge : Dialect → List (List Param) → List Param
unfolding merge_layers
merge d layers = (merge_layers d layers (record { ordered = []; at = [] })).ordered

-- strings.ToLower of a value, and the texts that turn a flag off.
abbrev pub is_falsy : Dialect → String → Bool
is_falsy d v = contains (d.fold v) ("0" ∷ "false" ∷ "off" ∷ "no" ∷ [])

abbrev pub is_short : String → Bool
is_short name = len name == 1

-- The value is the text behind strings.TrimSpace.
unfoldable pub flag_for : Dialect → (String → String) → Param → List String
flag_for d trim kv =
    let name = canonical_key d kv.key in
    let flag = (if is_short name then "-" ++ₛ name else "--" ++ₛ name) in
    let value = trim kv.value in
    if contains name d.boolean
    then (if is_falsy d value then [] else flag ∷ [])
    else if is_empty value
    then flag ∷ []
    else flag ∷ value ∷ []

unfoldable pub flags_of : Dialect → (String → String) → List Param → List String
flags_of d trim [] = []
flags_of d trim (kv ∷ kvs) = flag_for d trim kv ++ flags_of d trim kvs

abbrev pub flags : Dialect → (String → String) → List (List Param) → List String
flags d trim layers = flags_of d trim (merge d layers)

-- `CommandIn`
abbrev pub command_in :
    Dialect
    → (String → String)
    → Preset
    → String
    → List String
    → Section
    → List (List Param)
    → List String
command_in d trim p binary subcommand sec overrides =
    (binary ∷ subcommand) ++ flags d trim (p.global ∷ sec.params ∷ overrides)

pub data SelectFault : Type 0 where
  no_sections : SelectFault
  no_section : String → List String → SelectFault
  ambiguous : List String → SelectFault

abbrev pub section_names : Preset → List String
section_names p = map (λ s. s.name) p.sections

-- `equal_fold` is strings.EqualFold.
unfoldable pub section_named : (String → String → Bool) → List Section → String → Option Section
section_named equal_fold [] model = none
section_named equal_fold (s ∷ sections) model =
    if equal_fold s.name model then some s else section_named equal_fold sections model

abbrev pub or_only : Preset → String → Option Section → List Section → Result SelectFault Section
or_only p model (some s) sections = ok s
or_only p model none (s ∷ []) = ok s
or_only p model none _ = err (no_section model (section_names p))

abbrev pub only_section : Preset → List Section → Result SelectFault Section
only_section p [] = err no_sections
only_section p (s ∷ []) = ok s
only_section p _ = err (ambiguous (section_names p))

unfoldable pub select_section :
    (String → String → Bool) → Preset → String → Result SelectFault Section
select_section equal_fold p model =
    if length p.sections == 0
    then err no_sections
    else if not (is_empty model)
    then or_only p model (section_named equal_fold p.sections model) p.sections
    else only_section p p.sections
