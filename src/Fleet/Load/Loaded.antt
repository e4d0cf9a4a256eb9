-- ===== src/Fleet/Load/Loaded.antt =====
-- What `Load` and `ForEnvironment` return (internal/fleet/config.go).
use spinloop.Prelude.{
  ◌≡◌, refl, ◌↔◌, String, true, false, List, [], ◌∷◌, arith, All, Option, none, some, inl, inr, ◌⊎◌,
}
use spinloop.Prelude.Result.{Result, ok, err}
use spinloop.Fleet.Tags.{is_empty}
use spinloop.Fleet.Load.{
  FleetFile, RawTags, LoadError, text, repeated_key, keys_of, twice_in, tag_duplicates,
  validate_file, validated, load, for_environment, fleet_of_one, is_env_name, FleetText, absent,
  unreadable, check_nodes, check_tags_of, check_kind, check_cloud, has_nodes, check_gateway,
}
use spinloop.Fleet.Load.Valid.{IsValidFile, filled, validate_file_iff}
use spinloop.Orchestrator.Items.Validation.{Fresh}

-- The file with where it was read from.
abbrev pub placed : String → String → FleetFile → FleetFile
placed path dir f = record f { config = record f.config { path = path; dir = dir } }

-- Where the keys of the nodes' tags can be read, no node names one twice.
abbrev pub KeysDiffer : RawTags → Type 0
KeysDiffer none = Unit {0}
KeysDiffer (some nodes) = All (λ n. Fresh [] (keys_of n.1)) nodes

repeated_key-Fresh : (seen ks : List String) → (repeated_key seen ks ≡ none) ↔ Fresh seen ks
unfolding repeated_key
repeated_key-Fresh seen [] = (λ h. tt, λ h. refl)
repeated_key-Fresh seen (k ∷ ks) = ground (arith, repeated_key-Fresh (k ∷ seen) ks)

twice_in-All :
    (nodes : List (String × Option (List String)))
    → (twice_in nodes ≡ ok tt) ↔ All (λ n. Fresh [] (keys_of n.1)) nodes
unfolding twice_in
twice_in-All [] = (λ h. tt, λ h. refl)
twice_in-All ((name, ks) ∷ nodes) =
    ground (arith, repeated_key-Fresh [] (keys_of ks), twice_in-All nodes)

tag_duplicates-KeysDiffer : (raw : RawTags) → (tag_duplicates raw ≡ ok tt) ↔ KeysDiffer raw
unfolding tag_duplicates
tag_duplicates-KeysDiffer none = (λ h. tt, λ h. refl)
tag_duplicates-KeysDiffer (some nodes) = twice_in-All nodes

duplicate_cases : (r : Result LoadError (Unit {0})) → (r ≡ ok tt) ⊎ ((e : LoadError) × (r ≡ err e))
duplicate_cases (ok tt) = inl refl
duplicate_cases (err e) = inr (e, refl)

-- What there is to load: a text that decodes, whose tags name no key twice, to a valid file.
abbrev pub IsLoadable : String → String → FleetText → FleetFile → Type 0
IsLoadable path dir absent g = ⊥
IsLoadable path dir (unreadable e) g = ⊥
IsLoadable path dir (text raw (err e)) g = ⊥
IsLoadable path dir (text raw (ok f)) g =
    KeysDiffer raw × (IsValidFile (placed path dir f) × (g ≡ filled (placed path dir f)))

-- A fleet is loaded exactly from a file that can be read and decoded, where no node's tags name one
-- key twice and what is decoded is a valid fleet; it is that fleet, with its path and its directory,
-- and with the kinds filled in that it leaves out.
pub load_iff :
    (path dir : String) (t : FleetText) (g : FleetFile)
    → (load path dir t ≡ ok g) ↔ IsLoadable path dir t g
unfolding load validated
load_iff path dir absent g = ground arith
load_iff path dir (unreadable e) g = ground arith
load_iff path dir (text raw (err e)) g = ground (arith, duplicate_cases (tag_duplicates raw))
load_iff path dir (text raw (ok f)) g = ground (
  arith,
  duplicate_cases (tag_duplicates raw),
  tag_duplicates-KeysDiffer raw,
  validate_file_iff (placed path dir f) g,
)

is_env_name-named : (name : String) → is_env_name name ≡ true → is_empty name ≡ false
unfolding is_env_name
is_env_name-named name h = ground arith

-- A fleet of one node is had exactly by an environment's name under which one is registered; the
-- validation that a file gets refuses none of these.
pub for_environment_iff :
    (loaded : String → Option String) (name : String) (f : FleetFile)
    → (for_environment loaded name ≡ ok f)
      ↔ ((is_env_name name ≡ true) × ((loaded name ≡ none) × (f ≡ fleet_of_one name)))
unfolding for_environment validate_file check_gateway check_nodes check_tags_of check_kind
    check_cloud has_nodes
for_environment_iff loaded name f = ground (arith, is_env_name-named name)
