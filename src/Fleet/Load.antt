-- ===== src/Fleet/Load.antt =====
-- What a fleet file has to be (Load and validate of internal/fleet/config.go), with the shapes of names
-- that internal/cloud asks for. What the YAML decoder makes of the file is an argument.
pub mod Valid
pub mod Loaded
pub mod Limits
use spinloop.Prelude.{
  ℕ, suc, ◌+◌, String, Char, code, Bool, true, false, not, List, [], ◌∷◌, Option, none, some,
  if◌then◌else◌, str_eq, ◌&&◌, ◌||◌, leb, ◌==◌,
}
use spinloop.Prelude.Int.{ℤ, pos, lt_ℤ}
use spinloop.Prelude.Map.{Map}
use spinloop.Prelude.Result.{Result, ok, err, ◌>>=◌, ◌>>◌}
use spinloop.Prelude.Text.{Text, codes, text_eq, contains_code}
use spinloop.Fleet.Tags.{is_empty, is_tag, contains}
use spinloop.Fleet.Config.{NodeConfig, Config, parse_prefer}

pub record GatewayConfig : Type 0 where
  pub url : String
  pub token_env : String
  pub name : String

-- `total` is a pointer in the source: `none` declares no limit.
pub record DeclaredLimits : Type 0 where
  pub total : Option ℤ
  pub tags : Map ℤ

-- A fleet file: the settings that routing reads, and the two sections that others do.
pub record FleetFile : Type 0 where
  pub config : Config
  pub gateway : Option GatewayConfig
  pub concurrency : Option DeclaredLimits

pub data Invalid : Type 0 where
  no_nodes : Invalid
  unknown_preference : String → Invalid
  unknown_policy : String → Invalid
  no_url : Invalid
  no_scheme : String → Invalid
  bad_total : ℤ → Invalid
  bad_limit : String → ℤ → Invalid
  bad_limit_key : String → Invalid
  unnamed : ℕ → Invalid
  duplicate_name : String → Invalid
  node_policy : String → String → Invalid
  empty_tag : String → Invalid
  no_host : String → Invalid
  daemon_type : String → Invalid
  not_environment : String → Invalid
  bad_type : String → String → Invalid
  unknown_kind : String → String → Invalid

abbrev pub guard : Bool → Invalid → Result Invalid (Unit {0})
guard true e = ok tt
guard false e = err e

-- One of the two policies, or the empty text of a file that names none.
abbrev pub is_policy : String → Bool
is_policy s = is_empty s || (str_eq s "on" || str_eq s "off")

abbrev is_preference : String → Bool
is_preference s = is_empty s || (str_eq s "idle" || str_eq s "active")

abbrev starts_with_codes : Text → Text → Bool
starts_with_codes [] s = true
starts_with_codes (c ∷ p) [] = false
starts_with_codes (c ∷ p) (d ∷ s) = d == c && starts_with_codes p s

-- strings.Contains
abbrev contains_codes : Text → Text → Bool
contains_codes p [] = starts_with_codes p []
contains_codes p (c ∷ s) = starts_with_codes p (c ∷ s) || contains_codes p s

unfoldable pub names_scheme : String → Bool
names_scheme url = contains_codes (codes "://") (codes url)

abbrev ends_with_codes : Text → Text → Bool
ends_with_codes p [] = text_eq [] p
ends_with_codes p (c ∷ s) = text_eq (c ∷ s) p || ends_with_codes p s

-- cloud.IsEnvName
unfoldable pub is_env_name : String → Bool
is_env_name value =
    not (is_empty value)
    && (not (contains_code b'/' (codes value) || contains_code 92 (codes value))
        && not (ends_with_codes (codes ".json") (codes value)))

abbrev is_alphanumeric : ℕ → Bool
is_alphanumeric c = (leb b'a' c && leb c b'z') || (leb b'0' c && leb c b'9')

-- Where the pattern of cloud.IsInstanceType stands: before a word of the family, in it, before the
-- size, and in it.
pub data Place : Type 0 where
  before_word in_word before_size in_size : Place

matches_from : Place → Text → Bool
matches_from before_word [] = false
matches_from in_word [] = false
matches_from before_size [] = false
matches_from in_size [] = true
matches_from before_word (c ∷ s) = is_alphanumeric c && matches_from in_word s
matches_from in_word (c ∷ s) =
    matches_from
      (if is_alphanumeric c then in_word else if c == b'-' then before_word else before_size) s
    && (is_alphanumeric c || (c == b'-' || c == b'.'))
matches_from before_size (c ∷ s) = is_alphanumeric c && matches_from in_size s
matches_from in_size (c ∷ s) = is_alphanumeric c && matches_from in_size s

-- cloud.IsInstanceType: ^[a-z0-9]+(?:-[a-z0-9]+)*\.[a-z0-9]+$
unfoldable pub is_instance_type : String → Bool
unfolding matches_from
is_instance_type value = matches_from before_word (codes value)

check_gateway : Option GatewayConfig → Result Invalid (Unit {0})
check_gateway none = ok tt
check_gateway (some g) = do
  guard (not (is_empty g.url)) no_url
  guard (names_scheme g.url) (no_scheme g.url)

check_limits_of : List (String × ℤ) → Result Invalid (Unit {0})
check_limits_of [] = ok tt
check_limits_of ((tag, limit) ∷ tags) =
    let rest = check_limits_of tags in
    guard (lt_ℤ (pos 0) limit) (bad_limit tag limit)
    >> (guard (is_tag tag) (bad_limit_key tag) >> rest)

check_total : Option ℤ → Result Invalid (Unit {0})
check_total none = ok tt
check_total (some n) = guard (lt_ℤ (pos 0) n) (bad_total n)

-- `Concurrency.validate`, where there is the section.
check_concurrency : Option DeclaredLimits → Result Invalid (Unit {0})
unfolding check_total check_limits_of
check_concurrency none = ok tt
check_concurrency (some c) = check_total c.total >> check_limits_of c.tags

check_tags_of : String → List (String × String) → Result Invalid (Unit {0})
check_tags_of name [] = ok tt
check_tags_of name ((k, v) ∷ tags) =
    let rest = check_tags_of name tags in
    guard (not (is_empty k || is_empty v)) (empty_tag name) >> rest

-- A kind that is left out is a daemon.
abbrev pub with_kind : NodeConfig → NodeConfig
with_kind n = record n { kind = if is_empty n.kind then "daemon" else n.kind }

check_daemon : NodeConfig → Result Invalid (Unit {0})
check_daemon n = do
  guard (not (is_empty n.host)) (no_host n.name)
  guard (is_empty n.instance_type) (daemon_type n.name)

check_cloud : NodeConfig → Result Invalid (Unit {0})
check_cloud n = do
  guard (is_env_name n.name) (not_environment n.name)
  guard (is_empty n.instance_type || is_instance_type n.instance_type)
      (bad_type n.name n.instance_type)

check_kind : NodeConfig → Result Invalid (Unit {0})
unfolding check_daemon check_cloud
check_kind n =
    if str_eq n.kind "daemon"
    then check_daemon n
    else if str_eq n.kind "cloud"
    then check_cloud n
    else err (unknown_kind n.name n.kind)

-- The loop over the nodes in `validate`, which fills in their kinds.
check_nodes : ℕ → List String → List NodeConfig → Result Invalid (List NodeConfig)
unfolding check_tags_of check_kind
check_nodes i seen [] = ok []
check_nodes i seen (n ∷ nodes) =
    let rest = check_nodes (suc i) (n.name ∷ seen) nodes in
    do
      guard (not (is_empty n.name)) (unnamed (suc i))
      guard (not (contains n.name seen)) (duplicate_name n.name)
      guard (is_policy n.wake_policy) (node_policy n.name n.wake_policy)
      check_tags_of n.name n.tags
      check_kind (with_kind n)
      others ← rest
      ok (with_kind n ∷ others)

has_nodes : List NodeConfig → Bool
has_nodes [] = false
has_nodes (n ∷ nodes) = true

unfoldable pub validate_file : FleetFile → Result Invalid FleetFile
unfolding check_gateway check_concurrency check_nodes has_nodes
validate_file f = do
  guard (has_nodes f.config.nodes) no_nodes
  guard (is_preference f.config.prefer) (unknown_preference f.config.prefer)
  guard (is_policy f.config.wake_policy) (unknown_policy f.config.wake_policy)
  check_gateway f.gateway
  check_concurrency f.concurrency
  nodes ← check_nodes 0 [] f.config.nodes
  ok (record f { config = record f.config { nodes = nodes } })

-- The keys of each node's tags as the file's text has them, with the node's name: none for a node
-- whose tags are no mapping, and none at all where that reading of the file fails.
abbrev pub RawTags : Type 0
RawTags = Option (List (String × Option (List String)))

pub data LoadError : Type 0 where
  no_fleet : String → LoadError
  unread : String → LoadError
  tag_twice : String → String → LoadError
  unparsed : String → LoadError
  invalid : Invalid → LoadError

repeated_key : List String → List String → Option String
repeated_key seen [] = none
repeated_key seen (k ∷ ks) =
    let rest = repeated_key (k ∷ seen) ks in if contains k seen then some k else rest

pub keys_of : Option (List String) → List String
keys_of none = []
keys_of (some ks) = ks

twice_in : List (String × Option (List String)) → Result LoadError (Unit {0})
unfolding repeated_key keys_of
twice_in [] = ok tt
twice_in ((name, ks) ∷ nodes) =
    let rest = twice_in nodes in
    elim (repeated_key [] (keys_of ks)) [ none ↦ rest | some k ↦ err (tag_twice name k) ]

-- `tagDuplicates`
unfoldable pub tag_duplicates : RawTags → Result LoadError (Unit {0})
unfolding twice_in
tag_duplicates none = ok tt
tag_duplicates (some nodes) = twice_in nodes

-- What is at the path: nothing, what cannot be read, or a text, as the two decoders read it.
pub data FleetText : Type 0 where
  absent : FleetText
  unreadable : String → FleetText
  text : RawTags → Result String FleetFile → FleetText

validated : String → String → Result String FleetFile → Result LoadError FleetFile
validated path dir (err e) = err (unparsed e)
validated path dir (ok f) =
    elim (validate_file (record f { config = record f.config { path = path; dir = dir } })) [
      | err e ↦ err (invalid e)
      | ok g ↦ ok g
    ]

-- `Load`; `dir` is filepath.Dir of the path.
unfoldable pub load : String → String → FleetText → Result LoadError FleetFile
unfolding validated tag_duplicates
load path dir absent = err (no_fleet path)
load path dir (unreadable e) = err (unread e)
load path dir (text raw decoded) = tag_duplicates raw >> validated path dir decoded

-- Why there is no fleet of one node.
pub data NoEnvironment : Type 0 where
  not_a_name : String → NoEnvironment
  not_loaded : String → NoEnvironment
  refused : Invalid → NoEnvironment

abbrev environment_node : String → NodeConfig
environment_node name = record {
  name = name;
  host = "";
  port = pos 0;
  kind = "cloud";
  token_env = "";
  engine_token_env = "";
  engine = none;
  file = "";
  instance_type = "";
  tags = [];
  wake_policy = "";
}

abbrev pub fleet_of_one : String → FleetFile
fleet_of_one name = record {
  config = record {
    nodes = environment_node name ∷ [];
    prefer = "";
    wake_policy = "";
    api_key_env = "";
    path = "";
    dir = "";
  };
  gateway = none;
  concurrency = none;
}

-- `ForEnvironment`, where `loaded` is the error of cloud.LoadEnvironment, if any.
unfoldable pub for_environment :
    (loaded : String → Option String) → String → Result NoEnvironment FleetFile
for_environment loaded name =
    if not (is_env_name name) then err (not_a_name name) else elim (loaded name) [
      | some e ↦ err (not_loaded e)
      | none ↦ elim (validate_file (fleet_of_one name)) [ err e ↦ err (refused e) | ok f ↦ ok f ]
    ]
