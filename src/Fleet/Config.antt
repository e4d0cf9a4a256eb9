-- ===== src/Fleet/Config.antt =====
-- The fleet file's nodes, its wake policy and the keys that it refers to
-- (internal/fleet/config.go).
use spinloop.Prelude.{
  String, Bool, not, List, [], ◌∷◌, Option, none, some, if◌then◌else◌, str_eq, any, map, ◌||◌,
}
use spinloop.Prelude.Int.{ℤ}
use spinloop.Prelude.Map.{Map, lookup}
use spinloop.Prelude.Result.{Result, ok, err, ◌>>=◌}
use spinloop.Fleet.Tags.{is_empty}

pub record EngineOverride : Type 0 where
  pub host : String
  pub port : ℤ
  pub path : String

-- The empty text stands for a setting that is left out.
pub record NodeConfig : Type 0 where
  pub name : String
  pub host : String
  pub port : ℤ
  pub kind : String
  pub token_env : String
  pub engine_token_env : String
  pub engine : Option EngineOverride
  pub file : String
  pub instance_type : String
  pub tags : Map String
  pub wake_policy : String

-- The sections `gateway` and `concurrency` are read by others.
pub record Config : Type 0 where
  pub nodes : List NodeConfig
  pub prefer : String
  pub wake_policy : String
  pub api_key_env : String
  pub path : String
  pub dir : String

abbrev pub prefer_idle : String
prefer_idle = "idle"

abbrev pub prefer_active : String
prefer_active = "active"

-- A text that is neither of the two is an error.
abbrev pub parse_prefer : String → Result String String
parse_prefer s = if str_eq s prefer_idle || str_eq s prefer_active then ok s else err s

-- `Preference`: the flag where it is given, then the file's, then idle.
unfoldable pub preference : Config → String → Result String String
preference c flag =
    if not (is_empty flag)
    then parse_prefer flag
    else if not (is_empty c.prefer)
    then ok c.prefer
    else ok prefer_idle

-- Only `off` keeps routing from starting an engine.
abbrev pub wakes : Config → Bool
wakes c = not (str_eq c.wake_policy "off")

abbrev pub node_wakes : Config → NodeConfig → Bool
node_wakes c entry =
    if not (is_empty entry.wake_policy) then not (str_eq entry.wake_policy "off") else wakes c

abbrev pub any_node_wakes : Config → Bool
any_node_wakes c = any (node_wakes c) c.nodes

unfoldable pub node_named : List NodeConfig → String → Option NodeConfig
node_named [] name = none
node_named (n ∷ nodes) name = if str_eq n.name name then some n else node_named nodes name

abbrev pub names : Config → List String
names c = map (λ n. n.name) c.nodes

-- What a name that the file does not have is answered with: the name, the file and what it has.
pub data UnknownNode : Type 0 where
  no_node : String → String → List String → UnknownNode

named_nodes : Config → List String → Result UnknownNode (List NodeConfig)
named_nodes c [] = ok []
named_nodes c (name ∷ rest) =
    let others = named_nodes c rest in
    elim (node_named c.nodes name) [
      | none ↦ err (no_node name c.path (names c))
      | some entry ↦ others >>= λ nodes. ok (entry ∷ nodes)
    ]

unfoldable pub only_names : Config → List String → Result UnknownNode Config
unfolding named_nodes
only_names c wanted = named_nodes c wanted >>= λ nodes. ok (record c { nodes = nodes })

abbrev pub only : Config → String → Result UnknownNode Config
only c name = only_names c (name ∷ [])

-- The environment of the process, and what reading the .env file of a directory gives.
pub record Environment : Type 0 where
  pub getenv : String → String
  pub env_file : String → Result String (Map String)

pub data TokenError : Type 0 where
  env_unread : String → TokenError
  not_set : String → String → TokenError
  cloud_key_unnamed : String → TokenError
  engine_key_unnamed : String → TokenError

-- vars[name]
abbrev pub value_of : Option String → String
value_of none = ""
value_of (some v) = v

unfoldable pub from_file : String → String → Result String (Map String) → Result TokenError String
from_file who name (err e) = err (env_unread e)
from_file who name (ok vars) =
    let v = value_of (lookup name vars) in if is_empty v then err (not_set name who) else ok v

unfoldable pub resolve_token_env : Environment → Config → String → String → Result TokenError String
unfolding from_file
resolve_token_env env c who name =
    if is_empty name
    then ok ""
    else if not (is_empty (env.getenv name))
    then ok (env.getenv name)
    else from_file who name (env.env_file c.dir)

abbrev pub engine_token : Environment → Config → NodeConfig → Result TokenError String
engine_token env c n = resolve_token_env env c n.name n.engine_token_env

unfoldable pub cloud_engine_token : Environment → Config → NodeConfig → Result TokenError String
cloud_engine_token env c n =
    let name = if is_empty n.engine_token_env then c.api_key_env else n.engine_token_env in
    if is_empty name then err (cloud_key_unnamed n.name) else resolve_token_env env c n.name name
