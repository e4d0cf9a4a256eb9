-- ===== src/Gateway.antt =====
-- The fleet's gateway (internal/gateway/gateway.go): what it holds, and who it answers.
pub mod Models
pub mod Route
pub mod Fresh
pub mod Topology
use Prim.Native.String.{◌++◌}
use spinloop.Prelude.{
  ℕ, ◌-◌, String, Bool, true, false, not, List, [], ◌∷◌, Option, none, some, if◌then◌else◌, str_eq,
  ltb, ◌&&◌,
}
use spinloop.Prelude.Result.{Result, ok, err}
use spinloop.Prelude.Map.{Map}
use spinloop.Fleet.Tags.{is_empty}
use spinloop.Fleet.Answer.{NodeResult}
use spinloop.Fleet.Config.{NodeConfig, Config}
use spinloop.Fleet.Wakeable.{Resolved}

-- How long a reading of the fleet stays fresh, and one of the nodes' sources, in milliseconds.
abbrev pub cache_ttl : ℕ
cache_ttl = 2000

abbrev pub sources_ttl : ℕ
sources_ttl = 30000

-- The readings are `none` before the first; `cfg_for` is `none` for a gateway that was built with
-- no way to resolve a node's source.
pub record Handler : Type 0 where
  pub cfg : Config
  pub token : String
  pub cfg_for : Option (NodeConfig → Resolved)
  pub results : Option (List NodeResult)
  pub at : ℕ
  pub wakeable : Option (Map String)
  pub wakeable_at : ℕ

abbrev pub is_fresh : ℕ → ℕ → ℕ → Bool
is_fresh now at ttl = ltb (now - at) ttl

abbrev pub fresh_results : ℕ → Handler → Option (List NodeResult)
fresh_results now h = if is_fresh now h.at cache_ttl then h.results else none

-- The last reading while it is fresh, and a new one where it is not. The clock is read when the
-- question comes, and again when the nodes have answered.
read_when :
    (List NodeConfig → List NodeResult)
    → ℕ
    → Handler
    → Option (List NodeResult)
    → List NodeResult × Handler
read_when fan_out done h (some results) = (results, h)
read_when fan_out done h none =
    (fan_out h.cfg.nodes, record h { results = some (fan_out h.cfg.nodes); at = done })

unfoldable pub reading :
    (List NodeConfig → List NodeResult) → ℕ → ℕ → Handler → List NodeResult × Handler
unfolding read_when
reading fan_out now done h = read_when fan_out done h (fresh_results now h)

-- A header that is not there is the empty text.
unfoldable pub authenticate : Handler → String → Bool
authenticate h authorization =
    if is_empty h.token then true else str_eq authorization ("Bearer " ++ h.token)
