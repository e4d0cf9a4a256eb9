-- ===== src/Examples/Load.antt =====
-- A fleet file with a daemon, an environment, a gateway and limits (internal/fleet/config.go).
use spinloop.Prelude.{true, false, ◌≡◌, ◌↔◌, refl, [], ◌∷◌, map, none, some}
use spinloop.Prelude.Int.{pos}
use spinloop.Prelude.Result.{ok, err}
use spinloop.Fleet.Config.{NodeConfig}
use spinloop.Fleet.Tags.{split_tag}
use spinloop.Fleet.Load.{
  FleetFile, FleetText, RawTags, text, load, validate_file, names_scheme, is_env_name,
  is_instance_type, tag_twice,
}
use spinloop.Fleet.Load.Valid.{filled}
use spinloop.Fleet.Load.Loaded.{IsLoadable, placed, load_iff}
use spinloop.Fleet.Load.Limits.{reported_limits, load-admits}
use spinloop.Orchestrator.Admit.{admits}
use spinloop.Gateway.Topology.{topology}
use spinloop.Examples.Data.{item_x}
use spinloop.Examples.Nodes.{node, fleet}

abbrev daemon_of_no_kind : NodeConfig
daemon_of_no_kind = record (node "a") { kind = ""; tags = ("gpu", "big") ∷ [] }

abbrev cloud_entry : NodeConfig
cloud_entry = record (node "prod") {
  kind = "cloud";
  host = "";
  instance_type = "g6e.xlarge";
  wake_policy = "off";
}

abbrev file : FleetFile
file = record {
  config = record fleet { nodes = daemon_of_no_kind ∷ cloud_entry ∷ []; prefer = "active" };
  gateway = some (record { url = "http://gw"; token_env = ""; name = "" });
  concurrency = some (record { total = some (pos 1); tags = ("gpu=big", pos 1) ∷ [] });
}

abbrev raw : RawTags
raw = some (("a", some ("gpu" ∷ [])) ∷ ("prod", none) ∷ [])

abbrev written : FleetText
written = text raw (ok file)

abbrev loaded : FleetFile
loaded = filled (placed "fleet.yaml" "." file)

loads : load "fleet.yaml" "." written ≡ ok loaded
unfolding load validate_file names_scheme split_tag is_env_name is_instance_type
loads = refl

names_twice :
    load "fleet.yaml" "." (text (some (("a", some ("gpu" ∷ "gpu" ∷ [])) ∷ [])) (ok file))
    ≡ err (tag_twice "a" "gpu")
unfolding load
names_twice = refl

shapes :
    map is_instance_type ("g6e.xlarge" ∷ "u7i-12tb.224xlarge" ∷ "g6e" ∷ "g6e-.xl" ∷ "a.b.c" ∷ [])
    ≡ (true ∷ true ∷ false ∷ false ∷ false ∷ [])
unfolding is_instance_type
shapes = refl

load_iff_example :
    (load "fleet.yaml" "." written ≡ ok loaded) ↔ IsLoadable "fleet.yaml" "." written loaded
load_iff_example = load_iff "fleet.yaml" "." written loaded

load-admits_example :
    admits (topology (λ f. "") loaded.config (reported_limits loaded.concurrency) [] []) [] item_x
    ≡ true
load-admits_example = load-admits "fleet.yaml" "." written loaded (λ f. "") [] [] item_x loads
