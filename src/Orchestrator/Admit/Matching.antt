-- ===== src/Orchestrator/Admit/Matching.antt =====
-- The nodes that `Match` finds for an item (internal/orchestrator/admit.go).
use mathlib.Core.List.{Perm}
use spinloop.Prelude.{
  ℕ, String, Bool, true, ◌≡◌, refl, ◌↔◌, List, [], ◌∷◌, ◌++◌, Option, arith, keep_if, All, ◌&&◌,
  not, eq_iff,
}
use spinloop.Prelude.Map.{Map, lookup}
use spinloop.Fleet.Tags.{split_tag}
use spinloop.Orchestrator.Items.{Item}
use spinloop.Orchestrator.Topology.{Topology, Node, is_running, answered}
use spinloop.Orchestrator.Admit.{tag_value, carries_all, tiers, match, rank_by}
use spinloop.Orchestrator.Admit.Ranking.{rank_by-perm}

abbrev pub Carries : Map String → String → Type 0
Carries node_tags tag = tag_value (lookup (split_tag tag).0 node_tags) ≡ (split_tag tag).1

-- A node carries an item's tags exactly when it has the value of each of them under its key.
pub carries_all-All :
    (tags : List String) (node_tags : Map String)
    → (carries_all tags node_tags ≡ true) ↔ All (Carries node_tags) tags
unfolding carries_all
carries_all-All [] node_tags = (λ h. tt, λ h. refl)
carries_all-All (tag ∷ tags) node_tags = ground (
  arith,
  carries_all-All tags node_tags,
  eq_iff (tag_value (lookup (split_tag tag).0 node_tags)) (split_tag tag).1,
)

abbrev pub runs_for : Item → Node → Bool
runs_for item n = carries_all item.tags n.tags && (answered n && is_running n)

abbrev pub startable_for : Item → Bool → Node → Bool
startable_for item wake n =
    carries_all item.tags n.tags && (answered n && (not (is_running n) && wake))

tiers-keep_if :
    (item : Item) (wake : Bool) (nodes : List Node)
    → ((tiers item wake nodes).0 ≡ keep_if (runs_for item) nodes)
      × ((tiers item wake nodes).1 ≡ keep_if (startable_for item wake) nodes)
unfolding tiers
tiers-keep_if item wake [] = (refl, refl)
tiers-keep_if item wake (n ∷ nodes) = ground (arith, tiers-keep_if item wake nodes)

-- The candidates for an item are the nodes that carry all its tags, that answered, and that run an
-- engine or may be woken, each once; those that run stand before all that would have to be started.
pub match-candidates :
    (parse_time : String → Option ℕ) (item : Item) (topo : Topology)
    → (running to_start : List Node) × (match parse_time item topo ≡ running ++ to_start)
      × Perm running (keep_if (runs_for item) topo.nodes)
      × Perm to_start (keep_if (startable_for item topo.wake) topo.nodes)
unfolding match
match-candidates parse_time item topo = (
  rank_by parse_time topo.prefer (tiers item topo.wake topo.nodes).0,
  rank_by parse_time topo.prefer (tiers item topo.wake topo.nodes).1,
  refl,
  rw (← (tiers-keep_if item topo.wake topo.nodes).0) (rank_by-perm parse_time topo.prefer _),
  rw (← (tiers-keep_if item topo.wake topo.nodes).1) (rank_by-perm parse_time topo.prefer _),
)
