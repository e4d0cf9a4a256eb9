-- ===== src/Orchestrator/Admit.antt =====
-- Matching and admission (internal/orchestrator/admit.go). The limits are in `Admit.Limits`, and
-- the order of the matching nodes in `Admit.Ranking`.
pub mod Ranking
pub mod Matching
pub mod Limits
pub mod Idle
use spinloop.Prelude.{
  ℕ, zero, suc, ◌+◌, String, Bool, true, false, not, List, [], ◌∷◌, ◌++◌, map, Option, none, some,
  if◌then◌else◌, str_eq, ltb, ◌==◌, ◌&&◌, ◌||◌, is_some, length, get_elem?, xor,
}
use spinloop.Prelude.Int.{ℤ, reaches}
use spinloop.Prelude.Map.{Map, lookup}
use spinloop.Prelude.Sort.{slice_stable}
use spinloop.Fleet.Tags.{is_empty, split_tag, contains}
use spinloop.Orchestrator.Items.{Item}
use spinloop.Orchestrator.Topology.{Topology, Node, Concurrency, is_running, answered}

-- nodeTags[key]: a key that is not there reads as the empty text.
abbrev pub tag_value : Option String → String
tag_value none = ""
tag_value (some value) = value

unfoldable pub carries_all : List String → Map String → Bool
carries_all [] node_tags = true
carries_all (tag ∷ tags) node_tags =
    let (key, value, valid) = split_tag tag in
    let rest = carries_all tags node_tags in
    if str_eq (tag_value (lookup key node_tags)) value then rest else false

-- `everActive[i]` and `active[i]` as one: the time of the last activity, where one is reported and
-- reads as a time. `parse_time` stands for `time.Parse(time.RFC3339, ...)`, as an instant.
abbrev pub activity : (String → Option ℕ) → Node → Option ℕ
activity parse_time n = if is_empty n.last_active_at then none else parse_time n.last_active_at

abbrev pub instant : Option ℕ → ℕ
instant none = 0
instant (some t) = t

-- The comparison of `rankBy`, on the activity of two nodes. Two readings of one instant, in two
-- zones, fall to the last case in the source as well: neither is before the other.
unfoldable pub ranks_before : Bool → Option ℕ → Option ℕ → Bool
ranks_before by_active a b =
    if xor (is_some a) (is_some b)
    then xor by_active (is_some b)
    else if not (instant a == instant b)
    then (if by_active then ltb (instant b) (instant a) else ltb (instant a) (instant b))
    else false

abbrev pub reading : List (Option ℕ) → ℕ → Option ℕ
reading times i = elim (get_elem? times i) [ none ↦ none | some t ↦ t ]

-- The readings are taken before the sort and stay in the order that the nodes had then, so the test
-- reads them by position whatever node has come to stand there.
unfoldable pub rank_by : (String → Option ℕ) → String → List Node → List Node
rank_by parse_time prefer nodes =
    let times = map (activity parse_time) nodes in
    slice_stable
      (λ i x j y. ranks_before (str_eq prefer "active") (reading times i) (reading times j)) nodes

-- The loop of `Match`: the running nodes, and the nodes that would have to be started.
unfoldable pub tiers : Item → Bool → List Node → List Node × List Node
tiers item wake [] = ([], [])
tiers item wake (n ∷ nodes) =
    let rest = tiers item wake nodes in
    if not (carries_all item.tags n.tags)
    then rest
    else if not (answered n)
    then rest
    else if is_running n
    then (n ∷ rest.0, rest.1)
    else if wake
    then (rest.0, n ∷ rest.1)
    else rest

unfoldable pub match : (String → Option ℕ) → Item → Topology → List Node
match parse_time item topo =
    let (running, to_start) = tiers item topo.wake topo.nodes in
    rank_by parse_time topo.prefer running ++ rank_by parse_time topo.prefer to_start

unfoldable pub count_carrying : List Item → String → ℕ
count_carrying [] tag = 0
count_carrying (item ∷ items) tag =
    let rest = count_carrying items tag in if contains tag item.tags then suc rest else rest

-- The loop over the item's tags in `Admits`: each declared limit has room.
abbrev tags_admit : Map ℤ → List Item → List String → Bool
tags_admit limits inflight [] = true
tags_admit limits inflight (tag ∷ tags) =
    let rest = tags_admit limits inflight tags in
    elim (lookup tag limits) [
      | none ↦ rest
      | some limit ↦ if reaches (count_carrying inflight tag) limit then false else rest
    ]

abbrev total_admits : Option ℤ → List Item → Bool
total_admits none inflight = true
total_admits (some total) inflight = not (reaches (length inflight) total)

abbrev limits_admit : Option Concurrency → List Item → Item → Bool
limits_admit none inflight item = true
limits_admit (some c) inflight item =
    if total_admits c.total inflight then tags_admit c.tags inflight item.tags else false

unfoldable pub admits : Topology → List Item → Item → Bool
admits topo inflight item = limits_admit topo.concurrency inflight item
