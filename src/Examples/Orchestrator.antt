-- ===== src/Examples/Orchestrator.antt =====
-- The files, the matching and the store (internal/orchestrator, internal/fleet/config.go).
use spinloop.Prelude.{
  true, false, ◌≡◌, refl, List, [], ◌∷◌, ◌++◌, none, some, All, ◌↔◌, keep_if, map,
}
use mathlib.Core.List.{Perm}
use spinloop.Prelude.Int.{ℤ}
use spinloop.Prelude.Map.{lookup}
use spinloop.Prelude.Result.{ok}
use spinloop.Prelude.Sort.Order.{IsSorted}
use spinloop.Orchestrator.Items.{
  to_item, parse_items, file_item_from_item, outranks, sorted_for_admission,
}
use spinloop.Orchestrator.Items.Validation.{IsValidEntry, Fresh, ids, parse_items_iff}
use spinloop.Orchestrator.Items.RoundTrip.{
  written, reread, parse_items-written, has_priority, sorted_for_admission-order,
}
use spinloop.Orchestrator.Topology.{Node}
use spinloop.Orchestrator.Admit.{carries_all, match, rank_by, ranks_before, admits, count_carrying}
use spinloop.Orchestrator.Admit.Ranking.{preferred, rank_by_pair, rank_by_misplaces}
use spinloop.Orchestrator.Admit.Matching.{
  Carries, carries_all-All, runs_for, startable_for, match-candidates,
}
use spinloop.Orchestrator.Admit.Limits.{Within, none-Within, admits-Within}
use spinloop.Orchestrator.Store.{running, ItemState, holds, Beside, Io, recover}
use spinloop.Orchestrator.Store.Recovery.{running_record, recovered, recover-records}
use spinloop.Examples.Data.{item_x, item_y, node_at, topo, parse_time}
use spinloop.Fleet.Tags.{split_tag}

parse_items_iff_example : (parse_items (written (item_x ∷ item_y ∷ [])) ≡ ok (item_x ∷ [])) ↔ (
    All IsValidEntry (written (item_x ∷ item_y ∷ []))
    × Fresh [] (ids (written (item_x ∷ item_y ∷ [])))
    × (item_x ∷ [] ≡ map to_item (written (item_x ∷ item_y ∷ []))))
parse_items_iff_example = parse_items_iff (written (item_x ∷ item_y ∷ [])) (item_x ∷ [])

parse_items-written_example :
    parse_items (written (item_x ∷ item_y ∷ [])) ≡ ok (map reread (item_x ∷ item_y ∷ []))
unfolding file_item_from_item split_tag
parse_items-written_example =
    parse_items-written (item_x ∷ item_y ∷ [])
      (
        (
          refl,
          record { instructed = refl; placed = refl; tagged = (refl, tt); distinct = (refl, tt) },
        ),
        ((refl, record { instructed = refl; placed = refl; tagged = tt; distinct = tt }), tt),
      )
      (refl, (refl, tt))

sorted_for_admission-order_example :
    IsSorted outranks (sorted_for_admission (item_y ∷ item_x ∷ []))
    × Perm (sorted_for_admission (item_y ∷ item_x ∷ [])) (item_y ∷ item_x ∷ [])
    × ((p : ℤ)
        → keep_if (has_priority p) (sorted_for_admission (item_y ∷ item_x ∷ []))
          ≡ keep_if (has_priority p) (item_y ∷ item_x ∷ []))
sorted_for_admission-order_example = sorted_for_admission-order (item_y ∷ item_x ∷ [])

carries_all-All_example :
    (carries_all ("gpu=big" ∷ []) (("gpu", "big") ∷ []) ≡ true)
    ↔ All (Carries (("gpu", "big") ∷ [])) ("gpu=big" ∷ [])
carries_all-All_example = carries_all-All ("gpu=big" ∷ []) (("gpu", "big") ∷ [])

match-candidates_example :
    (running to_start : List Node) × (match parse_time item_x topo ≡ running ++ to_start)
    × Perm running (keep_if (runs_for item_x) topo.nodes)
    × Perm to_start (keep_if (startable_for item_x topo.wake) topo.nodes)
match-candidates_example = match-candidates parse_time item_x topo

rank_by_pair_example :
    IsSorted
      (preferred parse_time "idle")
      (rank_by parse_time "idle" (node_at "a" "running" "9" ∷ node_at "b" "running" "5" ∷ []))
rank_by_pair_example =
    rank_by_pair parse_time "idle" (node_at "a" "running" "9") (node_at "b" "running" "5")

rank_by_misplaces_example :
    (rank_by parse_time "idle"
        (node_at "a" "running" "5" ∷ node_at "b" "running" "9" ∷ node_at "c" "running" "1" ∷ [])
      ≡ node_at "a" "running" "5" ∷ node_at "c" "running" "1" ∷ node_at "b" "running" "9" ∷ [])
    × ¬ IsSorted (preferred parse_time "idle") (
        rank_by parse_time "idle"
          (node_at "a" "running" "5" ∷ node_at "b" "running" "9" ∷ node_at "c" "running" "1" ∷ []))
unfolding ranks_before
rank_by_misplaces_example =
    rank_by_misplaces parse_time "idle" (node_at "a" "running" "5") (node_at "b" "running" "9")
      (node_at "c" "running" "1") refl refl refl

admits-Within_example : Within topo.concurrency (item_x ∷ [])
unfolding admits count_carrying lookup
admits-Within_example = admits-Within topo [] item_x (none-Within topo.concurrency) refl

abbrev works : Io
works = record {
  create = true;
  reads = true;
  remove = true;
  recreate = true;
  make_log_dir = true;
  save = true;
}

abbrev interrupted : ItemState
interrupted = record { state = running; why = ""; node = "a"; started_at = "1"; ended_at = "" }

recover-records_example :
    (lookup "x" (recover "9" (("x", interrupted) ∷ []))
      ≡ elim (lookup "x" (("x", interrupted) ∷ [])) [
        | none ↦ none
        | some st ↦ some (recovered "9" st)
      ])
    × (running_record (lookup "x" (recover "9" (("x", interrupted) ∷ []))) ≡ false)
recover-records_example = recover-records "9" "x" (("x", interrupted) ∷ [])

abbrev held : Beside
held = record { lock = some (some 41); state = holds (("x", interrupted) ∷ []) }
