-- ===== src/Examples/WorkList.antt =====
-- The work list of two items, before and after its first turn (internal/orchestrator/worklist.go).
use spinloop.Prelude.{true, ◌≡◌, refl, [], ◌∷◌, none, some}
use spinloop.Prelude.Map.{lookup, put, delete, retain, map_values}
use spinloop.Prelude.Result.{ok}
use spinloop.Prelude.Sort.{slice_stable, insertion, sift}
use spinloop.Fleet.Tags.{split_tag}
use spinloop.Orchestrator.Items.{file_item_from_item, sorted_for_admission}
use spinloop.Orchestrator.Topology.{is_running, answered}
use spinloop.Orchestrator.Admit.{carries_all, match, rank_by, admits, count_carrying, tiers}
use spinloop.Orchestrator.Admit.Limits.{Within, none-Within}
use spinloop.Orchestrator.Store.{recover}
use spinloop.Orchestrator.WorkList.{
  WorkList, Finished, new_work_list, pass, turn, prune, place, started, admit_item, admit_all, reap,
  consume_aborts, refresh_items, save, flying_items, shut_down,
}
use spinloop.Orchestrator.WorkList.Consistent.{IsConsistent}
use spinloop.Orchestrator.WorkList.Steps.{turns, here, next, run-IsConsistent}
use spinloop.Orchestrator.WorkList.Finish.{Reaped, first_result, reap-Reaped}
use spinloop.Orchestrator.WorkList.Admission.{pass-Within}
use spinloop.Orchestrator.WorkList.Settled.{Settled}
use spinloop.Orchestrator.WorkList.Shutdown.{shut_down-stored}
use spinloop.Orchestrator.WorkList.Api.{abort_begin}
use spinloop.Orchestrator.WorkList.Api.Outcomes.{Aborted, abort_begin-Aborted}
use spinloop.Examples.Data.{item_x, item_y, topo, world, before, after}

first_turn : turn world true "t" [] [] topo (some (3, 4)) [] before ≡ ok after
unfolding turn reap consume_aborts refresh_items pass prune admit_all admit_item match tiers rank_by
    slice_stable insertion sift sorted_for_admission split_tag place admits count_carrying answered
    is_running carries_all started save lookup retain put delete
first_turn = refl

run-IsConsistent_example : IsConsistent after
unfolding new_work_list recover map_values
run-IsConsistent_example =
    run-IsConsistent "t" (item_x ∷ item_y ∷ []) [] [] 3 4 before after refl
      (next here (turns world true "t" [] [] topo (some (3, 4)) [] first_turn))

-- The same, for the witnesses below.
after-IsConsistent : IsConsistent after
unfolding new_work_list recover map_values
after-IsConsistent =
    run-IsConsistent "t" (item_x ∷ item_y ∷ []) [] [] 3 4 before after refl
      (next here (turns world true "t" [] [] topo (some (3, 4)) [] first_turn))

pass-Within_example : Within topo.concurrency (flying_items (pass world topo [] before).inflight)
pass-Within_example = pass-Within world topo [] before (none-Within topo.concurrency)

abbrev finished_x : Finished
finished_x = record { id = "x"; failure = some "exit status 1" }

reap-Reaped_example :
    Reaped "t" "x"
      (first_result "x" (finished_x ∷ []))
      (lookup "x" after.inflight)
      after
      (reap "t" (finished_x ∷ []) after)
reap-Reaped_example = reap-Reaped "t" (finished_x ∷ []) "x" after

shut_down-stored_example :
    (lookup "x" (shut_down true after).stored
      ≡ elim (lookup "x" after.inflight) [ none ↦ lookup "x" after.records | some fl ↦ none ])
    × (lookup "x" (recover "u" (shut_down true after).stored)
        ≡ lookup "x" (shut_down true after).stored)
shut_down-stored_example = shut_down-stored "u" after "x" after-IsConsistent

abort_begin-Aborted_example : Aborted true "x" after (abort_begin true "x" after)
abort_begin-Aborted_example = abort_begin-Aborted true "x" after

-- The list while the first item is being stopped, and without the second one.
abbrev aborting : WorkList
aborting = record before { stopping = ("x", tt) ∷ [] }

abbrev removed : WorkList
removed = record after { items = item_x ∷ []; file = file_item_from_item item_x ∷ [] }
