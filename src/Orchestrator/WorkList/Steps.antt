-- ===== src/Orchestrator/WorkList/Steps.antt =====
-- A run of the orchestrator as a sequence of steps, in any order (internal/orchestrator/worklist.go).
-- Each step is what one holder of the list's lock does, or a turn of the run's loop.
use spinloop.Prelude.{String, Bool, ℕ, ◌≡◌, List, Option, arith, subst, refl}
use spinloop.Prelude.Map.{Map}
use spinloop.Prelude.Result.{Result, ok, err}
use spinloop.Orchestrator.Items.{Item, FileItem, Fault}
use spinloop.Orchestrator.Topology.{Topology}
use spinloop.Orchestrator.Store.{ItemState, recover}
use spinloop.Orchestrator.Store.Recovery.{recover_quiet}
use spinloop.Orchestrator.WorkList.{
  WorkList, Flight, Finished, World, new_work_list, refresh_items, finish, reap, consume_aborts,
  refreshed, turn,
}
use spinloop.Orchestrator.WorkList.Api.{add, remove, abort_begin, abort_end, retry}
use spinloop.Orchestrator.WorkList.Consistent.{
  IsConsistent, save-IsConsistent, pass-IsConsistent, finish-IsConsistent, reap-IsConsistent,
  consume_aborts-IsConsistent, refresh_items-IsConsistent, new_work_list-IsConsistent,
}
use spinloop.Orchestrator.WorkList.Api.Keeps.{
  add-IsConsistent, remove-IsConsistent, abort_begin-IsConsistent, abort_end-IsConsistent,
  retry-IsConsistent,
}

pub data Step (w w' : WorkList) : Type 0 where
  turns :
      (world : World) (saves : Bool) (now : String) (results : List Finished)
      (markers : List String) (topo : Topology) (stat : Option (ℕ × ℕ)) (file : List FileItem)
      → turn world saves now results markers topo stat file w ≡ ok w'
      → Step w w'
  finishes : (now : String) (r : Finished) → w' ≡ finish now r w → Step w w'
  adds : (writes : Bool) (item : Item) → add writes item w ≡ ok w' → Step w w'
  removes : (writes saves : Bool) (id : String) → remove writes saves id w ≡ ok w' → Step w w'
  aborts :
      (saves : Bool) (id : String) (fl : Flight) → abort_begin saves id w ≡ ok (fl, w') → Step w w'
  abort_ends : (id : String) → w' ≡ abort_end id w → Step w w'
  retries : (saves : Bool) (id : String) → retry saves id w ≡ ok w' → Step w w'

pub data Reach (s : WorkList) : WorkList → Type 0 where
  here : Reach s s
  next : {t u : WorkList} → Reach s t → Step t u → Reach s u

refreshed-IsConsistent :
    (world : World) (saves : Bool) (topo : Topology) (suppressed : List String) (w : WorkList)
    (r : Result (Option Fault) WorkList) {w' : WorkList}
    → ((v : WorkList) → r ≡ ok v → IsConsistent v)
    → refreshed world saves topo suppressed w r ≡ ok w'
    → IsConsistent w'
unfolding refreshed
refreshed-IsConsistent world saves topo suppressed w (err e) c h = cc
refreshed-IsConsistent world saves topo suppressed w (ok v) c h =
    subst IsConsistent (ground arith)
      (save-IsConsistent saves _ (pass-IsConsistent world topo suppressed v (c v refl)))

turn-IsConsistent :
    (world : World) (saves : Bool) (now : String) (results : List Finished) (markers : List String)
    (topo : Topology) (stat : Option (ℕ × ℕ)) (file : List FileItem) (w : WorkList) {w' : WorkList}
    → IsConsistent w
    → turn world saves now results markers topo stat file w ≡ ok w'
    → IsConsistent w'
unfolding turn
turn-IsConsistent world saves now results markers topo stat file w c h =
    let taken = consume_aborts saves markers (reap now results w) in
    refreshed-IsConsistent world saves topo taken.1 taken.0 (refresh_items stat file taken.0)
      (λ v e.
        refresh_items-IsConsistent stat file taken.0
          (consume_aborts-IsConsistent saves markers (reap now results w)
            (reap-IsConsistent now results w c))
          e)
      h

Step-IsConsistent : {w w' : WorkList} → Step w w' → IsConsistent w → IsConsistent w'
Step-IsConsistent {w} (turns world saves now results markers topo stat file h) c =
    turn-IsConsistent world saves now results markers topo stat file w c h
Step-IsConsistent {w} (finishes now r h) c = rw h (finish-IsConsistent now r w c)
Step-IsConsistent {w} (adds writes item h) c = add-IsConsistent writes item w c h
Step-IsConsistent {w} (removes writes saves id h) c = remove-IsConsistent writes saves id w c h
Step-IsConsistent {w} (aborts saves id fl h) c = abort_begin-IsConsistent saves id w c h
Step-IsConsistent {w} (abort_ends id h) c = rw h (abort_end-IsConsistent id w c)
Step-IsConsistent {w} (retries saves id h) c = retry-IsConsistent saves id w c h

Reach-IsConsistent : {s w : WorkList} → Reach s w → IsConsistent s → IsConsistent w
Reach-IsConsistent here c = c
Reach-IsConsistent (next r st) c = Step-IsConsistent st (Reach-IsConsistent r c)

-- From the list that a start makes, over the recovered records, every sequence of turns, results and
-- API operations leads to a list in which an item is recorded running on a node exactly when it is
-- in flight on that node, and each flight carries the item that it is filed under.
pub run-IsConsistent :
    (now : String) (items : List Item) (file : List FileItem) (records : Map ItemState)
    (modified size : ℕ) (s w : WorkList)
    → new_work_list (ok items) file (recover now records) modified size ≡ ok s
    → Reach s w
    → IsConsistent w
run-IsConsistent now items file records modified size s w h r = Reach-IsConsistent r (
    new_work_list-IsConsistent items file (recover now records) modified size
      (λ id. recover_quiet now id records) h)
