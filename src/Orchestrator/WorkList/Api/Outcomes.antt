-- ===== src/Orchestrator/WorkList/Api/Outcomes.antt =====
-- Each API operation on every branch (internal/orchestrator/worklist.go).
use spinloop.Prelude.{
  String, Bool, true, false, ◌≡◌, ◌≢◌, refl, List, [], ◌∷◌, ◌++◌, map, none, some, arith, ap,
  eq_iff, is_some, ◌||◌, if◌then◌else◌,
}
use spinloop.Prelude.Map.{lookup, delete, put, has, lookup-delete, lookup-put}
use spinloop.Prelude.Result.{Result, ok, err}
use spinloop.Fleet.Tags.{is_empty, contains}
use spinloop.Orchestrator.Items.{Item, check_item, file_item_from_item}
use spinloop.Orchestrator.Store.{failed}
use spinloop.Orchestrator.WorkList.{
  WorkList, Flight, carries, ended_record, held_back, save, detach, detach_flight,
}
use spinloop.Orchestrator.WorkList.Api.{
  Refusal, invalid, already_carried, already_ended, is_in_flight, is_not_running, is_not_failed,
  missing, write_failed, state_of, add, add_checked, without, remove, abort_begin, abort_detached,
  abort_end, retry,
}

-- What `Retry` did, or why it did not.
abbrev pub Retried : String → WorkList → Result Refusal WorkList → Type 0
Retried id w (ok w') =
    (carries w.items id ≡ true)
    × (state_of (lookup id w.records) ≡ failed)
    × (w'.records ≡ delete id w.records)
    × (w'.inflight ≡ w.inflight)
    × (w'.items ≡ w.items)
    × (w'.file ≡ w.file)
Retried id w (err (missing i)) = (i ≡ id) × (carries w.items id ≡ false)
Retried id w (err (is_not_failed i s)) =
    (i ≡ id) × (carries w.items id ≡ true) × (state_of (lookup id w.records) ≡ s) × (s ≢ failed)
Retried id w (err e) = ⊥

-- A retry is refused for an item that the file does not carry, or whose state, the backlog where it
-- has no record, is not failed, naming that state; otherwise the failed record goes and nothing else.
pub retry-Retried : (saves : Bool) (id : String) (w : WorkList) → Retried id w (retry saves id w)
unfolding retry save
retry-Retried saves id w = ground arith

-- What `Add` did, or why it did not.
abbrev pub Added : Bool → Item → WorkList → Result Refusal WorkList → Type 0
Added writes item w (ok w') =
    (writes ≡ true)
    × (is_empty item.id ≡ false)
    × (check_item (file_item_from_item item) ≡ ok tt)
    × (carries w.items item.id ≡ false)
    × (ended_record (lookup item.id w.records) ≡ false)
    × (w'.items ≡ w.items ++ item ∷ [])
    × (w'.file ≡ map file_item_from_item w'.items)
    × (w'.records ≡ w.records)
    × (w'.inflight ≡ w.inflight)
    × (w'.stopping ≡ w.stopping)
    × (w'.stored ≡ w.stored)
Added writes item w (err (invalid none)) = is_empty item.id ≡ true
Added writes item w (err (invalid (some f))) =
    (is_empty item.id ≡ false) × (check_item (file_item_from_item item) ≡ err f)
Added writes item w (err (already_carried i)) =
    (i ≡ item.id) × (check_item (file_item_from_item item) ≡ ok tt) × (carries w.items i ≡ true)
Added writes item w (err (already_ended i s)) =
    (i ≡ item.id)
    × (check_item (file_item_from_item item) ≡ ok tt)
    × (carries w.items i ≡ false)
    × (ended_record (lookup i w.records) ≡ true)
    × (state_of (lookup i w.records) ≡ s)
Added writes item w (err write_failed) =
    (writes ≡ false)
    × (is_empty item.id ≡ false)
    × (check_item (file_item_from_item item) ≡ ok tt)
    × (carries w.items item.id ≡ false)
    × (ended_record (lookup item.id w.records) ≡ false)
Added writes item w (err e) = ⊥

-- What `Remove` did, or why it did not.
abbrev pub Removed : String → WorkList → Result Refusal WorkList → Type 0
Removed id w (ok w') =
    (has id w.inflight ≡ false)
    × (carries w.items id ≡ true)
    × (w'.items ≡ without id w.items)
    × (w'.file ≡ map file_item_from_item w'.items)
    × (w'.records ≡ delete id w.records)
    × (w'.inflight ≡ w.inflight)
Removed id w (err (is_in_flight i)) = (i ≡ id) × (has id w.inflight ≡ true)
Removed id w (err (missing i)) =
    (i ≡ id) × (has id w.inflight ≡ false) × (carries w.items id ≡ false)
Removed id w (err write_failed) = (has id w.inflight ≡ false) × (carries w.items id ≡ true)
Removed id w (err e) = ⊥

-- An item in flight is not removed, nor is one that the file does not carry; any other goes from the
-- list, from the file and from the records, where the file can be written.
pub remove-Removed :
    (writes saves : Bool) (id : String) (w : WorkList) → Removed id w (remove writes saves id w)
unfolding remove save
remove-Removed writes saves id w = ground arith

carries-without : (id : String) (items : List Item) → carries (without id items) id ≡ false
carries-without id [] = refl
carries-without id (it ∷ items) = ground (arith, carries-without id items)

add_checked-valid :
    (item : Item) (w : WorkList)
    → carries w.items item.id ≡ false
    → lookup item.id w.records ≡ none
    → add_checked true item (ok tt) w
      ≡ ok (record w {
        items = w.items ++ item ∷ [];
        file = map file_item_from_item w.items ++ file_item_from_item item ∷ [];
      })
unfolding add_checked
add_checked-valid item w c l = rw (c, l)

-- Once an item was removed, an item of that id with valid fields may be added again, also where the
-- removed one had ended: the list is then that of the others with the new item behind them.
pub add-remove :
    (saves : Bool) (item : Item) (w w' : WorkList)
    → remove true saves item.id w ≡ ok w'
    → is_empty item.id ≡ false
    → check_item (file_item_from_item item) ≡ ok tt
    → (v : WorkList) × (add true item w' ≡ ok v)
      × (v.items ≡ without item.id w.items ++ item ∷ [])
      × (lookup item.id v.records ≡ none)
unfolding add
add-remove saves item w w' h e valid = (
  record w' {
    items = w'.items ++ item ∷ [];
    file = map file_item_from_item w'.items ++ file_item_from_item item ∷ [];
  },
  rw (e, valid) (add_checked-valid item w' (rw (gone.2) (carries-without item.id w.items)) cleared),
  ap (λ (l : List Item). l ++ item ∷ []) gone.2,
  cleared,
)
  where
    gone :
        (has item.id w.inflight ≡ false)
        × (carries w.items item.id ≡ true)
        × (w'.items ≡ without item.id w.items)
        × (w'.file ≡ map file_item_from_item w'.items)
        × (w'.records ≡ delete item.id w.records)
        × (w'.inflight ≡ w.inflight)
    gone = rw h at (remove-Removed true saves item.id w)

    cleared : lookup item.id w'.records ≡ none
    cleared =
        rw (gone.4)
          (ground (arith, lookup-delete item.id item.id w.records, eq_iff item.id item.id))

-- What the first half of `Abort` did, or why it did not.
abbrev pub Aborted : Bool → String → WorkList → Result Refusal (Flight × WorkList) → Type 0
Aborted saves id w (ok (fl, w')) =
    (lookup id w.inflight ≡ some fl)
    × (w'.inflight ≡ delete id w.inflight)
    × (w'.records ≡ delete id w.records)
    × (w'.items ≡ w.items)
    × (w'.stopping ≡ put id tt w.stopping)
    × (w'.file ≡ w.file)
    × (w'.stored ≡ (if saves then w'.records else w.stored))
Aborted saves id w (err (is_not_running i s)) =
    (i ≡ id)
    × (lookup id w.inflight ≡ none)
    × ((is_some (lookup id w.records) || carries w.items id) ≡ true)
    × (state_of (lookup id w.records) ≡ s)
Aborted saves id w (err (missing i)) =
    (i ≡ id)
    × (lookup id w.inflight ≡ none)
    × (lookup id w.records ≡ none)
    × (carries w.items id ≡ false)
Aborted saves id w (err e) = ⊥

-- An abort of an item in flight hands over its flight, takes it out of the flights and the records,
-- stores the records where they can be saved, and marks the item as being stopped. Any other is
-- refused: with its state where the item has a record or the file carries it, and as missing exactly
-- where neither is so.
pub abort_begin-Aborted :
    (saves : Bool) (id : String) (w : WorkList) → Aborted saves id w (abort_begin saves id w)
unfolding abort_begin abort_detached detach detach_flight save
abort_begin-Aborted saves id w = ground arith

-- An item that is being aborted is held back from every pass until the abort has ended, and then it
-- is in the backlog again: nothing but a marker holds it back.
pub abort_holds_back :
    (saves : Bool) (id : String) (w w' : WorkList) (fl : Flight) (suppressed : List String)
    → abort_begin saves id w ≡ ok (fl, w')
    → (held_back suppressed w' id ≡ true)
      × (held_back suppressed (abort_end id w') id ≡ contains id suppressed)
unfolding abort_end
abort_holds_back saves id w w' fl suppressed h =
    let a = rw h at (abort_begin-Aborted saves id w) in
    ground (
      arith,
      a,
      eq_iff id id,
      lookup-delete id id w.inflight,
      lookup-delete id id w.records,
      lookup-put id id tt w.stopping,
      lookup-delete id id (put id tt w.stopping),
    )
