-- ===== src/Orchestrator/WorkList/Api/Keeps.antt =====
-- The API's operations keep records and flights in agreement (internal/orchestrator/worklist.go).
use spinloop.Prelude.{
  String, Bool, true, false, ◌≡◌, refl, Option, none, some, arith, is_some, eq_iff,
}
use spinloop.Prelude.Map.{lookup, delete, has, lookup-delete}
use spinloop.Prelude.Result.{Result, ok, err}
use spinloop.Orchestrator.Items.{Item, Fault, check_item, file_item_from_item}
use spinloop.Orchestrator.Store.{ItemState}
use spinloop.Orchestrator.WorkList.{WorkList, Flight, save, detach}
use spinloop.Orchestrator.WorkList.Consistent.{IsConsistent, runs_on, flies_on, detach-IsConsistent}
use spinloop.Orchestrator.WorkList.Api.{
  add, add_checked, remove, abort_begin, abort_detached, abort_end, retry, state_of, is_failed,
}

add_checked-IsConsistent :
    (writes : Bool) (item : Item) (r : Result Fault (Unit {0})) (w : WorkList) {w' : WorkList}
    → IsConsistent w
    → add_checked writes item r w ≡ ok w'
    → IsConsistent w'
unfolding add_checked
add_checked-IsConsistent writes item (err f) w c h = cc
add_checked-IsConsistent writes item (ok _) w c h = record {
  agrees = λ id. ground (arith, c.agrees id);
  named = λ id. ground (arith, c.named id);
}

pub add-IsConsistent :
    (writes : Bool) (item : Item) (w : WorkList) {w' : WorkList}
    → IsConsistent w
    → add writes item w ≡ ok w'
    → IsConsistent w'
unfolding add
add-IsConsistent writes item w c h =
    add_checked-IsConsistent writes item (check_item (file_item_from_item item)) w c (ground arith)

-- A record may go where no flight is.
drop_record-IsConsistent :
    (id : String) (w : WorkList)
    → IsConsistent w
    → has id w.inflight ≡ false
    → IsConsistent (record w { records = delete id w.records })
drop_record-IsConsistent id w c h = record {
  agrees = λ k. ground (arith, c.agrees k, lookup-delete id k w.records, eq_iff id k);
  named = c.named;
}

-- Only the records and the flights count.
IsConsistent-same :
    (v w : WorkList)
    → w.records ≡ v.records
    → w.inflight ≡ v.inflight
    → IsConsistent v
    → IsConsistent w
IsConsistent-same v w r f c = record {
  agrees = λ id. rw (r, f) (c.agrees id);
  named = λ id. rw f (c.named id);
}

remove_effect :
    (writes saves : Bool) (id : String) (w : WorkList) {w' : WorkList}
    → remove writes saves id w ≡ ok w'
    → (has id w.inflight ≡ false) × (w'.records ≡ delete id w.records) × (w'.inflight ≡ w.inflight)
unfolding remove save
remove_effect writes saves id w h = ground arith

pub remove-IsConsistent :
    (writes saves : Bool) (id : String) (w : WorkList) {w' : WorkList}
    → IsConsistent w
    → remove writes saves id w ≡ ok w'
    → IsConsistent w'
remove-IsConsistent writes saves id w {w' = w'} c h =
    let (absent, records, flights) = remove_effect writes saves id w h in
    IsConsistent-same _ w' records flights (drop_record-IsConsistent id w c absent)

retry_effect :
    (saves : Bool) (id : String) (w : WorkList) {w' : WorkList}
    → retry saves id w ≡ ok w'
    → (is_failed (state_of (lookup id w.records)) ≡ true)
      × (w'.records ≡ delete id w.records)
      × (w'.inflight ≡ w.inflight)
unfolding retry save
retry_effect saves id w h = ground arith

failed_absent :
    (o : Option ItemState) (f : Option Flight)
    → is_failed (state_of o) ≡ true
    → runs_on o ≡ flies_on f
    → is_some f ≡ false
failed_absent o f h e = ground arith

pub retry-IsConsistent :
    (saves : Bool) (id : String) (w : WorkList) {w' : WorkList}
    → IsConsistent w
    → retry saves id w ≡ ok w'
    → IsConsistent w'
retry-IsConsistent saves id w {w' = w'} c h =
    let (f, records, flights) = retry_effect saves id w h in
    IsConsistent-same _ w' records flights (
      drop_record-IsConsistent id w c
        (failed_absent (lookup id w.records) (lookup id w.inflight) f (c.agrees id)))

abort_detached-IsConsistent :
    (id : String) (w : WorkList) (o : Option (Flight × WorkList)) {fl : Flight} {w' : WorkList}
    → ((f : Flight) (v : WorkList) → o ≡ some (f, v) → IsConsistent v)
    → abort_detached id w o ≡ ok (fl, w')
    → IsConsistent w'
unfolding abort_detached
abort_detached-IsConsistent id w none c h = ground arith
abort_detached-IsConsistent id w (some (f, v)) c h =
    let k : IsConsistent v = c f v refl in
    record { agrees = λ j. ground (arith, k.agrees j); named = λ j. ground (arith, k.named j) }

pub abort_begin-IsConsistent :
    (saves : Bool) (id : String) (w : WorkList) {fl : Flight} {w' : WorkList}
    → IsConsistent w
    → abort_begin saves id w ≡ ok (fl, w')
    → IsConsistent w'
unfolding abort_begin
abort_begin-IsConsistent saves id w c h =
    abort_detached-IsConsistent id w (detach saves id w)
      (λ f v e. detach-IsConsistent saves id w c e) h

pub abort_end-IsConsistent :
    (id : String) (w : WorkList) → IsConsistent w → IsConsistent (abort_end id w)
unfolding abort_end
abort_end-IsConsistent id w c = record { agrees = c.agrees; named = c.named }
