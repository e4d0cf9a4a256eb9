-- ===== src/Orchestrator/WorkList/Finish.antt =====
-- What the results of finished children do to the list (internal/orchestrator/worklist.go).
use spinloop.Prelude.{
  String, ◌≡◌, refl, List, [], ◌∷◌, Option, none, some, arith, str_eq, eq_iff, if◌then◌else◌,
  Bool-cases, inl, inr, ◌∙◌, true, false, sym, ap, subst,
}
use spinloop.Prelude.Map.{lookup, lookup-delete, lookup-put}
use spinloop.Orchestrator.Store.{ItemState, done, failed}
use spinloop.Orchestrator.WorkList.{
  WorkList, Flight, Finished, outcome, finish, finish_flight, reap,
}

-- What a child that ended well, or with an error, leaves of its item.
abbrev pub Verdict : Option String → ItemState → Type 0
Verdict none st = (st.state ≡ done) × (st.why ≡ "")
Verdict (some e) st = (st.state ≡ failed) × (st.why ≡ e)

-- The record of an item whose child has ended.
abbrev pub Recorded : String → Flight → Option String → Option ItemState → Type 0
Recorded now fl failure none = ⊥
Recorded now fl failure (some st) =
    Verdict failure st × (st.node ≡ fl.node.name) × (st.ended_at ≡ now)

-- The first result of the item, with the error of its wait.
abbrev pub first_result : String → List Finished → Option Finished
first_result id [] = none
first_result id (r ∷ results) =
    let rest = first_result id results in if str_eq r.id id then some r else rest

-- An item is as it was.
abbrev pub Untouched : String → WorkList → WorkList → Type 0
Untouched id w w' =
    (lookup id w'.inflight ≡ lookup id w.inflight) × (lookup id w'.records ≡ lookup id w.records)

-- What becomes of an item, by its flight before and its first result.
abbrev pub Reaped : String → String → Option Finished → Option Flight → WorkList → WorkList → Type 0
Reaped now id (some r) (some fl) w w' =
    (lookup id w'.inflight ≡ none) × Recorded now fl r.failure (lookup id w'.records)
Reaped now id none o w w' = Untouched id w w'
Reaped now id (some r) none w w' = Untouched id w w'

outcome-Recorded :
    (now : String) (fl : Flight) (failure : Option String)
    → Recorded now fl failure (some (outcome now fl.node failure))
outcome-Recorded now fl none = ((refl, refl), refl, refl)
outcome-Recorded now fl (some e) = ((refl, refl), refl, refl)

finish_elsewhere :
    (now : String) (r : Finished) (id : String) (w : WorkList) (o : Option Flight)
    → str_eq r.id id ≡ false
    → Untouched id w (finish_flight now r o w)
unfolding finish_flight
finish_elsewhere now r id w none h = (refl, refl)
finish_elsewhere now r id w (some fl) h = (
  ground (arith, lookup-delete r.id id w.inflight),
  ground (arith, lookup-put r.id id (outcome now fl.node r.failure) w.records),
)

finish-idle :
    (now : String) (r : Finished) (id : String) (w : WorkList)
    → lookup id w.inflight ≡ none
    → Untouched id w (finish now r w)
unfolding finish finish_flight
finish-idle now r id w h = elim (Bool-cases (str_eq r.id id)) [
  | inl e ↦
      let found = ap (λ k. lookup k w.inflight) ((eq_iff r.id id).0 e) ∙ h in rw found (refl, refl)
  | inr e ↦ finish_elsewhere now r id w (lookup r.id w.inflight) e
]

finish_own :
    (now : String) (r : Finished) (id : String) (w : WorkList) (fl : Flight)
    → str_eq r.id id ≡ true
    → lookup id w.inflight ≡ some fl
    → (lookup id (finish now r w).inflight ≡ none)
      × (lookup id (finish now r w).records ≡ some (outcome now fl.node r.failure))
unfolding finish finish_flight
finish_own now r id w fl e h =
    let found = ap (λ k. lookup k w.inflight) ((eq_iff r.id id).0 e) ∙ h in
    rw found (
      ground (arith, lookup-delete r.id id w.inflight),
      ground (arith, lookup-put r.id id (outcome now fl.node r.failure) w.records),
    )

-- What leaves an item as it was, and then leaves it again.
both : (id : String) (u v w : WorkList) → Untouched id u v → Untouched id v w → Untouched id u w
both id u v w h k = (k.0 ∙ h.0, k.1 ∙ h.1)

reap-idle :
    (now : String) (results : List Finished) (id : String) (w : WorkList)
    → lookup id w.inflight ≡ none
    → Untouched id w (reap now results w)
unfolding reap
reap-idle now [] id w h = (refl, refl)
reap-idle now (r ∷ results) id w h =
    let k = finish-idle now r id w h in
    both id w (finish now r w) (reap now results (finish now r w)) k
      (reap-idle now results id (finish now r w) (k.0 ∙ h))

reap-unnamed :
    (now : String) (results : List Finished) (id : String) (w : WorkList)
    → first_result id results ≡ none
    → Untouched id w (reap now results w)
unfolding reap
reap-unnamed now [] id w h = (refl, refl)
reap-unnamed now (r ∷ results) id w h =
    both id w (finish now r w) (reap now results (finish now r w))
      (unfold finish in finish_elsewhere now r id w (lookup r.id w.inflight) (ground arith))
      (reap-unnamed now results id (finish now r w) (ground arith))

-- What a result leaves of the item in flight that it is of.
reap-flight :
    (now : String) (results : List Finished) (id : String) (w : WorkList) (r : Finished)
    (fl : Flight)
    → first_result id results ≡ some r
    → lookup id w.inflight ≡ some fl
    → (lookup id (reap now results w).inflight ≡ none)
      × (lookup id (reap now results w).records ≡ some (outcome now fl.node r.failure))
unfolding reap
reap-flight now [] id w r fl h k = ground arith
reap-flight now (q ∷ results) id w r fl h k = elim (Bool-cases (str_eq q.id id)) [
  | inl e ↦
      let own = finish_own now q id w fl e k in
      let kept = reap-idle now results id (finish now q w) own.0 in
      let same : q ≡ r = ground arith in
      (kept.0 ∙ own.0, kept.1 ∙ own.1 ∙ ap (λ x. some (outcome now fl.node x.failure)) same)
  | inr e ↦
      let kept : Untouched id w (finish now q w) =
        unfold finish in finish_elsewhere now q id w (lookup q.id w.inflight) e in
      reap-flight now results id (finish now q w) r fl (ground arith) (kept.0 ∙ k)
]

-- The results that a turn takes up decide each item in flight by its first one: the item's slot is
-- free, and it is recorded done where the child had no error and failed with the error's text where
-- it had, on the node of its flight and as ended now. An item with no result, or that is not in
-- flight, keeps its flight and its record, whatever its results say.
pub reap-Reaped :
    (now : String) (results : List Finished) (id : String) (w : WorkList)
    → Reaped now id (first_result id results) (lookup id w.inflight) w (reap now results w)
reap-Reaped now results id w = go (first_result id results) (lookup id w.inflight) refl refl
  where
    go :
        (f : Option Finished) (o : Option Flight)
        → first_result id results ≡ f
        → lookup id w.inflight ≡ o
        → Reaped now id f o w (reap now results w)
    go none o h k = reap-unnamed now results id w h
    go (some r) none h k = reap-idle now results id w k
    go (some r) (some fl) h k =
        let (gone, recorded) = reap-flight now results id w r fl h k in
        (gone, subst (Recorded now fl r.failure) (sym recorded) (outcome-Recorded now fl r.failure))
