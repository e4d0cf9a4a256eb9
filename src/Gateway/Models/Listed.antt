-- ===== src/Gateway/Models/Listed.antt =====
-- Which names the list of models has (`handleModels` of internal/gateway/gateway.go).
use mathlib.Core.List.{append_assoc, append-nil}
use spinloop.Prelude.{
  String, Bool, false, not, ◌≡◌, refl, List, [], ◌∷◌, ◌++◌, any, arith, ◌&&◌, ◌||◌, str_eq, eq_iff,
  Bool-cases, inl, inr, ap, sym, ◌∙◌,
}
use spinloop.Prelude.Map.{Map, lookup}
use spinloop.Fleet.Tags.{is_empty, contains}
use spinloop.Fleet.Answer.{NodeResult, is_answered, is_up}
use spinloop.Gateway.Models.{add_name, running_name, list_running, list_wakeable, text_of, models}

-- No name stands twice.
abbrev pub NoRepeats : List String → Type 0
NoRepeats [] = Unit {0}
NoRepeats (x ∷ xs) = (contains x xs ≡ false) × NoRepeats xs

-- A running node is asked for by that name.
abbrev pub runs_as : String → NodeResult → Bool
runs_as name r = is_answered r && (is_up r.status && str_eq (running_name r.status) name)

-- A node that runs nothing would be started for a request that names that.
abbrev pub starts_as : Map String → String → NodeResult → Bool
starts_as wakeable name r =
    is_answered r && (not (is_up r.status) && str_eq (text_of (lookup r.name wakeable)) name)

contains-snoc :
    (name x : String) (xs : List String)
    → contains name (xs ++ x ∷ []) ≡ contains name xs || str_eq x name
contains-snoc name x [] = ground arith
contains-snoc name x (y ∷ xs) = ground (arith, contains-snoc name x xs)

NoRepeats-snoc :
    (x : String) (xs : List String)
    → contains x xs ≡ false
    → NoRepeats xs
    → NoRepeats (xs ++ x ∷ [])
NoRepeats-snoc x [] h k = (refl, tt)
NoRepeats-snoc x (y ∷ xs) h k = (
  ground (arith, contains-snoc y x xs, eq_iff x y, eq_iff y x),
  NoRepeats-snoc x xs (ground arith) k.1,
)

add_name-NoRepeats :
    (name : String) (names : List String) → NoRepeats names → NoRepeats (add_name name names)
unfolding add_name
add_name-NoRepeats name names h = elim (Bool-cases (is_empty name || contains name names)) [
  | inl e ↦ rw e h
  | inr e ↦ rw e (NoRepeats-snoc name names (ground arith) h)
]

contains-add_name :
    (k name : String) (names : List String)
    → contains k (add_name name names) ≡ contains k names || (not (is_empty name) && str_eq name k)
unfolding add_name
contains-add_name k name names = ground (arith, contains-snoc k name names, eq_iff name k)

list_running-lem :
    (k : String) (results : List NodeResult) (names : List String)
    → contains k (list_running results names)
      ≡ contains k names || (not (is_empty k) && any (runs_as k) results)
unfolding list_running
list_running-lem k [] names = ground arith
list_running-lem k (r ∷ results) names = ground (
  arith,
  list_running-lem k results names,
  list_running-lem k results (add_name (running_name r.status) names),
  contains-add_name k (running_name r.status) names,
  eq_iff (running_name r.status) k,
  λ (e : running_name r.status ≡ k). ap is_empty e,
)

list_wakeable-lem :
    (wakeable : Map String) (k : String) (results : List NodeResult) (names : List String)
    → contains k (list_wakeable wakeable results names)
      ≡ contains k names || (not (is_empty k) && any (starts_as wakeable k) results)
unfolding list_wakeable
list_wakeable-lem wakeable k [] names = ground arith
list_wakeable-lem wakeable k (r ∷ results) names =
    let name = text_of (lookup r.name wakeable) in
    ground (
      arith,
      list_wakeable-lem wakeable k results names,
      list_wakeable-lem wakeable k results (add_name name names),
      contains-add_name k name names,
      eq_iff name k,
      λ (e : name ≡ k). ap is_empty e,
    )

list_running-NoRepeats :
    (results : List NodeResult) (names : List String)
    → NoRepeats names
    → NoRepeats (list_running results names)
unfolding list_running
list_running-NoRepeats [] names h = h
list_running-NoRepeats (r ∷ results) names h =
    elim (Bool-cases (not (is_answered r) || not (is_up r.status))) [
      | inl e ↦ rw e (list_running-NoRepeats results names h)
      | inr e ↦ rw e (
          list_running-NoRepeats results (add_name (running_name r.status) names)
            (add_name-NoRepeats (running_name r.status) names h))
    ]

list_wakeable-NoRepeats :
    (wakeable : Map String) (results : List NodeResult) (names : List String)
    → NoRepeats names
    → NoRepeats (list_wakeable wakeable results names)
unfolding list_wakeable
list_wakeable-NoRepeats wakeable [] names h = h
list_wakeable-NoRepeats wakeable (r ∷ results) names h =
    elim (Bool-cases (not (is_answered r) || is_up r.status)) [
      | inl e ↦ rw e (list_wakeable-NoRepeats wakeable results names h)
      | inr e ↦ rw e (
          list_wakeable-NoRepeats wakeable results
            (add_name (text_of (lookup r.name wakeable)) names)
            (add_name-NoRepeats (text_of (lookup r.name wakeable)) names h))
    ]

-- The first names stand before all that are added.
abbrev pub Extends : List String → List String → Type 0
Extends names more = (extra : List String) × (more ≡ names ++ extra)

add_name-Extends : (name : String) (names : List String) → Extends names (add_name name names)
unfolding add_name
add_name-Extends name names = elim (Bool-cases (is_empty name || contains name names)) [
  | inl e ↦ rw e ([], sym (append-nil names))
  | inr e ↦ rw e (name ∷ [], refl)
]

list_wakeable-Extends :
    (wakeable : Map String) (results : List NodeResult) (names : List String)
    → Extends names (list_wakeable wakeable results names)
unfolding list_wakeable
list_wakeable-Extends wakeable [] names = ([], sym (append-nil names))
list_wakeable-Extends wakeable (r ∷ results) names =
    elim (Bool-cases (not (is_answered r) || is_up r.status)) [
      | inl e ↦ rw e (list_wakeable-Extends wakeable results names)
      | inr e ↦
          let name = text_of (lookup r.name wakeable) in
          let (first, p) = add_name-Extends name names in
          let (more, q) = list_wakeable-Extends wakeable results (add_name name names) in
          rw e (first ++ more, q ∙ ap (λ l. l ++ more) p ∙ append_assoc names first more)
    ]

-- The list has each name once and the empty name never. It has the name of every running node that
-- answered, its served name where it has one, and of every node that answered and runs nothing the
-- name that it would be started with, where there is one; it has no other name, and the names of
-- running nodes stand first.
pub models-lem :
    (results : List NodeResult) (wakeable : Map String)
    → NoRepeats (models results wakeable)
      × ((k : String)
          → contains k (models results wakeable)
            ≡ not (is_empty k) && (any (runs_as k) results || any (starts_as wakeable k) results))
      × Extends (list_running results []) (models results wakeable)
unfolding models
models-lem results wakeable = (
  list_wakeable-NoRepeats wakeable results _ (list_running-NoRepeats results [] tt),
  λ k. ground (
    arith,
    list_wakeable-lem wakeable k results (list_running results []),
    list_running-lem k results [],
  ),
  list_wakeable-Extends wakeable results (list_running results []),
)
