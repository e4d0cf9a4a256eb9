-- ===== src/Fleet/Select/Chosen.antt =====
-- What a choice is, and what each refusal says of the fleet (`choose` of internal/fleet/select.go).
use mathlib.Core.List.{Perm}
use mathlib.Core.List.Perm
use spinloop.Prelude.{
  String, Bool, true, false, not, ◌≡◌, refl, List, [], ◌∷◌, Option, none, some, arith, str_eq,
  keep_if, All, ◌&&◌, Bool-cases, inl, inr, sym,
}
use spinloop.Prelude.Result.{Result, ok, err, Result-cases}
use spinloop.Prelude.Sort.Order.{IsSorted}
use spinloop.Fleet.Tags.{is_empty}
use spinloop.Fleet.Answer.{NodeResult, is_answered, is_up, ready_no}
use spinloop.Fleet.Config.{Config}
use spinloop.Fleet.Endpoint.{engine_base_url, engine_key_for}
use spinloop.Fleet.Select.{
  World, Want, Candidate, Choice, SelectError, none_serving, unanswered, serves_other,
  still_starting, unreachable_engine, no_key, unknown_node, candidates, running, rank, before,
  matches, serving_names, wanted, preference_of, pinned_refusal, refusal_of_pin, best_of,
  choice_for, choose, unless_refused,
}
use spinloop.Fleet.Select.Ranking.{rank-perm, rank-IsSorted}

-- The node answered, its engine is up and does not call itself not ready, and it serves what is
-- wanted.
abbrev pub serves : Want → Candidate → Bool
serves w c =
    is_answered c.result
    && (is_up c.result.status
        && (not (str_eq c.result.status.ready ready_no)
            && matches w (serving_names c.result.status)))

running-keep_if : (w : Want) (cands : List Candidate) → running w cands ≡ keep_if (serves w) cands
unfolding running
running-keep_if w [] = refl
running-keep_if w (c ∷ cands) = ground (arith, running-keep_if w cands)

-- The node serves, and no other that serves goes before it.
pub record IsBest (w : Want) (cands : List Candidate) (best : Candidate) : Type 0 where
  pub others : List Candidate
  pub all : Perm (best ∷ others) (keep_if (serves w) cands)
  pub first : All (λ d. before (preference_of w) d best ≡ false) others

-- The node that a launch is pinned to.
pub record IsPinned (w : Want) (cands : List Candidate) (only : Candidate) (name : String)
    : Type 0 where
  pub alone : cands ≡ only ∷ []
  pub pinned : is_empty w.node ≡ false
  pub named : name ≡ only.entry.name

-- What an answer of `choose` says of the candidates.
abbrev pub Verdict :
    World → Config → List NodeResult → Want → List Candidate → Result SelectError Choice → Type 0
Verdict world c results w cands (ok choice) =
    (best : Candidate) × IsBest w cands best
    × (choice.node ≡ best.entry)
    × (choice.woken ≡ false)
    × (engine_base_url world.parsers c best.entry best.result.status ≡ ok choice.base_url)
    × (engine_key_for world.env c best.entry best.result.status ≡ ok choice.api_key)
Verdict world c results w cands (err (none_serving rs v path)) =
    (keep_if (serves w) cands ≡ []) × (rs ≡ results) × (v ≡ w) × (path ≡ c.path)
Verdict world c results w cands (err (unanswered name r)) =
    (only : Candidate) × IsPinned w cands only name
    × (r ≡ only.result)
    × (is_answered only.result ≡ false)
Verdict world c results w cands (err (serves_other name model what)) =
    (only : Candidate) × IsPinned w cands only name
    × (what ≡ wanted w)
    × (model ≡ only.result.status.model)
    × (is_up only.result.status ≡ true)
    × (matches w (serving_names only.result.status) ≡ false)
Verdict world c results w cands (err (still_starting name what)) =
    (only : Candidate) × IsPinned w cands only name
    × (what ≡ wanted w)
    × (is_up only.result.status ≡ true)
    × (matches w (serving_names only.result.status) ≡ true)
    × (str_eq only.result.status.ready ready_no ≡ true)
Verdict world c results w cands (err (unreachable_engine e)) =
    (best : Candidate) × IsBest w cands best
    × (engine_base_url world.parsers c best.entry best.result.status ≡ err e)
Verdict world c results w cands (err (no_key e)) =
    (best : Candidate) × IsBest w cands best
    × (engine_key_for world.env c best.entry best.result.status ≡ err e)
Verdict world c results w cands (err (unknown_node e)) = ⊥

module _ (world : World) (c : Config) (results : List NodeResult) (w : Want) where
  -- A refusal of a pinned node is one of those three, where there is one.
  Refused : List Candidate → Option SelectError → Type 0
  Refused cands none = Unit {0}
  Refused cands (some e) = Verdict world c results w cands (err e)

  pinned_refusal-Refused :
      (only : Candidate) → is_empty w.node ≡ false → Refused (only ∷ []) (pinned_refusal w only)
  unfolding pinned_refusal Refused
  pinned_refusal-Refused only p = elim (Bool-cases (is_answered only.result)) [
    | inr a ↦ rw a (only, pin, refl, a)
    | inl a ↦ elim (Bool-cases (is_up only.result.status)) [
      | inr u ↦ rw (a, u) tt
      | inl u ↦ elim (Bool-cases (matches w (serving_names only.result.status))) [
        | inr m ↦ rw (a, u, m) (only, pin, refl, refl, u, m)
        | inl m ↦ elim (Bool-cases (str_eq only.result.status.ready ready_no)) [
          | inr r ↦ rw (a, u, m, r) tt
          | inl r ↦ rw (a, u, m, r) (only, pin, refl, u, m, r)
        ]
      ]
    ]
  ]
    where
      pin : IsPinned w (only ∷ []) only only.entry.name
      pin = record { alone = refl; pinned = p; named = refl }

  refusal_of_pin-Refused : (cands : List Candidate) → Refused cands (refusal_of_pin w cands)
  unfolding Refused
  refusal_of_pin-Refused [] = tt
  refusal_of_pin-Refused (x ∷ y ∷ cands) = tt
  refusal_of_pin-Refused (only ∷ []) = elim (Bool-cases (is_empty w.node)) [
    | inl p ↦ rw p tt
    | inr p ↦ rw p (pinned_refusal-Refused only p)
  ]

  choice_for-Verdict :
      (cands : List Candidate) (best : Candidate)
      → IsBest w cands best
      → Verdict world c results w cands (choice_for world c best w false "")
  unfolding choice_for
  choice_for-Verdict cands best b =
      elim (Result-cases (engine_base_url world.parsers c best.entry best.result.status)) [
        | inr (e, p) ↦ rw p (best, b, p)
        | inl (url, p) ↦
            elim (Result-cases (engine_key_for world.env c best.entry best.result.status)) [
              | inr (e, q) ↦ rw (p, q) (best, b, q)
              | inl (key, q) ↦ rw (p, q) (best, b, refl, refl, p, q)
            ]
      ]

  best_of-Verdict :
      (cands ranked : List Candidate)
      → Perm ranked (keep_if (serves w) cands)
      → IsSorted (before (preference_of w)) ranked
      → Verdict world c results w cands (best_of world c results w ranked)
  best_of-Verdict cands [] p s = (sym (Perm.nil-eq p), refl, refl, refl)
  best_of-Verdict cands (best ∷ others) p s =
      choice_for-Verdict cands best (record { others = others; all = p; first = s.0 })

-- The node that is chosen answered, runs an engine that is not known to be loading, serves what is
-- wanted, and no other node of that kind goes before it in the preference; the address and the key
-- are those of that node. That none serves is said only of a fleet where none does, with what was
-- asked. A node that the launch is pinned to is refused for itself only when it did not answer, runs
-- something else or is still loading, and the refusal names it. A failure to find an address or a
-- key is that of the best node.
pub choose-Verdict :
    (world : World) (c : Config) (results : List NodeResult) (w : Want)
    → Verdict world c results w (candidates c results) (choose world c results w)
unfolding choose Refused
choose-Verdict world c results w =
    go (refusal_of_pin w cands) (refusal_of_pin-Refused world c results w cands)
  where
    cands : List Candidate
    cands = candidates c results

    go :
        (o : Option SelectError)
        → Refused world c results w cands o
        → Verdict world c results w cands (
            unless_refused o (best_of world c results w (rank (preference_of w) (running w cands))))
    go (some e) h = h
    go none h =
        best_of-Verdict world c results w cands _ (rw (← running-keep_if w cands) (rank-perm _ _))
          (rank-IsSorted _ _)
