-- ===== src/Fleet/Wakeable/Order.antt =====
-- Which nodes a wake tries, and in which order (`wakeable` of internal/fleet/wake.go).
use mathlib.Core.List.{Perm, perm_middle}
use mathlib.Core.List.Perm
use spinloop.Prelude.{
  String, Bool, true, not, ◌≡◌, refl, ap, List, [], ◌∷◌, ◌++◌, some, arith, All, Bool-cases,
  Option-cases, inl, inr, keep_if, ◌&&◌, eq_iff, str_eq,
}
use spinloop.Prelude.Map.{Map, lookup, put, lookup-put}
use spinloop.Fleet.Answer.{is_answered, is_up}
use spinloop.Fleet.Config.{NodeConfig}
use spinloop.Fleet.Select.{Candidate}
use spinloop.Fleet.Wakeable.{Resolved, startable, is_warm, resolve, split_wakeable, wakeable}

module _ (g : String → Resolved) where
  -- The configs that were resolved are those that resolving gives.
  Consistent : Map Resolved → Type 0
  Consistent seen = (name : String) (r : Resolved) → lookup name seen ≡ some r → r ≡ g name

  abbrev pub by_name : NodeConfig → Resolved
  by_name entry = g entry.name

  added :
      (seen : Map Resolved) (entry : NodeConfig)
      → Consistent seen
      → Consistent (put entry.name (g entry.name) seen)
  unfolding Consistent
  added seen entry h name r e = elim (Bool-cases (str_eq entry.name name)) [
    | inl q ↦
        ground (
          arith,
          lookup-put entry.name name (g entry.name) seen,
          ap g ((eq_iff entry.name name).0 q),
        )
    | inr q ↦ ground (arith, lookup-put entry.name name (g entry.name) seen, h name r)
  ]

  resolve-Consistent :
      (seen : Map Resolved) (entry : NodeConfig)
      → Consistent seen
      → ((resolve by_name seen entry).0 ≡ g entry.name) × Consistent (resolve by_name seen entry).1
  unfolding resolve Consistent
  resolve-Consistent seen entry h = elim (Option-cases (lookup entry.name seen)) [
    | inl n ↦ rw n (refl, λ name r e. added seen entry h name r e)
    | inr (r, e) ↦ rw e (h entry.name r e, h)
  ]

  abbrev pub holds_weights : Candidate → Bool
  holds_weights cand = is_warm cand.result.status (g cand.entry.name)

  split_wakeable-order :
      (seen : Map Resolved) (cands : List Candidate)
      → Consistent seen
      → ((split_wakeable by_name seen cands).0
          ≡ keep_if (λ cand. startable cand && holds_weights cand) cands)
        × ((split_wakeable by_name seen cands).1
            ≡ keep_if (λ cand. startable cand && not (holds_weights cand)) cands)
  unfolding split_wakeable
  split_wakeable-order seen [] h = (refl, refl)
  split_wakeable-order seen (cand ∷ cands) h =
      let (e, k) = resolve-Consistent seen cand.entry h in
      ground (
        arith,
        ap (λ (r : Resolved). is_warm cand.result.status r) e,
        split_wakeable-order seen cands h,
        split_wakeable-order (resolve by_name seen cand.entry).1 cands k,
      )

  -- With a config for each name, a wake tries the nodes that answered and run nothing in the file's
  -- order, those that hold the weights of their config before all that do not.
  pub wakeable-order :
      (cands : List Candidate)
      → (wakeable by_name cands).0
        ≡ keep_if (λ cand. startable cand && holds_weights cand) cands
          ++ keep_if (λ cand. startable cand && not (holds_weights cand)) cands
  unfolding Consistent lookup
  wakeable-order cands =
      let (warm, cold) = split_wakeable-order [] cands (λ name r e. absurd (cc)) in
      rw (warm, cold) refl

  split_wakeable-Consistent :
      (seen : Map Resolved) (cands : List Candidate)
      → Consistent seen
      → Consistent (split_wakeable by_name seen cands).2
  unfolding split_wakeable
  split_wakeable-Consistent seen [] h = h
  split_wakeable-Consistent seen (cand ∷ cands) h =
      let rest =
        split_wakeable-Consistent (resolve by_name seen cand.entry).1 cands
          (resolve-Consistent seen cand.entry h).1 in
      elim (Bool-cases (is_answered cand.result)) [
        | inr a ↦ rw a (split_wakeable-Consistent seen cands h)
        | inl a ↦ elim (Bool-cases (is_up cand.result.status)) [
          | inl u ↦ rw (a, u) (split_wakeable-Consistent seen cands h)
          | inr u ↦
              elim (Bool-cases (is_warm cand.result.status (resolve by_name seen cand.entry).0)) [
                | inl m ↦ rw (a, u, m) rest
                | inr m ↦ rw (a, u, m) rest
              ]
        ]
      ]

  -- Behind the ordering, the memo still gives each node its own config.
  pub wakeable-resolve :
      (cands : List Candidate) (entry : NodeConfig)
      → (resolve by_name (wakeable by_name cands).1 entry).0 ≡ g entry.name
  unfolding Consistent lookup
  wakeable-resolve cands entry =
      (resolve-Consistent _ entry (split_wakeable-Consistent [] cands (λ name r e. absurd (cc)))).0

module _ (fn : NodeConfig → Resolved) where
  pub split_wakeable-perm :
      (seen : Map Resolved) (cands : List Candidate)
      → Perm
          ((split_wakeable fn seen cands).0 ++ (split_wakeable fn seen cands).1)
          (keep_if startable cands)
  unfolding split_wakeable
  split_wakeable-perm seen [] = Perm.refl _
  split_wakeable-perm seen (cand ∷ cands) = elim (Bool-cases (is_answered cand.result)) [
    | inr a ↦ rw a (split_wakeable-perm seen cands)
    | inl a ↦ elim (Bool-cases (is_up cand.result.status)) [
      | inl u ↦ rw (a, u) (split_wakeable-perm seen cands)
      | inr u ↦ elim (Bool-cases (is_warm cand.result.status (resolve fn seen cand.entry).0)) [
        | inl m ↦
            rw (a, u, m) (Perm.cons cand (split_wakeable-perm (resolve fn seen cand.entry).1 cands))
        | inr m ↦
            rw (a, u, m)
              (Perm.trans (perm_middle _ _)
                (Perm.cons cand (split_wakeable-perm (resolve fn seen cand.entry).1 cands)))
      ]
    ]
  ]

  abbrev pub Startable : List Candidate → Type 0
  Startable cands = All (λ cand. startable cand ≡ true) cands

  pub split_wakeable-Startable :
      (seen : Map Resolved) (cands : List Candidate)
      → Startable (split_wakeable fn seen cands).0 × Startable (split_wakeable fn seen cands).1
  unfolding split_wakeable
  split_wakeable-Startable seen [] = (tt, tt)
  split_wakeable-Startable seen (cand ∷ cands) =
      let rest = split_wakeable-Startable (resolve fn seen cand.entry).1 cands in
      elim (Bool-cases (is_answered cand.result)) [
        | inr a ↦ rw a (split_wakeable-Startable seen cands)
        | inl a ↦ elim (Bool-cases (is_up cand.result.status)) [
          | inl u ↦ rw (a, u) (split_wakeable-Startable seen cands)
          | inr u ↦ elim (Bool-cases (is_warm cand.result.status (resolve fn seen cand.entry).0)) [
            | inl m ↦ rw (a, u, m) ((ground arith, rest.0), rest.1)
            | inr m ↦ rw (a, u, m) (rest.0, (ground arith, rest.1))
          ]
        ]
      ]
