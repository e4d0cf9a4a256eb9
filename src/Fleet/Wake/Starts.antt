-- ===== src/Fleet/Wake/Starts.antt =====
-- The nodes on which a wake starts an engine (internal/fleet/wake.go).
use spinloop.Prelude.{String, List, [], ◌∷◌, ◌++◌, arith, All, All-append, inl, inr, Bool-cases}
use spinloop.Prelude.Map.{Map}
use spinloop.Prelude.Result.{Result, ok, err}
use spinloop.Fleet.Answer.{NodeResult, StatusResponse}
use spinloop.Fleet.Config.{NodeConfig, Config, node_wakes}
use spinloop.Fleet.Wakeable.{Resolved, resolve, split_wakeable}
use spinloop.Fleet.Select.{Want, World, Candidate, Choice, candidates}
use spinloop.Fleet.Wake.{
  Nodes, Attempt, Woken, Refusal, WakeError, WakeFailure, waking_disabled, fatal, plain, Prepared,
  passed_over, ended, ready_to_start, tried, taken, prepared, wake_each, wake_some, wake,
}

module _ (P : NodeConfig → Type 0) where
  -- Every start is of such a node.
  abbrev pub Starts : Woken → Type 0
  Starts out = All (λ a. P a.candidate.entry) out.0

  abbrev pub Entries : List Candidate → Type 0
  Entries = All (λ cand. P cand.entry)

  module _ (world : World) (c : Config) (nodes : Nodes) (fn : NodeConfig → Resolved)
      (w : Want) where
    tried-Starts :
        (a : Attempt) (done : StatusResponse → Result WakeError Choice) (next : Refusal → Woken)
        (r : Result WakeFailure StatusResponse)
        → P a.candidate.entry
        → ((e : Refusal) → Starts (next e))
        → Starts (tried a done next r)
    tried-Starts a done next (ok status) p h = (p, tt)
    tried-Starts a done next (err (fatal e)) p h = (p, tt)
    tried-Starts a done next (err (plain e)) p h = (p, h _)

    taken-Starts :
        (cand : Candidate) (next : Refusal → Woken) (r : Prepared)
        → P cand.entry
        → ((e : Refusal) → Starts (next e))
        → Starts (taken world c nodes cand w next r)
    taken-Starts cand next (passed_over e) p h = h e
    taken-Starts cand next (ended e) p h = tt
    taken-Starts cand next (ready_to_start dc key) p h = tried-Starts _ _ next _ p h

    wake_each-Starts :
        (seen : Map Resolved) (refused : List (String × Refusal)) (cands : List Candidate)
        → Entries cands
        → Starts (wake_each world c nodes fn w seen refused cands)
    unfolding wake_each
    wake_each-Starts seen refused [] h = tt
    wake_each-Starts seen refused (cand ∷ cands) h = elim (Bool-cases (node_wakes c cand.entry)) [
      | inl e ↦ rw e (
          taken-Starts cand _ (prepared world c nodes cand.entry (resolve fn seen cand.entry).0) h.0
            (λ r.
              wake_each-Starts (resolve fn seen cand.entry).1 (refused ++ (cand.entry.name, r) ∷ [])
                cands h.1))
      | inr e ↦
          rw e
            (wake_each-Starts seen (refused ++ (cand.entry.name, waking_disabled) ∷ []) cands h.1)
    ]

    split_wakeable-Entries :
        (seen : Map Resolved) (cands : List Candidate)
        → Entries cands
        → Entries (split_wakeable fn seen cands).0 × Entries (split_wakeable fn seen cands).1
    unfolding split_wakeable
    split_wakeable-Entries seen [] h = (tt, tt)
    split_wakeable-Entries seen (cand ∷ cands) h = ground (
      arith,
      split_wakeable-Entries seen cands h.1,
      split_wakeable-Entries (resolve fn seen cand.entry).1 cands h.1,
    )

    wake_some-Starts :
        (results : List NodeResult) (cands : List Candidate) (seen : Map Resolved)
        → Entries cands
        → Starts (wake_some world c nodes fn w results (cands, seen))
    wake_some-Starts results [] seen h = tt
    wake_some-Starts results (cand ∷ cands) seen h = wake_each-Starts seen [] (cand ∷ cands) h

    -- What holds of every node that may be started holds of every node that a wake starts.
    pub wake-Starts :
        (results : List NodeResult)
        → Entries (candidates c results)
        → Starts (wake world c nodes fn w results)
    unfolding wake
    wake-Starts results h =
        let (warm, cold) = split_wakeable-Entries [] (candidates c results) h in
        wake_some-Starts results _ _ (All-append _ _ _ warm cold)
