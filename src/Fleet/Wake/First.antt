-- ===== src/Fleet/Wake/First.antt =====
-- The node that a wake starts first (`Wake` and `WouldWake` of internal/fleet/wake.go).
use spinloop.Prelude.{String, true, ◌≡◌, refl, List, [], ◌∷◌, ◌++◌, none, some, arith, subst}
use spinloop.Prelude.Map.{Map}
use spinloop.Prelude.Result.{Result, ok, err}
use spinloop.Fleet.Answer.{NodeResult, StatusResponse}
use spinloop.Fleet.Config.{NodeConfig, Config, node_wakes, engine_token}
use spinloop.Fleet.Select.{World, Want, Candidate, Choice, candidates}
use spinloop.Fleet.Wakeable.{DeployConfig, Resolved, resolve, wakeable, would_wake}
use spinloop.Fleet.Wakeable.Order.{wakeable-resolve}
use spinloop.Fleet.Wake.{
  Attempt, Nodes, Refusal, Woken, WakeError, WakeFailure, fatal, plain, tried, taken, prepared,
  finished, start_and_wait, wake_each, wake_some, wake,
}

-- The first start of a wake is of this node, with this config and this key.
abbrev pub StartsWith : NodeConfig → DeployConfig → String → Woken → Type 0
StartsWith n dc key out =
    (a : Attempt) × (later : List Attempt) × (out.0 ≡ a ∷ later)
    × (a.candidate.entry ≡ n)
    × (a.config ≡ dc)
    × (a.key ≡ key)

-- The node may be woken, it can be asked, and this is its key.
abbrev pub CanStart : World → Config → Nodes → String → NodeConfig → Type 0
CanStart world c nodes key n =
    (node_wakes c n ≡ true) × (nodes.new_node n ≡ ok tt) × (engine_token world.env c n ≡ ok key)

tried-StartsWith :
    (a : Attempt) (done : StatusResponse → Result WakeError Choice) (next : Refusal → Woken)
    (r : Result WakeFailure StatusResponse)
    → StartsWith a.candidate.entry a.config a.key (tried a done next r)
tried-StartsWith a done next (ok status) = (a, [], refl, refl, refl, refl)
tried-StartsWith a done next (err (fatal e)) = (a, [], refl, refl, refl, refl)
tried-StartsWith a done next (err (plain e)) = (a, (next _).0, refl, refl, refl, refl)

module _ (world : World) (c : Config) (nodes : Nodes) (dc : DeployConfig) (w : Want)
    (key : String) where
  abbrev fn : NodeConfig → Resolved
  fn entry = ok dc

  taken-StartsWith :
      (cand : Candidate) (next : Refusal → Woken) (r : Resolved)
      → r ≡ ok dc
      → CanStart world c nodes key cand.entry
      → StartsWith cand.entry dc key
          (taken world c nodes cand w next (prepared world c nodes cand.entry r))
  taken-StartsWith cand next r e (wakes, asked, keyed) =
      rw (e, asked, keyed)
        (tried-StartsWith
          (record {
            candidate = cand;
            config = dc;
            key = key;
            answer = nodes.start_with cand.entry dc key;
          })
          (finished world c cand w key) next (start_and_wait world c nodes cand.entry w dc key))

  wake_each-StartsWith :
      (seen : Map Resolved) (cand : Candidate) (cands : List Candidate)
      → (resolve fn seen cand.entry).0 ≡ ok dc
      → CanStart world c nodes key cand.entry
      → StartsWith cand.entry dc key (wake_each world c nodes fn w seen [] (cand ∷ cands))
  unfolding wake_each
  wake_each-StartsWith seen cand cands e can = rw (can.0) (
      taken-StartsWith cand
        (λ r.
          wake_each world c nodes fn w (resolve fn seen cand.entry).1
            ([] ++ (cand.entry.name, r) ∷ []) cands)
        (resolve fn seen cand.entry).0 e can)

  wake_some-StartsWith :
      (results : List NodeResult) (n : NodeConfig) (p : List Candidate × Map Resolved)
      → elim p.0 [ [] ↦ none | cand ∷ _ ↦ some cand.entry ] ≡ some n
      → ((entry : NodeConfig) → (resolve fn p.1 entry).0 ≡ ok dc)
      → CanStart world c nodes key n
      → StartsWith n dc key (wake_some world c nodes fn w results p)
  wake_some-StartsWith results n ([], seen) h known can = ground arith
  wake_some-StartsWith results n (cand ∷ cands, seen) h known can =
      let same : cand.entry ≡ n = ground arith in
      subst
        (λ x.
          CanStart world c nodes key x
          → StartsWith x dc key (wake_some world c nodes fn w results (cand ∷ cands, seen)))
        same (wake_each-StartsWith seen cand cands (known cand.entry)) can

  -- A wake with one config for all starts first the node that it is foretold to try first, where that
  -- node can be started.
  pub wake-StartsWith :
      (results : List NodeResult) (n : NodeConfig)
      → would_wake c fn results ≡ some n
      → CanStart world c nodes key n
      → StartsWith n dc key (wake world c nodes fn w results)
  unfolding would_wake wake
  wake-StartsWith results n h can =
      wake_some-StartsWith results n (wakeable fn (candidates c results)) h
        (wakeable-resolve (λ name. ok dc) (candidates c results)) can
