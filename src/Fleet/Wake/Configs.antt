-- ===== src/Fleet/Wake/Configs.antt =====
-- Which configs a wake starts nodes with (`Wake` of internal/fleet/wake.go).
use spinloop.Prelude.{
  String, ◌≡◌, refl, List, [], ◌∷◌, ◌++◌, Option, none, some, arith, All, Bool-cases, inl, inr,
  subst, str_eq,
}
use spinloop.Prelude.Map.{Map, lookup, put, lookup-put}
use spinloop.Prelude.Result.{Result, ok, err, Result-cases}
use spinloop.Fleet.Answer.{NodeResult, is_answered, is_up, StatusResponse}
use spinloop.Fleet.Config.{NodeConfig, Config, node_wakes, engine_token}
use spinloop.Fleet.Select.{World, Want, Candidate, candidates, Choice}
use spinloop.Fleet.Wakeable.{DeployConfig, Resolved, is_warm, remembered, resolve, split_wakeable}
use spinloop.Fleet.Wake.{
  Attempt, Nodes, Refusal, WakeFailure, Woken, fatal, plain, tried, taken, prepared, wake_each,
  wake_some, wake, no_config, no_client, not_started, waking_disabled, WakeError,
}

module _ {ℓ} (P : DeployConfig → Type ℓ) where
  abbrev pub Gives : Resolved → Type ℓ
  Gives (ok dc) = P dc
  Gives (err e) = Unit {ℓ}

  -- What was resolved before.
  Known : Map Resolved → Type ℓ
  Known seen = (name : String) (r : Resolved) → lookup name seen ≡ some r → Gives r

  module _ (fn : NodeConfig → Resolved) (gives : (entry : NodeConfig) → Gives (fn entry)) where
    added :
        (seen : Map Resolved) (entry : NodeConfig)
        → Known seen
        → Known (put entry.name (fn entry) seen)
    unfolding Known
    added seen entry h name r e = elim (Bool-cases (str_eq entry.name name)) [
      | inl q ↦
          let p : fn entry ≡ r = ground (arith, lookup-put entry.name name (fn entry) seen) in
          subst Gives p (gives entry)
      | inr q ↦ h name r (ground (arith, lookup-put entry.name name (fn entry) seen))
    ]

    remembered-Gives :
        (seen : Map Resolved) (entry : NodeConfig) (o : Option Resolved)
        → Known seen
        → lookup entry.name seen ≡ o
        → Gives (remembered fn seen entry o).0 × Known (remembered fn seen entry o).1
    unfolding Known
    remembered-Gives seen entry (some r) h e = (h entry.name r e, h)
    remembered-Gives seen entry none h e = (gives entry, added seen entry h)

    resolve-Gives :
        (seen : Map Resolved) (entry : NodeConfig)
        → Known seen
        → Gives (resolve fn seen entry).0 × Known (resolve fn seen entry).1
    unfolding resolve
    resolve-Gives seen entry h = remembered-Gives seen entry _ h refl

    split_wakeable-Known :
        (seen : Map Resolved) (cands : List Candidate)
        → Known seen
        → Known (split_wakeable fn seen cands).2
    unfolding split_wakeable
    split_wakeable-Known seen [] h = h
    split_wakeable-Known seen (cand ∷ cands) h =
        let rest =
          split_wakeable-Known (resolve fn seen cand.entry).1 cands
            (resolve-Gives seen cand.entry h).1 in
        elim (Bool-cases (is_answered cand.result)) [
          | inr a ↦ rw a (split_wakeable-Known seen cands h)
          | inl a ↦ elim (Bool-cases (is_up cand.result.status)) [
            | inl u ↦ rw (a, u) (split_wakeable-Known seen cands h)
            | inr u ↦
                elim (Bool-cases (is_warm cand.result.status (resolve fn seen cand.entry).0)) [
                  | inl m ↦ rw (a, u, m) rest
                  | inr m ↦ rw (a, u, m) rest
                ]
          ]
        ]

    module _ (world : World) (c : Config) (nodes : Nodes) (w : Want) where
      abbrev Configured : Woken → Type ℓ
      Configured out = All (λ a. P a.config) out.0

      tried-Configured :
          (a : Attempt) (done : StatusResponse → Result WakeError Choice) (next : Refusal → Woken)
          → P a.config
          → ((r : Refusal) → Configured (next r))
          → (r : Result WakeFailure StatusResponse) → Configured (tried a done next r)
      tried-Configured a done next p k (ok status) = (p, tt)
      tried-Configured a done next p k (err (fatal e)) = (p, tt)
      tried-Configured a done next p k (err (plain e)) = (p, k (not_started e))

      taken-Configured :
          (cand : Candidate) (next : Refusal → Woken)
          → ((r : Refusal) → Configured (next r))
          → (r : Resolved) → Gives r
          → Configured (taken world c nodes cand w next (prepared world c nodes cand.entry r))
      taken-Configured cand next k (err e) g = k (no_config e)
      taken-Configured cand next k (ok dc) g = elim (Result-cases (nodes.new_node cand.entry)) [
        | inr (e, p) ↦ rw p (k (no_client e))
        | inl (u, p) ↦ elim (Result-cases (engine_token world.env c cand.entry)) [
          | inr (e, q) ↦ rw (p, q) tt
          | inl (key, q) ↦ rw (p, q) (tried-Configured _ _ next g k _)
        ]
      ]

      wake_each-Configured :
          (seen : Map Resolved) (refused : List (String × Refusal)) (cands : List Candidate)
          → Known seen
          → Configured (wake_each world c nodes fn w seen refused cands)
      unfolding wake_each
      wake_each-Configured seen refused [] h = tt
      wake_each-Configured seen refused (cand ∷ cands) h =
          let known = resolve-Gives seen cand.entry h in
          elim (Bool-cases (node_wakes c cand.entry)) [
            | inr n ↦ rw n (
                wake_each-Configured seen (refused ++ (cand.entry.name, waking_disabled) ∷ []) cands
                  h)
            | inl n ↦ rw n (
                taken-Configured cand _
                  (λ r.
                    wake_each-Configured (resolve fn seen cand.entry).1
                      (refused ++ (cand.entry.name, r) ∷ []) cands known.1)
                  (resolve fn seen cand.entry).0 known.0)
          ]

      wake_some-Configured :
          (results : List NodeResult) (cands : List Candidate) (seen : Map Resolved)
          → Known seen
          → Configured (wake_some world c nodes fn w results (cands, seen))
      wake_some-Configured results [] seen h = tt
      wake_some-Configured results (cand ∷ cands) seen h =
          wake_each-Configured seen [] (cand ∷ cands) h

      -- What holds of every config that resolving gives holds of every config that a wake starts a
      -- node with.
      pub wake-Configured :
          (results : List NodeResult) → Configured (wake world c nodes fn w results)
      unfolding wake Known lookup
      wake-Configured results =
          wake_some-Configured results _ _
            (split_wakeable-Known [] (candidates c results) (λ name r e. absurd (cc)))
