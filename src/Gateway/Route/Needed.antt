-- ===== src/Gateway/Route/Needed.antt =====
-- When a completion request starts an engine (internal/gateway/gateway.go).
use spinloop.Prelude.{
  ℕ, String, true, ◌≡◌, refl, List, [], ◌∷◌, All, map, keep_if, Bool-cases, inl, inr, ◌⊎◌,
}
use spinloop.Prelude.Result.{Result, ok, err, Result-cases}
use spinloop.Fleet.Tags.{is_empty}
use spinloop.Fleet.Answer.{NodeResult}
use spinloop.Fleet.Config.{NodeConfig, Config, any_node_wakes, preference}
use spinloop.Fleet.Select.{
  Want, Candidate, Choice, SelectError, none_serving, unanswered, serves_other, still_starting,
  unreachable_engine, no_key, unknown_node, candidates, loading,
}
use spinloop.Fleet.Select.Chosen.{serves, Verdict, choose-Verdict}
use spinloop.Fleet.Wakeable.{Resolved}
use spinloop.Fleet.Wake.{Attempt, wake}
use spinloop.Fleet.Wake.Attempts.{OnlyLast}
use spinloop.Fleet.Wake.Started.{wake-Wakes}
use spinloop.Fleet.Wake.Configs.{Gives, wake-Configured}
use spinloop.Gateway.{Handler, reading}
use spinloop.Gateway.Models.{combined_config_for}
use spinloop.Gateway.Route.{
  Backend, naming, describes, matching, matching_config_for, wake_for, unless_loading,
  route_nothing_serving, route_choice, reachable, want_of, handle_completion, no_model,
}

-- Why a request starts engines, where it starts any: no candidate serves what is wanted, none loads
-- it, and some node may be woken. It starts them with configs that describe the model, and no start
-- but the last is one that succeeds.
pub record IsNeeded (c : Config) (w : Want) (cands : List Candidate) (calls : List Attempt)
    : Type 0 where
  pub configs : All (λ a. describes w.model a.config ≡ true) calls
  pub single : OnlyLast calls
  pub needed :
      (calls ≡ [])
      ⊎ ((keep_if (serves w) cands ≡ []) × (loading w cands ≡ []) × (any_node_wakes c ≡ true))

no_calls : (c : Config) (w : Want) (cands : List Candidate) → IsNeeded c w cands []
no_calls c w cands = record { configs = tt; single = tt; needed = inl refl }

matching-Gives :
    (model : String) (r : Resolved) → Gives (λ dc. describes model dc ≡ true) (matching model r)
matching-Gives model (err e) = tt
matching-Gives model (ok dc) = elim (Bool-cases (describes model dc)) [
  | inl e ↦ rw e e
  | inr e ↦ rw e tt
]

module _ (b : Backend) (h : Handler) (w : Want) (results : List NodeResult) where
  abbrev cands : List Candidate
  cands = candidates h.cfg results

  abbrev fn : NodeConfig → Resolved
  fn = matching_config_for w.model (combined_config_for b.stats h)

  wake-OnlyLast : OnlyLast (wake b.world h.cfg b.nodes fn w results).0
  wake-OnlyLast = elim (wake-Wakes b.world h.cfg b.nodes fn w results) [
    | inl (e, p) ↦ rw p tt
    | inr (order, p, s) ↦ s.single
  ]

  wake_for-IsNeeded :
      keep_if (serves w) cands ≡ []
      → loading w cands ≡ []
      → IsNeeded h.cfg w cands (wake_for b h w results).0
  unfolding wake_for
  wake_for-IsNeeded s l = elim (Bool-cases (any_node_wakes h.cfg)) [
    | inr n ↦ rw n (no_calls h.cfg w cands)
    | inl n ↦ rw n (record {
      configs =
          wake-Configured (λ dc. describes w.model dc ≡ true) fn
            (λ entry. matching-Gives w.model (combined_config_for b.stats h entry)) b.world h.cfg
            b.nodes w results;
      single = wake-OnlyLast;
      needed = inr (s, l, n);
    })
  ]

  unless_loading-IsNeeded :
      (l : List Candidate)
      → keep_if (serves w) cands ≡ []
      → loading w cands ≡ l
      → IsNeeded h.cfg w cands (unless_loading b h w results (map (λ cand. cand.entry) l)).0
  unless_loading-IsNeeded [] s e = wake_for-IsNeeded s e
  unless_loading-IsNeeded (cand ∷ l) s e = no_calls h.cfg w cands

  route_choice-IsNeeded :
      (r : Result SelectError Choice)
      → Verdict b.world h.cfg results w cands r
      → IsNeeded h.cfg w cands (route_choice b h w r).0
  unfolding route_nothing_serving
  route_choice-IsNeeded (ok choice) v = no_calls h.cfg w cands
  route_choice-IsNeeded (err (none_serving rs u path)) (s, q, _, _) =
      rw q (unless_loading-IsNeeded (loading w cands) s refl)
  route_choice-IsNeeded (err (unanswered name r)) v = no_calls h.cfg w cands
  route_choice-IsNeeded (err (serves_other name model what)) v = no_calls h.cfg w cands
  route_choice-IsNeeded (err (still_starting name what)) v = no_calls h.cfg w cands
  route_choice-IsNeeded (err (unreachable_engine e)) v = no_calls h.cfg w cands
  route_choice-IsNeeded (err (no_key e)) v = no_calls h.cfg w cands
  route_choice-IsNeeded (err (unknown_node e)) v = no_calls h.cfg w cands

-- A completion request starts engines only where it names a model, where no node that can be reached
-- serves it, none loads it and some node may be woken. It starts them with configs that describe that
-- model, and no start but the last is one that succeeds. A request that names no model is refused,
-- and starts none.
pub handle_completion-IsNeeded :
    (b : Backend) (now done : ℕ) (h : Handler) (model : String)
    → ((prefer : String) × IsNeeded
          (handle_completion b now done h (naming model)).1.cfg
          (want_of model prefer)
          (candidates (handle_completion b now done h (naming model)).1.cfg (
            reachable b.world.parsers
              (handle_completion b now done h (naming model)).1.cfg
              (reading b.world.fan_out now done h).0))
          (handle_completion b now done h (naming model)).0.0)
      × (is_empty model ≡ true
          → (handle_completion b now done h (naming model)).0 ≡ ([], err no_model))
unfolding handle_completion
handle_completion-IsNeeded b now done h model = elim (Bool-cases (is_empty model)) [
  | inl e ↦ rw e (("", no_calls _ _ _), λ q. refl)
  | inr e ↦ elim (Result-cases (preference h.cfg "")) [
    | inr (f, p) ↦ rw (e, p) (("", no_calls _ _ _), λ q. absurd (cc))
    | inl (prefer, p) ↦
        rw (e, p)
          (
            (
              prefer,
              route_choice-IsNeeded b after (want_of model prefer)
                  (reachable b.world.parsers after.cfg results) _
                  (choose-Verdict b.world after.cfg (reachable b.world.parsers after.cfg results)
                    (want_of model prefer)),
            ),
            λ q. absurd (cc),
          )
  ]
]
  where
    after : Handler
    after = (reading b.world.fan_out now done h).1

    results : List NodeResult
    results = (reading b.world.fan_out now done h).0
