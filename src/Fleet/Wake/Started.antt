-- ===== src/Fleet/Wake/Started.antt =====
-- A whole wake (`Wake` of internal/fleet/wake.go).
use mathlib.Core.List.{Perm}
use mathlib.Core.List.Perm
use spinloop.Prelude.{true, ◌≡◌, refl, sym, List, [], ◌∷◌, All, inl, inr, ◌⊎◌, keep_if, All-append}
use spinloop.Prelude.Map.{Map}
use spinloop.Prelude.Result.{err}
use spinloop.Fleet.Answer.{NodeResult}
use spinloop.Fleet.Config.{NodeConfig, Config}
use spinloop.Fleet.Select.{World, Want, Candidate, candidates, none_serving}
use spinloop.Fleet.Wakeable.{Resolved, startable, wakeable}
use spinloop.Fleet.Wake.{Nodes, not_routed, wake, wake_some}
use spinloop.Fleet.Wake.Attempts.{Wakes, wake_each-Wakes}
use spinloop.Fleet.Wakeable.Order.{split_wakeable-perm, split_wakeable-Startable}

pub wake-Wakes :
    (world : World) (c : Config) (nodes : Nodes) (fn : NodeConfig → Resolved) (w : Want)
    (results : List NodeResult)
    → ((keep_if startable (candidates c results) ≡ [])
        × (wake world c nodes fn w results
            ≡ ([], err (not_routed (none_serving results w c.path)))))
      ⊎ ((cands : List Candidate) × Perm cands (keep_if startable (candidates c results))
          × Wakes world c nodes fn w [] cands (wake world c nodes fn w results))
unfolding wake
wake-Wakes world c nodes fn w results =
    go (wakeable fn (candidates c results)).0 (wakeable fn (candidates c results)).1
      (split_wakeable-perm fn [] (candidates c results))
      (All-append _ _ _ (split_wakeable-Startable fn [] (candidates c results)).0
        (split_wakeable-Startable fn [] (candidates c results)).1)
  where
    go :
        (cands : List Candidate) (seen : Map Resolved)
        → Perm cands (keep_if startable (candidates c results))
        → All (λ cand. startable cand ≡ true) cands
        → ((keep_if startable (candidates c results) ≡ [])
            × (wake_some world c nodes fn w results (cands, seen)
                ≡ ([], err (not_routed (none_serving results w c.path)))))
          ⊎ ((order : List Candidate) × Perm order (keep_if startable (candidates c results))
              × Wakes world c nodes fn w [] order
                  (wake_some world c nodes fn w results (cands, seen)))
    go [] seen p a = inl (sym (Perm.nil-eq p), refl)
    go (cand ∷ cands) seen p a =
        inr (cand ∷ cands, p, wake_each-Wakes world c nodes fn w seen [] (cand ∷ cands) a)
