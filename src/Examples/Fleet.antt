-- ===== src/Examples/Fleet.antt =====
-- A fleet of two nodes: one serves, the other is idle (internal/fleet).
use spinloop.Prelude.{String, not, ◌≡◌, refl, List, [], ◌∷◌, ◌++◌, keep_if, ◌&&◌}
use spinloop.Prelude.Result.{Result, ok, err}
use spinloop.Fleet.Config.{resolve_token_env, Config}
use spinloop.Fleet.Endpoint.{engine_base_url}
use spinloop.Fleet.Select.{Choice, choose, candidates, choice_for}
use spinloop.Fleet.Select.Chosen.{Verdict, choose-Verdict}
use spinloop.Fleet.Waiting.{wait_ready, settled}
use spinloop.Fleet.Waiting.Ends.{Ends, wait_ready-Ends}
use spinloop.Fleet.Wakeable.{startable, wakeable, split_wakeable, resolve}
use spinloop.Fleet.Wakeable.Order.{by_name, holds_weights, wakeable-order}
use spinloop.Fleet.Wake.{wake, WakeError, wake_each, start_and_wait}
use spinloop.Prelude.Map.{lookup, put, delete}
use spinloop.Examples.Nodes.{node, fleet, answers, resting, world, want, deploy, polls, nodes}

choose-Verdict_example :
    Verdict world fleet answers want (candidates fleet answers) (choose world fleet answers want)
choose-Verdict_example = choose-Verdict world fleet answers want

wait_ready-Ends_example :
    Ends world fleet
      (node "a")
      want
      (polls.early ++ polls.final ∷ [])
      (wait_ready world fleet (node "a") want polls)
wait_ready-Ends_example = wait_ready-Ends world fleet (node "a") want polls

-- The node that a wake of the resting fleet chooses.
abbrev named : Result WakeError Choice → String
named (ok choice) = choice.node.name
named (err e) = ""

wakes_first : named (wake world fleet nodes (λ entry. ok deploy) want resting).1 ≡ "a"
unfolding wake split_wakeable resolve lookup wake_each put delete resolve_token_env start_and_wait
    wait_ready settled choice_for engine_base_url
wakes_first = refl

wakeable-order_example :
    (wakeable (by_name (λ name. ok deploy)) (candidates fleet resting)).0
    ≡ keep_if
        (λ cand. startable cand && holds_weights (λ name. ok deploy) cand)
        (candidates fleet resting)
      ++ keep_if
          (λ cand. startable cand && not (holds_weights (λ name. ok deploy) cand))
          (candidates fleet resting)
wakeable-order_example = wakeable-order (λ name. ok deploy) (candidates fleet resting)

-- A cloud node with no key of its own, in a fleet that names one for all.
abbrev cloudy : Config
cloudy = record fleet {
  nodes = record (node "a") { kind = "cloud"; engine_token_env = "" } ∷ node "b" ∷ [];
  api_key_env = "CLOUD_KEY";
}
