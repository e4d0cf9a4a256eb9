-- ===== src/Examples/Gateway.antt =====
-- A gateway in front of two nodes (internal/gateway).
use spinloop.Prelude.{String, true, not, ◌≡◌, refl, List, [], ◌∷◌, none, some, any, ◌&&◌, ◌||◌}
use spinloop.Prelude.Result.{ok}
use spinloop.Fleet.Tags.{is_empty, contains}
use spinloop.Fleet.Select.{candidates}
use spinloop.Gateway.{Handler, reading}
use spinloop.Gateway.Models.{models, list_running}
use spinloop.Gateway.Models.Listed.{NoRepeats, Extends, runs_as, starts_as, models-lem}
use spinloop.Gateway.Route.{Backend, naming, reachable, want_of, no_model, handle_completion}
use spinloop.Gateway.Route.Needed.{IsNeeded, handle_completion-IsNeeded}
use spinloop.Gateway.Fresh.{Request, AreFresh, Spaced, ask_all, fan_outs, readings-AreFresh}
use spinloop.Prelude.Result.{err}
use spinloop.Examples.Nodes.{fleet, world, nodes, deploy, answers}

abbrev gateway : Handler
gateway = record {
  cfg = fleet;
  token = "";
  cfg_for = some (λ entry. ok deploy);
  results = none;
  at = 0;
  wakeable = none;
  wakeable_at = 0;
}

abbrev backend : Backend
backend = record { world = world; nodes = nodes; stats = λ entry. ok ("m", "") }

models-lem_example :
    NoRepeats (models answers (("b", "n") ∷ []))
    × ((k : String)
        → contains k (models answers (("b", "n") ∷ []))
          ≡ not (is_empty k)
            && (any (runs_as k) answers || any (starts_as (("b", "n") ∷ []) k) answers))
    × Extends (list_running answers []) (models answers (("b", "n") ∷ []))
models-lem_example = models-lem answers (("b", "n") ∷ [])

handle_completion-IsNeeded_example :
    ((prefer : String) × IsNeeded
        (handle_completion backend 5 6 gateway (naming "n")).1.cfg
        (want_of "n" prefer)
        (candidates (handle_completion backend 5 6 gateway (naming "n")).1.cfg (
          reachable world.parsers
            (handle_completion backend 5 6 gateway (naming "n")).1.cfg
            (reading world.fan_out 5 6 gateway).0))
        (handle_completion backend 5 6 gateway (naming "n")).0.0)
    × (is_empty "n" ≡ true
        → (handle_completion backend 5 6 gateway (naming "n")).0 ≡ ([], err no_model))
handle_completion-IsNeeded_example = handle_completion-IsNeeded backend 5 6 gateway "n"

-- Two requests in one burst, and a third one later.
abbrev requests : List Request
requests = (10, 5) ∷ (20, 5) ∷ (3000, 5) ∷ []

readings-AreFresh_example :
    AreFresh (λ t. answers) requests (ask_all (λ t. answers) requests gateway)
    × Spaced none (fan_outs (λ t. answers) requests gateway)
readings-AreFresh_example = readings-AreFresh (λ t. answers) requests gateway refl
