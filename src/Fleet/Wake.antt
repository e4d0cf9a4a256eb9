-- ===== src/Fleet/Wake.antt =====
-- Waking a node: an engine is started where none runs (internal/fleet/wake.go).
pub mod Attempts
pub mod Started
pub mod Configs
pub mod Keys
pub mod Starts
pub mod First
use spinloop.Prelude.{
  ℕ, String, Bool, true, false, not, List, [], ◌∷◌, ◌++◌, map, Option, none, some, if◌then◌else◌,
  str_eq, ◌&&◌, ◌||◌,
}
use spinloop.Prelude.Int.{ℤ}
use spinloop.Prelude.Map.{Map, lookup, put}
use spinloop.Prelude.Result.{Result, ok, err, ◌>>=◌, fail_as}
use spinloop.Fleet.Tags.{is_empty}
use spinloop.Fleet.Answer.{
  EndpointError, StatusResponse, NodeResult, answered, is_answered, is_up, ready_yes, ready_no,
}
use spinloop.Fleet.Config.{NodeConfig, Config, TokenError, node_wakes, engine_token}
use spinloop.Fleet.Endpoint.{engine_base_url, host_port_of}
use spinloop.Fleet.Wakeable.{DeployConfig, Resolved, resolve, wakeable}
use spinloop.Fleet.Waiting.{Polls, WaitError, wait_ready}
use spinloop.Fleet.Select.{
  Want, Candidate, Choice, SelectError, none_serving, World, candidates, loading, matches,
  serving_names, wanted, choice_for,
}

-- What a call of `StartWith` answers: `conflict` is a refusal that `isAlreadyRunning` accepts.
pub data Start : Type 0 where
  started : Start
  conflict refused_start : String → Start

-- What the nodes do when they are asked: whether a client for one can be built, what a start with a
-- config and a key answers, what the node reports after a conflict, and the turns of the wait.
pub record Nodes : Type 0 where
  pub new_node : NodeConfig → Result String (Unit {0})
  pub start_with : NodeConfig → DeployConfig → String → Start
  pub status : NodeConfig → Option StatusResponse
  pub polls : NodeConfig → Polls

-- A failure that must not be answered with another node, and one that may.
pub data WakeFailure : Type 0 where
  fatal : WaitError → WakeFailure
  plain : String → WakeFailure

-- Someone else's engine is joined where it serves what is wanted.
unfoldable pub joins : Want → Option StatusResponse → Bool
joins w none = false
joins w (some status) = matches w (serving_names status)

abbrev pub start_answered :
    World → Config → Nodes → NodeConfig → Want → Start → Result WakeFailure StatusResponse
start_answered world c nodes entry w started =
    fail_as fatal (wait_ready world c entry w (nodes.polls entry))
start_answered world c nodes entry w (refused_start e) = err (plain e)
start_answered world c nodes entry w (conflict e) =
    if joins w (nodes.status entry)
    then fail_as fatal (wait_ready world c entry w (nodes.polls entry))
    else err (plain e)

unfoldable pub start_and_wait :
    World
    → Config
    → Nodes
    → NodeConfig
    → Want
    → DeployConfig
    → String
    → Result WakeFailure StatusResponse
start_and_wait world c nodes entry w dc key =
    start_answered world c nodes entry w (nodes.start_with entry dc key)

-- Why a node is passed over.
pub data Refusal : Type 0 where
  waking_disabled : Refusal
  no_config no_client not_started : String → Refusal

pub data WakeError : Type 0 where
  not_routed : SelectError → WakeError
  key_unset : TokenError → WakeError
  not_ready : WaitError → WakeError
  client_failed : String → WakeError
  none_could : String → String → List (String × Refusal) → WakeError

-- A call of `StartWith`, with the candidate that it is for.
pub record Attempt : Type 0 where
  pub candidate : Candidate
  pub config : DeployConfig
  pub key : String
  pub answer : Start

-- A wake: the calls that it makes, in order, and what it returns.
abbrev pub Woken : Type 0
Woken = List Attempt × Result WakeError Choice

abbrev pub with_status : Candidate → StatusResponse → Candidate
with_status cand status = record cand {
  result = record { name = cand.entry.name; outcome = answered; error = none; status = status };
}

-- What a candidate answers before anything is started: a refusal, an error that ends the wake, or
-- the config and the key to start it with.
pub data Prepared : Type 0 where
  passed_over : Refusal → Prepared
  ended : TokenError → Prepared
  ready_to_start : DeployConfig → String → Prepared

abbrev pub key_prepared : DeployConfig → Result TokenError String → Prepared
key_prepared dc (err e) = ended e
key_prepared dc (ok key) = ready_to_start dc key

abbrev pub client_prepared :
    World → Config → NodeConfig → DeployConfig → Result String (Unit {0}) → Prepared
client_prepared world c entry dc (err e) = passed_over (no_client e)
client_prepared world c entry dc (ok _) = key_prepared dc (engine_token world.env c entry)

abbrev pub prepared : World → Config → Nodes → NodeConfig → Resolved → Prepared
prepared world c nodes entry (err e) = passed_over (no_config e)
prepared world c nodes entry (ok dc) = client_prepared world c entry dc (nodes.new_node entry)

-- The wake after a start that did not fail so that another node may be tried.
abbrev pub finished :
    World → Config → Candidate → Want → String → StatusResponse → Result WakeError Choice
finished world c cand w key status =
    fail_as not_routed (choice_for world c (with_status cand status) w true key)

-- What comes of a start: the wake ends with it, or goes on to the next candidate.
abbrev pub tried :
    Attempt
    → (StatusResponse → Result WakeError Choice)
    → (Refusal → Woken)
    → Result WakeFailure StatusResponse
    → Woken
tried a done next (ok status) = (a ∷ [], done status)
tried a done next (err (fatal e)) = (a ∷ [], err (not_ready e))
tried a done next (err (plain e)) = let rest = next (not_started e) in (a ∷ rest.0, rest.1)

abbrev pub taken : World → Config → Nodes → Candidate → Want → (Refusal → Woken) → Prepared → Woken
taken world c nodes cand w next (passed_over r) = next r
taken world c nodes cand w next (ended e) = ([], err (key_unset e))
taken world c nodes cand w next (ready_to_start dc key) =
    tried
      (record {
        candidate = cand;
        config = dc;
        key = key;
        answer = nodes.start_with cand.entry dc key;
      })
      (finished world c cand w key) next (start_and_wait world c nodes cand.entry w dc key)

-- The loop of `Wake`: the refusals so far, and the candidates that are left.
unfoldable pub wake_each :
    World
    → Config
    → Nodes
    → (NodeConfig → Resolved)
    → Want
    → Map Resolved
    → List (String × Refusal)
    → List Candidate
    → Woken
wake_each world c nodes fn w seen refused [] = ([], err (none_could c.path (wanted w) refused))
wake_each world c nodes fn w seen refused (cand ∷ cands) =
    let disabled =
      wake_each world c nodes fn w seen (refused ++ (cand.entry.name, waking_disabled) ∷ [])
        cands in
    let asked = resolve fn seen cand.entry in
    let next = λ (r : Refusal).
      wake_each world c nodes fn w asked.1 (refused ++ (cand.entry.name, r) ∷ []) cands in
    if not (node_wakes c cand.entry)
    then disabled
    else taken world c nodes cand w next (prepared world c nodes cand.entry asked.0)

abbrev pub wake_some :
    World
    → Config
    → Nodes
    → (NodeConfig → Resolved)
    → Want
    → List NodeResult
    → List Candidate × Map Resolved
    → Woken
wake_some world c nodes fn w results ([], seen) =
    ([], err (not_routed (none_serving results w c.path)))
wake_some world c nodes fn w results (cand ∷ cands, seen) =
    wake_each world c nodes fn w seen [] (cand ∷ cands)

unfoldable pub wake :
    World → Config → Nodes → (NodeConfig → Resolved) → Want → List NodeResult → Woken
wake world c nodes fn w results =
    wake_some world c nodes fn w results (wakeable fn (candidates c results))

-- `WaitLoading`: the first node that loads what is wanted, once its engine answers.
unfoldable pub wait_loading :
    World → Config → Nodes → Want → List NodeResult → Result WakeError Choice
wait_loading world c nodes w results = elim (loading w (candidates c results)) [
  | [] ↦ err (not_routed (none_serving results w c.path))
  | cand ∷ _ ↦ elim (nodes.new_node cand.entry) [
    | err e ↦ err (client_failed e)
    | ok _ ↦ elim (wait_ready world c cand.entry w (nodes.polls cand.entry)) [
      | err e ↦ err (not_ready e)
      | ok status ↦ fail_as not_routed (choice_for world c (with_status cand status) w false "")
    ]
  ]
]
