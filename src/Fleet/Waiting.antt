-- ===== src/Fleet/Waiting.antt =====
-- The wait for a node's engine to answer (`waitReady` of internal/fleet/wake.go).
pub mod Ends
use spinloop.Prelude.{
  String, Bool, true, false, List, [], ◌∷◌, Option, none, some, if◌then◌else◌, str_eq,
}
use spinloop.Prelude.Result.{Result, ok, err}
use spinloop.Fleet.Tags.{is_empty}
use spinloop.Fleet.Answer.{EndpointError, StatusResponse, is_up, ready_yes, ready_no}
use spinloop.Fleet.Config.{NodeConfig, Config}
use spinloop.Fleet.Endpoint.{engine_base_url, host_port_of}
use spinloop.Fleet.Select.{Want, World, wanted}

-- One turn of the loop that waits: what the node answers, if it does, and whether the caller has
-- gone away by the end of the turn.
pub record Poll : Type 0 where
  pub reading : Option StatusResponse
  pub dials : String → Bool
  pub cancelled : Bool

-- The turns before the deadline, and the turn after which it has passed.
pub record Polls : Type 0 where
  pub early : List Poll
  pub final : Poll

pub data WaitError : Type 0 where
  no_address : EndpointError → WaitError
  crashed : String → String → String → WaitError
  no_answer : String → WaitError
  gone_away : WaitError

abbrev pub engine_answers : World → (String → Bool) → String → Bool
engine_answers world dials base_url =
    let addr = host_port_of world.parsers base_url in if is_empty addr then false else dials addr

answers_at :
    World
    → Poll
    → StatusResponse
    → Result EndpointError String
    → Option (Result WaitError StatusResponse)
answers_at world poll status (err e) = some (err (no_address e))
answers_at world poll status (ok url) =
    if engine_answers world poll.dials url then some (ok status) else none

-- What a reading settles, if anything.
unfoldable pub settled :
    World
    → Config
    → NodeConfig
    → Want
    → Poll
    → StatusResponse
    → Option (Result WaitError StatusResponse)
unfolding answers_at
settled world c entry w poll status =
    if is_up status
    then (if str_eq status.ready ready_yes
        then some (ok status)
        else if str_eq status.ready ready_no
        then none
        else answers_at world poll status (engine_base_url world.parsers c entry status))
    else if str_eq status.state "crashed"
    then some (err (crashed entry.name (wanted w) status.log_path))
    else none

abbrev pub turn_settled :
    World → Config → NodeConfig → Want → Poll → Option (Result WaitError StatusResponse)
turn_settled world c entry w poll = elim poll.reading [
  | none ↦ none
  | some status ↦ settled world c entry w poll status
]

-- The result of a turn that settles the wait, or of what comes after it.
abbrev pub or_after :
    Option (Result WaitError StatusResponse)
    → Result WaitError StatusResponse
    → Result WaitError StatusResponse
or_after (some r) after = r
or_after none after = after

wait_turns : World → Config → NodeConfig → Want → List Poll → Poll → Result WaitError StatusResponse
wait_turns world c entry w [] final =
    or_after (turn_settled world c entry w final) (err (no_answer entry.name))
wait_turns world c entry w (poll ∷ early) final =
    let rest = wait_turns world c entry w early final in
    or_after (turn_settled world c entry w poll) (if poll.cancelled then err gone_away else rest)

unfoldable pub wait_ready :
    World → Config → NodeConfig → Want → Polls → Result WaitError StatusResponse
unfolding wait_turns
wait_ready world c entry w polls = wait_turns world c entry w polls.early polls.final
