-- ===== src/Fleet/Answer.antt =====
-- What a node answers to a question about its state (internal/daemon/daemon.go,
-- internal/fleet/node.go).
use spinloop.Prelude.{String, Bool, Option, str_eq, true, false}
use spinloop.Prelude.Int.{ℤ}

pub record EngineEndpoint : Type 0 where
  pub host : String
  pub port : ℤ
  pub path : String
  pub loopback_only : Bool
  pub requires_key : Bool

-- `engine` is a pointer in the source: `none` reports no address.
pub record StatusResponse : Type 0 where
  pub state : String
  pub runner : String
  pub model : String
  pub served_name : String
  pub uptime_seconds : ℤ
  pub log_path : String
  pub last_active_at : String
  pub idle_seconds : ℤ
  pub engine : Option EngineEndpoint
  pub ready : String
  pub version : String

abbrev pub ready_yes : String
ready_yes = "ready"

abbrev pub ready_no : String
ready_no = "not-ready"

pub data Outcome : Type 0 where
  answered unreachable unauthorized config_error failed unsupported : Outcome

-- Why an engine has no address: what the messages of `EngineBaseURL` name.
pub data EndpointError : Type 0 where
  no_endpoint : String → String → EndpointError
  no_port : String → EndpointError
  bound_to_loopback : String → String → EndpointError

-- What went wrong in a call: a text, or what keeps a running engine from being reached.
pub data Failure : Type 0 where
  said : String → Failure
  endpoint : EndpointError → Failure

-- The figures, the log, the cost and the instance of a result are answers to other questions.
pub record NodeResult : Type 0 where
  pub name : String
  pub outcome : Outcome
  pub error : Option Failure
  pub status : StatusResponse

abbrev pub is_answered : NodeResult → Bool
is_answered r = elim r.outcome [ answered ↦ true | _ ↦ false ]

abbrev pub is_up : StatusResponse → Bool
is_up s = str_eq s.state "running"
