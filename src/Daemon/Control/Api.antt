-- ===== src/Daemon/Control/Api.antt =====
-- The requests to a daemon and its replies (internal/daemon/api.go): the bearer token, the handlers
-- and the exposure rule of the listener. What the JSON decoder makes of a body is an argument, and so
-- is what net.ParseIP and strconv.ParseInt make of a text.
pub mod Start
pub mod Pushed
pub mod Exposed
pub mod Query
use Prim.Native.String.{◌++◌}
use spinloop.Prelude.{
  ℕ, String, Bool, true, false, not, Option, none, some, if◌then◌else◌, str_eq, ◌&&◌, ◌||◌, ltb,
}
use spinloop.Prelude.Int.{ℤ, pos, negsuc}
use spinloop.Prelude.Result.{Result, ok, err, ◌>>=◌}
use spinloop.Fleet.Tags.{is_empty}
use spinloop.Fleet.Answer.{StatusResponse}
use spinloop.Fleet.Wakeable.{DeployConfig}
use spinloop.Daemon.Supervisor.{Supervisor, is_running, engine_of, request_stop, exited}
use spinloop.Daemon.Logs.{LogsResponse, LogError, LogFile, read_log}
use spinloop.Daemon.Control.{
  Daemon, Host, EngineError, push_config, set_engine_key, start_engine, status_reply,
}

-- The body of a start: one that cannot be read, one of blanks, one that is no config, or a config
-- with the key of the engine.
pub data StartBody : Type 0 where
  unread : String → StartBody
  blank : StartBody
  malformed : String → StartBody
  carries : DeployConfig → String → StartBody

pub data ApiError : Type 0 where
  unread_body : String → ApiError
  already_runs : String → ApiError
  bad_json : String → ApiError
  refused_config : String → ApiError
  key_not_stored : String → ApiError
  engine_error : EngineError → ApiError
  not_whole : String → String → ApiError
  negative_offset : ApiError
  log_error : LogError → ApiError
  unauthorized : ApiError

-- A reply of 200, or one of another status with its error.
pub data Reply : Type 0 where
  reports : StatusResponse → Reply
  says : String → Reply
  shows : LogsResponse → Reply
  refuses : ℕ → ApiError → Reply

-- The exit that a stop waits for.
stop_sup : Option String → Option ℕ × Supervisor → Supervisor
stop_sup e (none, s) = s
stop_sup e (some p, s) = exited e s

module _ {F : Type 0} where
  -- `handleStart` from StartEngine on.
  engine_reply : Host → Option EngineError × Daemon F → Reply × Daemon F
  engine_reply host (none, d) = (reports (status_reply host d), d)
  engine_reply host (some e, d) =
      (refuses (if is_running d.sup.state then 409 else 400) (engine_error e), d)

  keyed : Host → Option String × Daemon F → Reply × Daemon F
  unfolding engine_reply
  keyed host (some e, d) = (refuses 500 (key_not_stored e), d)
  keyed host (none, d) = engine_reply host (start_engine host d)

  pushed : Host → String → Option String × Daemon F → Reply × Daemon F
  unfolding keyed
  pushed host k (some e, d) = (refuses 400 (refused_config e), d)
  pushed host k (none, d) = keyed host (set_engine_key host k d)

  -- A body is looked at only where no engine runs.
  unfoldable pub handle_start : Host → StartBody → Daemon F → Reply × Daemon F
  unfolding engine_reply pushed
  handle_start host (unread e) d = (refuses 400 (unread_body e), d)
  handle_start host blank d = engine_reply host (start_engine host d)
  handle_start host (malformed e) d =
      if is_running d.sup.state
      then (refuses 409 (already_runs (engine_of d.sup.argv)), d)
      else (refuses 400 (bad_json e), d)
  handle_start host (carries dc k) d =
      if is_running d.sup.state
      then (refuses 409 (already_runs (engine_of d.sup.argv)), d)
      else pushed host k (push_config host dc d)

  -- `handleStop`: the signal, and the exit that it waits for, with the exit's error.
  unfoldable pub handle_stop : Host → Option String → Daemon F → Reply × Daemon F
  unfolding stop_sup
  handle_stop host e d =
      let d' = record d { sup = stop_sup e (request_stop d.sup) } in
      (reports (status_reply host d'), d')

  stored_reply : Option String × Daemon F → Reply × Daemon F
  stored_reply (some e, d) = (refuses 400 (refused_config e), d)
  stored_reply (none, d) = (
    says (
        if is_running d.sup.state
        then "stored; the running engine is untouched — it takes effect on next start"
        else "stored"),
    d,
  )

  -- `handleDeployConfig` of a body that decodes, or does not.
  unfoldable pub handle_deploy_config :
      Host → Result String DeployConfig → Daemon F → Reply × Daemon F
  unfolding stored_reply
  handle_deploy_config host (err e) d = (refuses 400 (bad_json e), d)
  handle_deploy_config host (ok dc) d = stored_reply (push_config host dc d)

-- `int64Param`: an absent parameter is the empty text.
unfoldable pub int64_param : (String → Option ℤ) → String → String → ℤ → Result ApiError ℤ
int64_param parse name raw missing =
    if is_empty raw
    then ok missing
    else elim (parse raw) [ none ↦ err (not_whole name raw) | some v ↦ ok v ]

abbrev pub tail_log : ℤ
tail_log = negsuc 0

-- offset < 0 && offset != TailLog
abbrev pub bad_offset : ℤ → Bool
bad_offset (pos n) = false
bad_offset (negsuc n) = ltb 0 n

abbrev pub log_reply : Result LogError LogsResponse → Reply
log_reply (ok r) = shows r
log_reply (err e) = refuses 500 (log_error e)

answer_query : String → LogFile → Result ApiError (ℤ × ℤ) → Reply
answer_query path file (err e) = refuses 400 e
answer_query path file (ok (offset, limit)) =
    if bad_offset offset
    then refuses 400 negative_offset
    else log_reply (read_log path offset limit file)

-- `handleLogs` with the two parameters of its query.
unfoldable pub handle_logs : (String → Option ℤ) → String → LogFile → String → String → Reply
unfolding answer_query int64_param
handle_logs parse path file offset limit = answer_query path file (
    int64_param parse "offset" offset tail_log >>= λ o.
    int64_param parse "limit" limit (pos 0) >>= λ l. ok (o, l))

pub data ApiRequest : Type 0 where
  get_status post_stop : ApiRequest
  post_start : StartBody → ApiRequest
  put_config : Result String DeployConfig → ApiRequest
  get_logs : String → String → ApiRequest

-- What the host answers to one request: its calls, the exit of a stopped engine and the log file.
pub record ApiWorld : Type 0 where
  pub host : Host
  pub exit : Option String
  pub log : LogFile
  pub parse_int : String → Option ℤ

module _ {F : Type 0} where
  -- The handler of each route.
  unfoldable pub route : ApiWorld → ApiRequest → Daemon F → Reply × Daemon F
  route w get_status d = (reports (status_reply w.host d), d)
  route w post_stop d = handle_stop w.host w.exit d
  route w (post_start b) d = handle_start w.host b d
  route w (put_config dc) d = handle_deploy_config w.host dc d
  route w (get_logs offset limit) d =
      (handle_logs w.parse_int w.host.log_path w.log offset limit, d)

  -- `authenticated` around the routes; a header that is not there is the empty text.
  unfoldable pub serve : String → ApiWorld → String → ApiRequest → Daemon F → Reply × Daemon F
  serve token w authorization r d =
      if is_empty token || str_eq authorization ("Bearer " ++ token)
      then route w r d
      else (refuses 401 unauthorized, d)

-- What net.SplitHostPort and net.ParseIP make of a text: the host, where there is a port behind it,
-- and whether the address is a loopback one, where it is one.
pub record Addresses : Type 0 where
  pub split_host : String → Option String
  pub is_loopback_ip : String → Option Bool
  pub equal_fold : String → String → Bool

host_of : String → Option String → String
host_of addr none = addr
host_of addr (some h) = h

loopback_ip : Option Bool → Bool
loopback_ip none = false
loopback_ip (some b) = b

unfoldable pub loopback_addr : Addresses → String → Bool
unfolding host_of loopback_ip
loopback_addr a addr =
    let h = host_of addr (a.split_host addr) in
    if is_empty h
    then false
    else if a.equal_fold h "localhost"
    then true
    else loopback_ip (a.is_loopback_ip h)

pub data ListenError : Type 0 where
  exposed : String → ListenError
  not_bound : String → ListenError

-- `bind` is the error of net.Listen.
unfoldable pub listen : Addresses → Option String → String → String → Result ListenError (Unit {0})
listen a bind addr token =
    if is_empty token && not (loopback_addr a addr)
    then err (exposed addr)
    else elim bind [ some e ↦ err (not_bound e) | none ↦ ok tt ]
