-- ===== src/Daemon/Control/Api/Start.antt =====
-- Every outcome of a start request (internal/daemon/api.go, internal/daemon/daemon.go).
use spinloop.Prelude.{
  String, Bool, true, false, ◌≡◌, List, [], ◌++◌, Option, none, some, if◌then◌else◌, ◌&&◌, ◌==◌,
  ◌⊎◌,
}
use spinloop.Prelude.Result.{Result, ok}
use spinloop.Fleet.Tags.{is_empty}
use spinloop.Fleet.Wakeable.{DeployConfig}
use spinloop.Daemon.Supervisor.{running, is_running, Supervisor}
use spinloop.Daemon.Sampler.{forget_sample, forget_ready}
use spinloop.Daemon.Control.{Daemon, Host, EngineError, holds, status_reply}
use spinloop.Daemon.Control.Api.{
  StartBody, unread, blank, malformed, carries, Reply, reports, says, shows, refuses,
}

-- The arguments that gate the engine with the key file at the path.
abbrev pub KeyArgs :
    Option (Option DeployConfig → String → Result String (List String))
    → DeployConfig
    → String
    → List String
    → Type 0
KeyArgs none dc path args = ⊥
KeyArgs (some f) dc path args = f (some dc) path ≡ ok args

-- An engine is gated where a key is stored and its file is there, and only then.
abbrev pub Gated : Host → DeployConfig → Option String → List String → Type 0
Gated host dc none args = args ≡ []
Gated host dc (some k) args =
    ((host.stats_key ≡ true) × KeyArgs host.key_args dc host.key_path args)
    ⊎ ((host.stats_key ≡ false) × (args ≡ []))

-- The process runs the command that the config gives, with the arguments of the stored key behind it,
-- and the addresses are those of the command.
abbrev pub RunsCommand : {F : Type 0} → Host → DeployConfig → Daemon F → Type 0
RunsCommand host dc d =
    (argv : List String) × (args : List String) × (host.argv_of dc
      ≡ ok (argv, d.scrape, d.endpoint))
    × Gated host dc d.key args
    × (d.sup.argv ≡ argv ++ args)

-- A new engine runs what is stored, gated with what is stored, and nothing is said of it yet.
abbrev Launched : {F : Type 0} → Host → Daemon F → Daemon F → Type 0
Launched host d d' =
    (is_running d.sup.state ≡ false)
    × (d'.sup.state ≡ running)
    × (d'.sup.process ≡ some d.sup.next)
    × (d'.stored ≡ d.stored)
    × (d'.key ≡ d.key)
    × ((dc : DeployConfig) × (d.stored ≡ holds dc)
        × (d'.model ≡ dc.model_id)
        × RunsCommand host dc d')
    × (d'.readiness ≡ forget_ready)
    × (d'.sample ≡ forget_sample)
    × (d'.hist ≡ [])

-- The engine, the config and the key are as they were.
abbrev Kept : {F : Type 0} → Daemon F → Daemon F → Type 0
Kept d d' = (d'.sup ≡ d.sup) × (d'.stored ≡ d.stored) × (d'.key ≡ d.key)

abbrev EngineStarted : {F : Type 0} → Host → Daemon F → Option EngineError × Daemon F → Type 0
EngineStarted host d (none, d') = Launched host d d'
EngineStarted host d (some e, d') = Kept d d'

-- What a key of a request leaves in the key file.
abbrev key_left : String → Option String
key_left k = if is_empty k then none else some k

abbrev Pushed : {F : Type 0} → DeployConfig → Daemon F → Option String × Daemon F → Type 0
Pushed dc d (some e, d') = d'.sup ≡ d.sup
Pushed dc d (none, d') = (d'.sup ≡ d.sup) × (d'.stored ≡ holds dc)

abbrev Keyed : {F : Type 0} → String → Daemon F → Option String × Daemon F → Type 0
Keyed k d (some e, d') = d'.sup ≡ d.sup
Keyed k d (none, d') = (d'.sup ≡ d.sup) × (d'.stored ≡ d.stored) × (d'.key ≡ key_left k)

-- Whether a body can be read, and whether it holds more than blanks.
abbrev is_read : StartBody → Bool
is_read (unread e) = false
is_read blank = true
is_read (malformed e) = true
is_read (carries dc k) = true

abbrev has_text : StartBody → Bool
has_text (unread e) = false
has_text blank = false
has_text (malformed e) = true
has_text (carries dc k) = true

-- The config and the key that an engine is started with: those of the request, or what is stored.
abbrev Runs : {F : Type 0} → StartBody → Daemon F → Daemon F → Type 0
Runs blank d d' = (d'.stored ≡ d.stored) × (d'.key ≡ d.key)
Runs (carries dc k) d d' = (d'.stored ≡ holds dc) × (d'.key ≡ key_left k)
Runs (unread e) d d' = ⊥
Runs (malformed e) d d' = ⊥

abbrev pub Answered : {F : Type 0} → Host → StartBody → Daemon F → Reply × Daemon F → Type 0
Answered host b d (reports st, d') =
    (st ≡ status_reply host d')
    × Runs b d d'
    × (is_running d.sup.state ≡ false)
    × (d'.sup.state ≡ running)
    × (d'.sup.process ≡ some d.sup.next)
    × ((dc : DeployConfig) × (d'.stored ≡ holds dc)
        × (d'.model ≡ dc.model_id)
        × RunsCommand host dc d')
    × (d'.readiness ≡ forget_ready)
    × (d'.sample ≡ forget_sample)
    × (d'.hist ≡ [])
Answered host b d (refuses code e, d') =
    (d'.sup ≡ d.sup)
    × ((code == 409) ≡ (is_running d.sup.state && is_read b))
    × ((is_running d.sup.state && has_text b) ≡ true → d' ≡ d)
Answered host b d (says m, d') = ⊥
Answered host b d (shows l, d') = ⊥
