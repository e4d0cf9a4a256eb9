-- ===== src/Daemon/Sampler.antt =====
-- One tick of the daemon's sampler (internal/daemon/activity.go, readiness.go). The engine's answers
-- to a scrape and to a health check are arguments.
pub mod Readings
use spinloop.Prelude.{
  ℕ, String, Bool, true, false, not, List, Option, none, some, if◌then◌else◌, str_eq, ◌||◌, ◌&&◌,
  is_some,
}
use spinloop.Prelude.Result.{Result, ok, err}
use spinloop.Fleet.Tags.{is_empty}
use spinloop.Daemon.Activity.{TokenStats, Activity, observe, mark_active}

-- The runners with a health check.
unfoldable pub readiness_checked : String → Bool
readiness_checked runner =
    str_eq runner "llamacpp" || (str_eq runner "vllm" || str_eq runner "mtplx")

-- `have` is false where no reading has landed.
pub record Readiness : Type 0 where
  pub ready : Bool
  pub have : Bool

pub record EngineSample : Type 0 where
  pub tokens : Option TokenStats
  pub failure : Option String
  pub base_url : String
  pub have : Bool

pub record Sampler : Type 0 where
  -- The supervisor's state is running.
  pub engine_runs : Bool
  pub base_url : String
  pub engine : String
  pub runner : String
  pub act : Activity
  pub sample : EngineSample
  pub readiness : Readiness

unfoldable pub record_ready : Bool → Readiness
record_ready ready = record { ready = ready; have = true }

unfoldable pub read_ready : Readiness → Bool × Bool
read_ready r = (r.ready, r.have)

unfoldable pub forget_ready : Readiness
forget_ready = record { ready = false; have = false }

-- A reading that failed has no counters, and its error.
unfoldable pub record_sample : Result String TokenStats → String → EngineSample
record_sample (ok tokens) base_url = record {
  tokens = some tokens;
  failure = none;
  base_url = base_url;
  have = true;
}
record_sample (err e) base_url = record {
  tokens = none;
  failure = some e;
  base_url = base_url;
  have = true;
}

unfoldable pub read_sample : EngineSample → Option TokenStats × Option String × String
read_sample e = if e.have then (e.tokens, e.failure, e.base_url) else (none, none, "")

unfoldable pub have_tokens : EngineSample → Bool
have_tokens e = is_some e.tokens

unfoldable pub forget_sample : EngineSample
forget_sample = record { tokens = none; failure = none; base_url = ""; have = false }

unfoldable pub awaiting_first_sample : Sampler → Bool
unfolding have_tokens
awaiting_first_sample d =
    if have_tokens d.sample then false else not (is_empty d.base_url) && not (is_empty d.engine)

abbrev answer : Result String TokenStats → Option TokenStats
answer (ok tokens) = some tokens
answer (err e) = none

unfoldable pub sample_once : Result String TokenStats → ℕ → Sampler → Sampler
sample_once scrape now d =
    if not d.engine_runs
    then d
    else if is_empty d.base_url || is_empty d.engine
    then d
    else record d {
      sample = record_sample scrape d.base_url;
      act = observe (answer scrape) now d.act;
    }

unfoldable pub check_ready_once : Bool → Sampler → Sampler
unfolding record_ready
check_ready_once answered d =
    if not d.engine_runs
    then d
    else if is_empty d.base_url || not (readiness_checked d.runner)
    then d
    else record d { readiness = record_ready answered }
