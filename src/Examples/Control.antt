-- ===== src/Examples/Control.antt =====
-- A daemon's requests on a small host (internal/daemon/api.go).
use spinloop.Prelude.{
  ℕ, String, true, false, ◌≡◌, refl, List, [], ◌∷◌, none, some, keep_if, str_eq, zero, suc, code,
  ◌==◌, Option, if◌then◌else◌,
}
use spinloop.Prelude.Int.{pos, ℤ, negsuc}
use spinloop.Prelude.Result.{ok}
use spinloop.Fleet.Tags.{is_empty}
use spinloop.Fleet.Wakeable.{DeployConfig}
use spinloop.Daemon.Activity.{idle_record}
use spinloop.Daemon.Supervisor.{idle, running}
use spinloop.Daemon.Sampler.{forget_sample, forget_ready}
use spinloop.Daemon.Logs.{holds, read_log}
use spinloop.Daemon.Control.{Daemon, Host, missing, done}
use spinloop.Daemon.Control.Api.{
  refuses, unauthorized, get_status, post_stop, ApiWorld, serve, Addresses, loopback_addr, listen,
  handle_logs, log_reply,
}
use spinloop.Daemon.Control.Api.Exposed.{Call, bears, serve_all, route_all, serve_all-bears}
use spinloop.Daemon.Control.Api.Query.{logs_query, handle_logs-query}

abbrev config : String → DeployConfig
config model = record {
  runner = "llamacpp";
  model_id = model;
  quant = "";
  context_size = pos 0;
  parallel = pos 0;
  served_model_name = "";
  serve_args = [];
  companions = [];
  spinloop_version = "";
  instance_type = "";
}

abbrev host : Host
host = record {
  validate = λ dc. none;
  make_dir = none;
  write_config = done;
  remove_key = none;
  write_key = done;
  stats_key = true;
  key_path = "key";
  argv_of = λ dc. ok ("engine" ∷ dc.model_id ∷ [], record { base_url = ""; engine = "" }, none);
  key_args = some (λ dc path. ok ("--api-key-file" ∷ path ∷ []));
  spawn = none;
  now = 5000000000;
  log_path = "/log";
  version = "1";
  format_time = λ t. "";
}

abbrev fresh : Daemon ℕ
fresh = record {
  sup = record {
    state = idle;
    argv = [];
    started = 0;
    stopping = false;
    process = none;
    next = 0;
    wait_err = none;
  };
  stored = missing;
  key = none;
  act = idle_record;
  sample = forget_sample;
  readiness = forget_ready;
  hist = [];
  system = none;
  speed = record { value = none; observed = 0; last_tick = 0 };
  runner = "";
  model = "";
  served_name = "";
  scrape = record { base_url = ""; engine = "" };
  endpoint = none;
}

abbrev runs_a : Daemon ℕ
runs_a = record fresh {
  sup = record {
    state = running;
    argv = "engine" ∷ "a" ∷ [];
    started = 0;
    stopping = false;
    process = some 0;
    next = 1;
    wait_err = none;
  };
  model = "a";
}

-- Port 4242 of every interface.
abbrev addresses : Addresses
addresses = record { split_host = λ addr. some ""; is_loopback_ip = λ h. none; equal_fold = str_eq }

abbrev world : ApiWorld
world = record { host = host; exit = none; log = holds true (97 ∷ 10 ∷ []); parse_int = λ s. none }

abbrev calls : List Call
calls =
    record { world = world; authorization = ""; request = post_stop }
    ∷ record { world = world; authorization = "Bearer t"; request = get_status }
    ∷ []

serve_all-bears_example :
    (is_empty "t" ≡ false)
    × ((serve_all "t" calls runs_a).1 ≡ route_all (keep_if (bears "t") calls) runs_a)
    × ((c : Call)
        → bears "t" c ≡ false
        → serve "t" c.world c.authorization c.request runs_a ≡ (refuses 401 unauthorized, runs_a))
unfolding loopback_addr listen
serve_all-bears_example = serve_all-bears addresses none ":4242" "t" calls runs_a refl refl

-- Numbers in strokes: `+||` is 2, and `-||` is -3.
strokes : ℕ → String
strokes zero = String.[]
strokes (suc n) = String.◌∷◌ "|" (strokes n)

count_strokes : String → ℕ
count_strokes String.[] = 0
count_strokes (String.◌∷◌ c s) = suc (count_strokes s)

show : ℤ → String
show (pos n) = String.◌∷◌ "+" (strokes n)
show (negsuc n) = String.◌∷◌ "-" (strokes n)

parse : String → Option ℤ
parse String.[] = none
parse (String.◌∷◌ c s) =
    if code c == b'+' then some (pos (count_strokes s)) else some (negsuc (count_strokes s))

count_strokes-strokes : (n : ℕ) → count_strokes (strokes n) ≡ n
unfolding count_strokes strokes
count_strokes-strokes zero = refl
count_strokes-strokes (suc n) = rw (count_strokes-strokes n)

parse-show : (z : ℤ) → parse (show z) ≡ some z
unfolding parse show
parse-show (pos n) = rw (count_strokes-strokes n)
parse-show (negsuc n) = rw (count_strokes-strokes n)

show_filled : (z : ℤ) → is_empty (show z) ≡ false
unfolding show
show_filled (pos n) = refl
show_filled (negsuc n) = refl

handle_logs-query_example :
    handle_logs parse "/log"
      (holds true (97 ∷ 10 ∷ []))
      (logs_query show (pos 1) (pos 7)).0
      (logs_query show (pos 1) (pos 7)).1
    ≡ log_reply (read_log "/log" (pos 1) (pos 7) (holds true (97 ∷ 10 ∷ [])))
handle_logs-query_example =
    handle_logs-query show parse "/log" (holds true (97 ∷ 10 ∷ [])) (pos 1) (pos 7) parse-show
      show_filled
