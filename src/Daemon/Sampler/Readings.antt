-- ===== src/Daemon/Sampler/Readings.antt =====
-- When a tick records something (internal/daemon/activity.go, readiness.go).
use spinloop.Prelude.{
  ℕ, String, Bool, true, false, not, ◌≡◌, ◌⊎◌, none, some, arith, ◌||◌, ◌&&◌, Bool-cases, inl, inr,
}
use spinloop.Prelude.Result.{ok, err}
use spinloop.Fleet.Tags.{is_empty}
use spinloop.Daemon.Activity.{TokenStats, observe}
use spinloop.Daemon.Sampler.{
  Sampler, readiness_checked, record_sample, read_sample, read_ready, awaiting_first_sample,
  sample_once, check_ready_once,
}

-- A scrape that failed is kept as an error with no counters, and leaves the record of activity alone;
-- the sampler goes on at its short interval. One that succeeded replaces both and ends the short
-- interval. Neither is taken while no engine runs or no target is known.
pub sample_once_outcomes :
    (now : ℕ) (d : Sampler) (e : String) (tokens : TokenStats)
    → (((d.engine_runs ≡ false) ⊎ ((is_empty d.base_url || is_empty d.engine) ≡ true))
        × (sample_once (ok tokens) now d ≡ d)
        × (sample_once (err e) now d ≡ d))
      ⊎ ((d.engine_runs ≡ true)
          × (is_empty d.base_url ≡ false)
          × (is_empty d.engine ≡ false)
          × ((sample_once (err e) now d).act ≡ d.act)
          × (read_sample (sample_once (err e) now d).sample ≡ (none, some e, d.base_url))
          × (awaiting_first_sample (sample_once (err e) now d) ≡ true)
          × (read_sample (sample_once (ok tokens) now d).sample ≡ (some tokens, none, d.base_url))
          × ((sample_once (ok tokens) now d).act ≡ observe (some tokens) now d.act)
          × (awaiting_first_sample (sample_once (ok tokens) now d) ≡ false))
unfolding sample_once record_sample read_sample awaiting_first_sample observe
sample_once_outcomes now d e tokens =
    elim (Bool-cases (d.engine_runs && not (is_empty d.base_url || is_empty d.engine))) [
      | inl h ↦ inr (ground arith)
      | inr h ↦ inl (ground arith)
    ]

-- The readiness says something exactly where an engine of a runner with a health check runs at a
-- known address, and then it is the answer of that check; otherwise it stays what it was.
pub check_ready_once_outcomes :
    (answered : Bool) (d : Sampler)
    → ((d.engine_runs ≡ true)
        × (is_empty d.base_url ≡ false)
        × (readiness_checked d.runner ≡ true)
        × (read_ready (check_ready_once answered d).readiness ≡ (answered, true)))
      ⊎ (((d.engine_runs ≡ false)
            ⊎ ((is_empty d.base_url ≡ true) ⊎ (readiness_checked d.runner ≡ false)))
          × (check_ready_once answered d ≡ d))
unfolding check_ready_once read_ready
check_ready_once_outcomes answered d = ground arith
