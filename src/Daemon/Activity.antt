-- ===== src/Daemon/Activity.antt =====
-- When the engine last did any work (internal/daemon/activity.go). A time is a count of the clock's
-- units.
pub mod Observed
use spinloop.Prelude.{
  ℕ, Bool, true, false, not, List, [], ◌∷◌, Option, none, some, if◌then◌else◌, ltb, ◌==◌, ◌&&◌,
  ◌||◌,
}

pub record TokenStats : Type 0 where
  pub running : ℕ
  pub counter : ℕ

pub record Activity : Type 0 where
  pub last_active : ℕ
  pub last_counter : ℕ
  pub have_counter : Bool
  pub have_active : Bool

abbrev pub idle_record : Activity
idle_record = record {
  last_active = 0;
  last_counter = 0;
  have_counter = false;
  have_active = false;
}

-- The counter moved since the baseline, where there is one.
abbrev pub moved : Activity → TokenStats → Bool
moved a tokens = a.have_counter && not (tokens.counter == a.last_counter)

abbrev pub shows_work : Activity → TokenStats → Bool
shows_work a tokens = ltb 0 tokens.running || moved a tokens

-- `none` is a sample that failed.
unfoldable pub observe : Option TokenStats → ℕ → Activity → Activity
observe none now a = a
observe (some tokens) now a =
    let b = record a { last_counter = tokens.counter; have_counter = true } in
    if shows_work a tokens then record b { last_active = now; have_active = true } else b

unfoldable pub mark_active : ℕ → Activity → Activity
mark_active now a = record {
  last_active = now;
  last_counter = 0;
  have_counter = false;
  have_active = true;
}

unfoldable pub snapshot : Activity → ℕ × Bool
snapshot a = (a.last_active, a.have_active)

unfoldable pub observe_all : List (Option TokenStats × ℕ) → Activity → Activity
observe_all [] a = a
observe_all ((tokens, now) ∷ samples) a = observe_all samples (observe tokens now a)
