-- ===== src/Daemon/Activity/Observed.antt =====
-- What the record of activity says (internal/daemon/activity.go).
use spinloop.Prelude.{
  ℕ, ◌≤◌, ◌<◌, Bool, true, false, ◌≡◌, ◌≢◌, refl, ◌⊎◌, List, [], ◌∷◌, Option, none, some, arith,
  keep_if, is_some,
}
use spinloop.Daemon.Activity.{TokenStats, Activity, observe, mark_active, snapshot, observe_all}

abbrev pub succeeded : Option TokenStats × ℕ → Bool
succeeded (tokens, now) = is_some tokens

-- Samples that failed leave no trace: the record is that of the samples that succeeded.
pub observe_all-failures :
    (samples : List (Option TokenStats × ℕ)) (a : Activity)
    → observe_all samples a ≡ observe_all (keep_if succeeded samples) a
unfolding observe_all observe
observe_all-failures [] a = refl
observe_all-failures ((none, now) ∷ samples) a = observe_all-failures samples a
observe_all-failures ((some t, now) ∷ samples) a =
    observe_all-failures samples (observe (some t) now a)

-- A sample that succeeded becomes the baseline, and moves the time of the last activity to its own
-- exactly where requests run or the counter differs from the baseline, a counter that went back
-- included; with no baseline, as after a start, the counter alone is no activity.
pub observe-snapshot :
    (t : TokenStats) (now : ℕ) (a : Activity)
    → ((observe (some t) now a).last_counter ≡ t.counter)
      × ((observe (some t) now a).have_counter ≡ true)
      × ((((0 < t.running) ⊎ ((a.have_counter ≡ true) × (t.counter ≢ a.last_counter)))
            × (snapshot (observe (some t) now a) ≡ (now, true)))
          ⊎ ((t.running ≡ 0)
              × ((a.have_counter ≡ false) ⊎ (t.counter ≡ a.last_counter))
              × (snapshot (observe (some t) now a) ≡ snapshot a)))
unfolding observe snapshot
observe-snapshot t now a = (ground arith, ground arith, ground arith)

-- The clock does not go back along the samples.
abbrev pub Ordered : ℕ → List (Option TokenStats × ℕ) → Type 0
Ordered now [] = Unit {0}
Ordered now ((tokens, t) ∷ samples) = (now ≤ t) × Ordered t samples

observe-le :
    (tokens : Option TokenStats) (now t : ℕ) (a : Activity)
    → a.last_active ≤ now
    → now ≤ t
    → (a.last_active ≤ (observe tokens t a).last_active) × ((observe tokens t a).last_active ≤ t)
unfolding observe
observe-le none now t a h k = (omega arith, omega arith)
observe-le (some s) now t a h k = ground arith

observe-have :
    (tokens : Option TokenStats) (t : ℕ) (a : Activity)
    → a.have_active ≡ true
    → (observe tokens t a).have_active ≡ true
unfolding observe
observe-have none t a h = h
observe-have (some s) t a h = ground arith

observe_all-after :
    (start now : ℕ) (samples : List (Option TokenStats × ℕ)) (a : Activity)
    → Ordered now samples
    → start ≤ a.last_active
    → a.last_active ≤ now
    → a.have_active ≡ true
    → (start ≤ (observe_all samples a).last_active) × ((observe_all samples a).have_active ≡ true)
unfolding observe_all
observe_all-after start now [] a o s l e = (s, e)
observe_all-after start now ((tokens, t) ∷ samples) a o s l e =
    let (kept, bounded) = observe-le tokens now t a l o.0 in
    observe_all-after start t samples (observe tokens t a) o.1 (omega arith) bounded
      (observe-have tokens t a e)

-- From a start on, the engine has been active, and its last activity is never put before the start,
-- whatever samples follow.
pub activity_since_start :
    (start : ℕ) (samples : List (Option TokenStats × ℕ)) (a : Activity)
    → Ordered start samples
    → (start ≤ (snapshot (observe_all samples (mark_active start a))).0)
      × ((snapshot (observe_all samples (mark_active start a))).1 ≡ true)
unfolding snapshot mark_active
activity_since_start start samples a h =
    observe_all-after start start samples
      (record { last_active = start; last_counter = 0; have_counter = false; have_active = true }) h
      (omega arith) (omega arith) refl
