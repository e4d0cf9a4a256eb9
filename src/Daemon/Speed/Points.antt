-- ===== src/Daemon/Speed/Points.antt =====
-- The points that the ticks fold into the history (internal/daemon/speed.go).
use spinloop.Prelude.{
  ℕ, suc, ◌+◌, ◌≤◌, ◌<◌, ◌≡◌, List, [], ◌∷◌, Option, none, some, if◌then◌else◌, ltb, arith,
}
use spinloop.Daemon.Speed.{
  EngineSpeed, forget, observe, sample_tick, SpeedEvent, figure, tick, speed_step,
}

module _ {ℓ} {F : Type ℓ} where
  -- A figure that arrives after a tick is the point of the next one, the last such figure where
  -- there are several, and a tick that no figure came before gives none.
  pub sample_tick_points :
      (v w : F) (t u now later : ℕ) (s : EngineSpeed F)
      → s.last_tick < t
      → s.last_tick < u
      → u ≤ now
      → ((sample_tick now (observe w u (observe v t s))).0 ≡ some w)
        × ((sample_tick later (sample_tick now (observe w u s)).1).0 ≡ none)
  unfolding sample_tick observe
  sample_tick_points v w t u now later s h k l = ground arith

  abbrev point_count : Option F → ℕ
  point_count none = 0
  point_count (some v) = 1

  -- A figure that no tick has folded yet.
  abbrev pending : EngineSpeed F → ℕ
  pending s = if ltb s.last_tick s.observed then point_count s.value else 0

  abbrev pub figures : List (SpeedEvent F × ℕ) → ℕ
  figures [] = 0
  figures ((figure v, now) ∷ events) = suc (figures events)
  figures ((tick, now) ∷ events) = figures events

  unfoldable pub points : List (SpeedEvent F × ℕ) → EngineSpeed F → ℕ
  points [] s = 0
  points ((e, now) ∷ events) s =
      point_count (speed_step e now s).0 + points events (speed_step e now s).1

  -- No event is earlier than the ones before it.
  abbrev pub Later : ℕ → List (SpeedEvent F × ℕ) → Type 0
  Later now [] = Unit {0}
  Later now ((e, t) ∷ events) = (now ≤ t) × Later t events

  points-figures :
      (events : List (SpeedEvent F × ℕ)) (now : ℕ) (s : EngineSpeed F)
      → s.observed ≤ now
      → Later now events
      → points events s ≤ figures events + pending s
  unfolding points observe sample_tick
  points-figures [] now s h l = omega arith
  points-figures ((figure v, t) ∷ events) now s h l =
      ground (
        arith,
        points-figures events t (record s { value = some v; observed = t }) (omega arith) l.1,
      )
  points-figures ((tick, t) ∷ events) now s h l =
      ground (arith, points-figures events t (record s { last_tick = t }) (omega arith) l.1)

  -- Over any run of figures and ticks since the record was dropped, no figure is folded twice: there
  -- are at most as many points as figures.
  pub points-le-figures :
      (events : List (SpeedEvent F × ℕ)) (s : EngineSpeed F)
      → Later 0 events
      → points events (forget s) ≤ figures events
  unfolding forget
  points-le-figures events s l = omega (
    arith,
    points-figures events 0 (record { value = none; observed = 0; last_tick = 0 }) (omega arith) l,
  )
