-- ===== src/Daemon/Speed.antt =====
-- The rate that the engine reports for itself (internal/daemon/speed.go). A rate is of any type, and
-- the zero time is 0.
pub mod Points
use spinloop.Prelude.{
  ℕ, ◌+◌, ◌-◌, Bool, true, false, List, [], ◌∷◌, Option, none, some, if◌then◌else◌, ltb, ◌&&◌,
}

-- `value` and `have` of the source as one.
pub record EngineSpeed {ℓ} (F : Type ℓ) : Type ℓ where
  pub value : Option F
  pub observed : ℕ
  pub last_tick : ℕ

module _ {ℓ} {F : Type ℓ} where
  unfoldable pub forget : EngineSpeed F → EngineSpeed F
  forget s = record { value = none; observed = 0; last_tick = 0 }

  unfoldable pub observe : F → ℕ → EngineSpeed F → EngineSpeed F
  observe v now s = record s { value = some v; observed = now }

  -- The point of a tick, and the record after it.
  unfoldable pub sample_tick : ℕ → EngineSpeed F → Option F × EngineSpeed F
  sample_tick now s =
      (if ltb s.last_tick s.observed then s.value else none, record s { last_tick = now })

  unfoldable pub current : ℕ → ℕ → EngineSpeed F → Option F
  current now stale_after s = if ltb stale_after (now - s.observed) then none else s.value

-- What happens to the record: a figure in the engine's output, or a tick of the sampler.
pub data SpeedEvent {ℓ} (F : Type ℓ) : Type ℓ where
  figure : F → SpeedEvent F
  tick : SpeedEvent F

abbrev pub speed_step {ℓ} :
    {F : Type ℓ} → SpeedEvent F → ℕ → EngineSpeed F → Option F × EngineSpeed F
speed_step (figure v) now s = (none, observe v now s)
speed_step tick now s = sample_tick now s
