-- ===== src/Daemon/History.antt =====
-- The retained readings of the host's figures (internal/daemon/history.go). A time is a count of
-- seconds since 1970, and a figure is of any type.
pub mod Window
use spinloop.Prelude.{
  ℕ, suc, ◌+◌, ◌-◌, Bool, true, false, List, [], ◌∷◌, ◌++◌, Option, none, some, if◌then◌else◌, ltb,
  length, drop,
}

pub record Gpu {ℓ} (F : Type ℓ) : Type ℓ where
  pub index : ℕ
  pub util : F
  pub mem : Option F

pub record HistorySample {ℓ} (F : Type ℓ) : Type ℓ where
  pub time : ℕ
  pub cpu : Option F
  pub mem : Option F
  pub speed : Option F
  pub gpus : List (Gpu F)

-- Ten minutes.
abbrev pub history_window : ℕ
history_window = 600

abbrev pub history_limit : ℕ
history_limit = 40

module _ {ℓ} {F : Type ℓ} where
  -- The sample's time is before the window that ends at `now`.
  abbrev pub has_aged : ℕ → HistorySample F → Bool
  has_aged now s = ltb (s.time + history_window) now

  -- The samples behind those that have aged, up to the first that has not.
  unfoldable pub expire : ℕ → List (HistorySample F) → List (HistorySample F)
  expire now [] = []
  expire now (s ∷ samples) =
      let rest = expire now samples in if has_aged now s then rest else s ∷ samples

  abbrev pub newest : List (HistorySample F) → List (HistorySample F)
  newest samples =
      if ltb history_limit (length samples)
      then drop (length samples - history_limit) samples
      else samples

  unfoldable pub add : HistorySample F → List (HistorySample F) → List (HistorySample F)
  add s samples = newest (expire s.time samples ++ s ∷ [])

  -- `none` where there are no readings, which leaves the field out of the reply.
  unfoldable pub snapshot : List (HistorySample F) → Option (List (HistorySample F))
  snapshot [] = none
  snapshot (s ∷ samples) = some (s ∷ samples)

-- What the sampler retains of one reading: nothing where it has no figure at all.
unfoldable pub retain_sample {ℓ} :
    {F : Type ℓ} → HistorySample F → List (HistorySample F) → List (HistorySample F)
retain_sample s samples = elim s.cpu [
  | some c ↦ add s samples
  | none ↦ elim s.mem [
    | some m ↦ add s samples
    | none ↦ elim s.gpus [
      | g ∷ gs ↦ add s samples
      | [] ↦ elim s.speed [ some v ↦ add s samples | none ↦ samples ]
    ]
  ]
]
