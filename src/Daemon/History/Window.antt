-- ===== src/Daemon/History/Window.antt =====
-- What the history holds (internal/daemon/history.go).
use spinloop.Prelude.{
  ℕ, zero, suc, ◌+◌, ◌-◌, ◌≤◌, not, keep_if, ◌≡◌, refl, ap, sym, List, [], ◌∷◌, ◌++◌, ltb, length,
  drop, length-drop, arith, All, All-append, Bool-cases, inl, inr,
}
use spinloop.Daemon.History.{
  HistorySample, history_window, history_limit, has_aged, expire, newest, add,
}

module _ {ℓ} {F : Type ℓ} where
  -- Oldest first.
  abbrev pub InOrder : List (HistorySample F) → Type 0
  InOrder [] = Unit {0}
  InOrder (s ∷ samples) = All (λ x. s.time ≤ x.time) samples × InOrder samples

  abbrev pub Recent : ℕ → List (HistorySample F) → Type 0
  Recent now samples = All (λ x. now ≤ x.time + history_window) samples

  InOrder-drop :
      (n : ℕ) (samples : List (HistorySample F)) → InOrder samples → InOrder (drop n samples)
  InOrder-drop zero samples h = h
  InOrder-drop (suc n) [] h = h
  InOrder-drop (suc n) (s ∷ samples) h = InOrder-drop n samples h.1

  All-drop :
      (P : HistorySample F → Type 0) (n : ℕ) (samples : List (HistorySample F))
      → All P samples
      → All P (drop n samples)
  All-drop P zero samples h = h
  All-drop P (suc n) [] h = h
  All-drop P (suc n) (s ∷ samples) h = All-drop P n samples h.1

  -- Every reading is no later than the time.
  abbrev pub UpTo : ℕ → List (HistorySample F) → Type 0
  UpTo now samples = All (λ x. x.time ≤ now) samples

  InOrder-append :
      (samples : List (HistorySample F)) (s : HistorySample F)
      → InOrder samples
      → UpTo s.time samples
      → InOrder (samples ++ s ∷ [])
  InOrder-append [] s h u = (tt, tt)
  InOrder-append (x ∷ samples) s h u =
      (All-append _ samples (s ∷ []) h.0 (u.0, tt), InOrder-append samples s h.1 u.1)

  expire-UpTo :
      (now t : ℕ) (samples : List (HistorySample F)) → UpTo t samples → UpTo t (expire now samples)
  unfolding expire
  expire-UpTo now t [] h = tt
  expire-UpTo now t (s ∷ samples) h = ground (arith, expire-UpTo now t samples h.1)

  expire-InOrder :
      (now : ℕ) (samples : List (HistorySample F)) → InOrder samples → InOrder (expire now samples)
  unfolding expire
  expire-InOrder now [] h = tt
  expire-InOrder now (s ∷ samples) h = ground (arith, expire-InOrder now samples h.1)

  Recent-later :
      (now t : ℕ) (samples : List (HistorySample F))
      → now ≤ t + history_window
      → All (λ x. t ≤ x.time) samples
      → Recent now samples
  Recent-later now t [] h a = tt
  Recent-later now t (x ∷ samples) h a = (omega arith, Recent-later now t samples h a.1)

  keep_if-Recent :
      (now : ℕ) (samples : List (HistorySample F))
      → Recent now samples
      → keep_if (λ x. not (has_aged now x)) samples ≡ samples
  keep_if-Recent now [] h = refl
  keep_if-Recent now (s ∷ samples) h = ground (arith, keep_if-Recent now samples h.1)

  -- In order, the readings that have aged stand first.
  expire-keep_if :
      (now : ℕ) (samples : List (HistorySample F))
      → InOrder samples
      → (expire now samples ≡ keep_if (λ x. not (has_aged now x)) samples)
        × Recent now (expire now samples)
  unfolding expire
  expire-keep_if now [] h = (refl, tt)
  expire-keep_if now (s ∷ samples) h = elim (Bool-cases (has_aged now s)) [
    | inl e ↦ rw e (expire-keep_if now samples h.1)
    | inr e ↦
        let late : Recent now samples = Recent-later now s.time samples (ground arith) h.0 in
        rw e (ap (◌∷◌ s) (sym (keep_if-Recent now samples late)), (ground arith, late))
  ]

  newest-drop :
      (samples : List (HistorySample F))
      → (newest samples ≡ drop (length samples - history_limit) samples)
        × (length (newest samples) ≤ history_limit)
  newest-drop samples = elim (Bool-cases (ltb history_limit (length samples))) [
    | inl e ↦ rw e (refl, omega (arith, length-drop (length samples - history_limit) samples))
    | inr e ↦
        let zero_excess : length samples - history_limit ≡ 0 = ground arith in
        rw (e, zero_excess) (refl, ground arith)
  ]

  -- The readings within the ten minutes before a new one, with the new one behind them.
  abbrev pub in_window : HistorySample F → List (HistorySample F) → List (HistorySample F)
  in_window s samples = keep_if (λ x. not (has_aged s.time x)) samples ++ s ∷ []

  -- A reading that is no earlier than those held, which are in order, is added so that the history is
  -- in order again, holds at most forty readings, and none that is more than ten minutes older than
  -- the new one: it is then the readings within the ten minutes, the new one last, less the oldest
  -- of them where they are more than forty.
  pub add_window :
      (s : HistorySample F) (samples : List (HistorySample F))
      → InOrder samples
      → UpTo s.time samples
      → InOrder (add s samples)
        × Recent s.time (add s samples)
        × (length (add s samples) ≤ history_limit)
        × (add s samples
            ≡ drop (length (in_window s samples) - history_limit) (in_window s samples))
  unfolding add
  add_window s samples o u = (
    rw (cut.0) (InOrder-drop excess all ordered),
    rw (cut.0) (All-drop _ excess all recent),
    cut.1,
    rw (← same) (cut.0),
  )
    where
      all : List (HistorySample F)
      all = expire s.time samples ++ s ∷ []

      excess : ℕ
      excess = length all - history_limit

      same : expire s.time samples ≡ keep_if (λ x. not (has_aged s.time x)) samples
      same = (expire-keep_if s.time samples o).0

      ordered : InOrder all
      ordered =
          InOrder-append (expire s.time samples) s (expire-InOrder s.time samples o)
            (expire-UpTo s.time s.time samples u)

      recent : Recent s.time all
      recent =
          All-append _ (expire s.time samples) (s ∷ []) (expire-keep_if s.time samples o).1
            (omega arith, tt)

      cut : (newest all ≡ drop excess all) × (length (newest all) ≤ history_limit)
      cut = newest-drop all
