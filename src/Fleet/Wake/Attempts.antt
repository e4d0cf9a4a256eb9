-- ===== src/Fleet/Wake/Attempts.antt =====
-- What a wake starts, and how it ends (`Wake` of internal/fleet/wake.go).
use mathlib.Core.List.{append_assoc, append-nil}
use spinloop.Prelude.{
  String, Bool, true, false, ◌≡◌, refl, ap, sym, subst, ◌∙◌, List, [], ◌∷◌, ◌++◌, map, All,
  Bool-cases, inl, inr,
}
use spinloop.Prelude.Map.{Map}
use spinloop.Prelude.Result.{Result, ok, err, Result-cases}
use spinloop.Fleet.Answer.{StatusResponse}
use spinloop.Fleet.Config.{NodeConfig, Config, node_wakes, engine_token}
use spinloop.Fleet.Select.{World, Want, Candidate, Choice, choice_for}
use spinloop.Fleet.Waiting.{wait_ready}
use spinloop.Fleet.Wakeable.{Resolved, startable, resolve}
use spinloop.Fleet.Wake.{
  Attempt, Nodes, Refusal, WakeError, WakeFailure, Woken, Start, started, conflict, refused_start,
  fatal, plain, none_could, not_routed, not_ready, key_unset, client_failed, not_started,
  start_and_wait, start_answered, tried, taken, prepared, finished, wake_each, with_status,
  no_config, no_client, waking_disabled,
}

abbrev pub is_started : Start → Bool
is_started started = true
is_started _ = false

-- Every start but the last was refused.
abbrev pub OnlyLast : List Attempt → Type 0
OnlyLast [] = Unit {0}
OnlyLast (a ∷ []) = Unit {0}
OnlyLast (a ∷ b ∷ rest) = (is_started a.answer ≡ false) × OnlyLast (b ∷ rest)

module _ (world : World) (c : Config) (nodes : Nodes) (fn : NodeConfig → Resolved) (w : Want) where
  -- A start of a node that answered, that runs nothing and that may be woken, with the key that the
  -- file names for it.
  abbrev pub Allowed : Attempt → Type 0
  Allowed a =
      (startable a.candidate ≡ true)
      × (node_wakes c a.candidate.entry ≡ true)
      × (engine_token world.env c a.candidate.entry ≡ ok a.key)
      × (a.answer ≡ nodes.start_with a.candidate.entry a.config a.key)

  -- The last start of a wake.
  abbrev pub Last : List Attempt → (Attempt → Type 0) → Type 0
  Last trace P = (earlier : List Attempt) × (a : Attempt) × (trace ≡ earlier ++ a ∷ []) × P a

  abbrev pub outcome_of : Attempt → Result WakeFailure StatusResponse
  outcome_of a = start_and_wait world c nodes a.candidate.entry w a.config a.key

  abbrev pub NoneStarted : List Attempt → Type 0
  NoneStarted trace = All (λ a. is_started a.answer ≡ false) trace

  -- How the loop ends, with the names of those that were passed over before.
  abbrev pub LoopEnds : List String → List Candidate → Woken → Type 0
  LoopEnds before cands (trace, ok choice) = Last trace (λ a.
      (status : StatusResponse) × (outcome_of a ≡ ok status)
      × (choice_for world c (with_status a.candidate status) w true a.key ≡ ok choice))
  LoopEnds before cands (trace, err (not_routed e)) = Last trace (λ a.
      (status : StatusResponse) × (outcome_of a ≡ ok status)
      × (choice_for world c (with_status a.candidate status) w true a.key ≡ err e))
  LoopEnds before cands (trace, err (not_ready e)) = Last trace (λ a. outcome_of a ≡ err (fatal e))
  LoopEnds before cands (trace, err (key_unset e)) =
      ((cand : Candidate) × (engine_token world.env c cand.entry ≡ err e)) × NoneStarted trace
  LoopEnds before cands (trace, err (client_failed e)) = ⊥
  LoopEnds before cands (trace, err (none_could path what refused)) =
      (map (λ r. r.0) refused ≡ before ++ map (λ cand. cand.entry.name) cands) × NoneStarted trace

  pub record Wakes (before : List String) (cands : List Candidate) (out : Woken) : Type 0 where
    pub allowed : All Allowed out.0
    pub single : OnlyLast out.0
    pub outcome : LoopEnds before cands out

  -- A failure after which another node may be tried is no start.
  plain-refused :
      (entry : NodeConfig) (start : Start) (e : String)
      → start_answered world c nodes entry w start ≡ err (plain e)
      → is_started start ≡ false
  plain-refused entry started e h =
      elim (Result-cases (wait_ready world c entry w (nodes.polls entry))) [
        | inl (s, p) ↦ absurd (cc)
        | inr (f, p) ↦ absurd (cc)
      ]
  plain-refused entry (conflict _) e h = refl
  plain-refused entry (refused_start _) e h = refl

  OnlyLast-cons :
      (a : Attempt) (trace : List Attempt)
      → is_started a.answer ≡ false
      → OnlyLast trace
      → OnlyLast (a ∷ trace)
  OnlyLast-cons a [] h k = tt
  OnlyLast-cons a (b ∷ trace) h k = (h, k)

  Last-cons :
      (a : Attempt) (trace : List Attempt) (P : Attempt → Type 0)
      → Last trace P
      → Last (a ∷ trace) P
  Last-cons a trace P (earlier, b, e, p) = (a ∷ earlier, b, ap (◌∷◌ a) e, p)

  LoopEnds-cons :
      (before : List String) (cands : List Candidate) (a : Attempt) (trace : List Attempt)
      (r : Result WakeError Choice)
      → is_started a.answer ≡ false
      → LoopEnds before cands (trace, r)
      → LoopEnds before cands (a ∷ trace, r)
  LoopEnds-cons before cands a trace (ok choice) h o = Last-cons a trace _ o
  LoopEnds-cons before cands a trace (err (not_routed e)) h o = Last-cons a trace _ o
  LoopEnds-cons before cands a trace (err (not_ready e)) h o = Last-cons a trace _ o
  LoopEnds-cons before cands a trace (err (key_unset e)) h o = (o.0, (h, o.1))
  LoopEnds-cons before cands a trace (err (client_failed e)) h o = elim o [ ]
  LoopEnds-cons before cands a trace (err (none_could path what refused)) h o = (o.0, (h, o.1))

  -- One candidate more that was passed over.
  LoopEnds-shift :
      (before : List String) (cand : Candidate) (cands : List Candidate) (out : Woken)
      → LoopEnds (before ++ cand.entry.name ∷ []) cands out
      → LoopEnds before (cand ∷ cands) out
  LoopEnds-shift before cand cands (trace, ok choice) o = o
  LoopEnds-shift before cand cands (trace, err (not_routed e)) o = o
  LoopEnds-shift before cand cands (trace, err (not_ready e)) o = o
  LoopEnds-shift before cand cands (trace, err (key_unset e)) o = o
  LoopEnds-shift before cand cands (trace, err (client_failed e)) o = elim o [ ]
  LoopEnds-shift before cand cands (trace, err (none_could path what refused)) o =
      (o.0 ∙ append_assoc before (cand.entry.name ∷ []) _, o.1)

  finished-LoopEnds :
      (before : List String) (cands : List Candidate) (a : Attempt) (status : StatusResponse)
      → outcome_of a ≡ ok status
      → LoopEnds before cands (a ∷ [], finished world c a.candidate w a.key status)
  finished-LoopEnds before cands a status e =
      elim (Result-cases (choice_for world c (with_status a.candidate status) w true a.key)) [
        | inl (choice, p) ↦ rw p ([], a, refl, (status, e, p))
        | inr (f, p) ↦ rw p ([], a, refl, (status, e, p))
      ]

  tried-Wakes :
      (before : List String) (cands : List Candidate) (a : Attempt) (next : Refusal → Woken)
      → Allowed a
      → ((r : Refusal) → Wakes before cands (next r))
      → (r : Result WakeFailure StatusResponse) → outcome_of a ≡ r
      → Wakes before cands (tried a (finished world c a.candidate w a.key) next r)
  unfolding start_and_wait
  tried-Wakes before cands a next h k (ok status) e = record {
    allowed = (h, tt);
    single = tt;
    outcome = finished-LoopEnds before cands a status e;
  }
  tried-Wakes before cands a next h k (err (fatal f)) e = record {
    allowed = (h, tt);
    single = tt;
    outcome = ([], a, refl, e);
  }
  tried-Wakes before cands a next h k (err (plain f)) e =
      let s : is_started a.answer ≡ false =
        let (_, _, _, q) = h in rw q (plain-refused a.candidate.entry _ f e) in
      record {
        allowed = (h, (k (not_started f)).allowed);
        single = OnlyLast-cons a _ s (k (not_started f)).single;
        outcome = LoopEnds-cons before cands a _ _ s (k (not_started f)).outcome;
      }

  taken-Wakes :
      (before : List String) (cands : List Candidate) (cand : Candidate) (next : Refusal → Woken)
      → startable cand ≡ true
      → node_wakes c cand.entry ≡ true
      → ((r : Refusal) → Wakes before cands (next r))
      → (resolved : Resolved)
      → Wakes before cands
          (taken world c nodes cand w next (prepared world c nodes cand.entry resolved))
  taken-Wakes before cands cand next s n k (err e) = k (no_config e)
  taken-Wakes before cands cand next s n k (ok dc) =
      elim (Result-cases (nodes.new_node cand.entry)) [
        | inr (e, p) ↦ rw p (k (no_client e))
        | inl (u, p) ↦ elim (Result-cases (engine_token world.env c cand.entry)) [
          | inr (e, q) ↦ rw (p, q) (record { allowed = tt; single = tt; outcome = ((cand, q), tt) })
          | inl (key, q) ↦ rw (p, q) (tried-Wakes before cands _ next (s, n, q, refl) k _ refl)
        ]
      ]

  names_snoc :
      (refused : List (String × Refusal)) (name : String) (r : Refusal)
      → map (λ x. x.0) (refused ++ (name, r) ∷ []) ≡ map (λ x. x.0) refused ++ name ∷ []
  names_snoc [] name r = refl
  names_snoc (x ∷ refused) name r = ap (◌∷◌ x.0) (names_snoc refused name r)

  Wakes-shift :
      (before : List String) (cand : Candidate) (cands : List Candidate) (out : Woken)
      → Wakes (before ++ cand.entry.name ∷ []) cands out
      → Wakes before (cand ∷ cands) out
  Wakes-shift before cand cands out h = record {
    allowed = h.allowed;
    single = h.single;
    outcome = LoopEnds-shift before cand cands out h.outcome;
  }

  -- The rest of the loop, once a candidate is passed over.
  rest-Wakes :
      (refused : List (String × Refusal)) (cand : Candidate) (cands : List Candidate) (r : Refusal)
      (out : Woken)
      → Wakes (map (λ x. x.0) (refused ++ (cand.entry.name, r) ∷ [])) cands out
      → Wakes (map (λ x. x.0) refused) (cand ∷ cands) out
  rest-Wakes refused cand cands r out h =
      Wakes-shift _ cand cands out
        (subst (λ names. Wakes names cands out) (names_snoc refused cand.entry.name r) h)

  pub wake_each-Wakes :
      (seen : Map Resolved) (refused : List (String × Refusal)) (cands : List Candidate)
      → All (λ cand. startable cand ≡ true) cands
      → Wakes (map (λ x. x.0) refused) cands (wake_each world c nodes fn w seen refused cands)
  unfolding wake_each
  wake_each-Wakes seen refused [] h = record {
    allowed = tt;
    single = tt;
    outcome = (sym (append-nil _), tt);
  }
  wake_each-Wakes seen refused (cand ∷ cands) h = elim (Bool-cases (node_wakes c cand.entry)) [
    | inr n ↦ rw n (
        rest-Wakes refused cand cands waking_disabled _
          (wake_each-Wakes seen (refused ++ (cand.entry.name, waking_disabled) ∷ []) cands h.1))
    | inl n ↦ rw n (
        taken-Wakes (map (λ x. x.0) refused) (cand ∷ cands) cand _ h.0 n
          (λ r. rest-Wakes refused cand cands r _ (
            wake_each-Wakes (resolve fn seen cand.entry).1 (refused ++ (cand.entry.name, r) ∷ [])
              cands h.1))
          (resolve fn seen cand.entry).0)
  ]
