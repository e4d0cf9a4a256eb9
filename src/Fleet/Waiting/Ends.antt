-- ===== src/Fleet/Waiting/Ends.antt =====
-- The wait for a node's engine (`waitReady` of internal/fleet/wake.go).
use spinloop.Prelude.{
  String, true, false, ◌≡◌, refl, List, ◌∷◌, ◌++◌, Option, none, some, str_eq, All, Bool-cases, inl,
  inr, ◌⊎◌, Option-cases, subst, ap, [], if◌then◌else◌, Bool,
}
use spinloop.Prelude.Result.{Result, ok, err, Result-cases}
use spinloop.Fleet.Answer.{StatusResponse, is_up, ready_yes, ready_no}
use spinloop.Fleet.Config.{NodeConfig, Config}
use spinloop.Fleet.Endpoint.{engine_base_url}
use spinloop.Fleet.Select.{World, Want, wanted}
use spinloop.Fleet.Waiting.{
  Poll, WaitError, no_answer, gone_away, crashed, no_address, settled, answers_at, turn_settled,
  engine_answers, Polls, wait_turns, wait_ready,
}

module _ (world : World) (c : Config) (entry : NodeConfig) (w : Want) where
  -- The node says that its engine is ready, or says nothing of it and the engine takes a connection.
  abbrev pub IsReady : Poll → StatusResponse → Type 0
  IsReady poll status =
      (str_eq status.ready ready_yes ≡ true)
      ⊎ ((str_eq status.ready ready_no ≡ false)
          × (url : String) × (engine_base_url world.parsers c entry status ≡ ok url)
          × (engine_answers world poll.dials url ≡ true))

  -- What a turn settles.
  abbrev pub Settles : Poll → StatusResponse → Result WaitError StatusResponse → Type 0
  Settles poll status (ok s) = (s ≡ status) × (is_up status ≡ true) × IsReady poll status
  Settles poll status (err (no_address e)) =
      (is_up status ≡ true) × (engine_base_url world.parsers c entry status ≡ err e)
  Settles poll status (err (crashed name what path)) =
      (is_up status ≡ false)
      × (str_eq status.state "crashed" ≡ true)
      × (name ≡ entry.name)
      × (what ≡ wanted w)
      × (path ≡ status.log_path)
  Settles poll status (err e) = ⊥

  -- Up and not ready: the node says so, or says nothing of it and the engine takes no connection at
  -- its address.
  abbrev pub IsUnready : Poll → StatusResponse → Type 0
  IsUnready poll status =
      (str_eq status.ready ready_yes ≡ false)
      × ((str_eq status.ready ready_no ≡ true)
          ⊎ ((url : String) × (engine_base_url world.parsers c entry status ≡ ok url)
              × (engine_answers world poll.dials url ≡ false)))

  abbrev pub LeavesOpen : Poll → Option StatusResponse → Type 0
  LeavesOpen poll none = Unit {0}
  LeavesOpen poll (some status) =
      ((is_up status ≡ true) × IsUnready poll status)
      ⊎ ((is_up status ≡ false) × (str_eq status.state "crashed" ≡ false))

  -- A turn that settles nothing: the node is silent, its engine is up and not ready, or it is down
  -- and has not crashed.
  abbrev pub Unsettled : Poll → Type 0
  Unsettled poll = LeavesOpen poll poll.reading

  -- How a wait ends: at the first turn that settles it, past the deadline with no such turn, or with
  -- the caller gone after turns that settled nothing.
  pub data Ends (turns : List Poll) (r : Result WaitError StatusResponse) : Type 0 where
    at_turn :
        (earlier later : List Poll) (poll : Poll) (status : StatusResponse)
        → turns ≡ earlier ++ poll ∷ later
        → All Unsettled earlier
        → poll.reading ≡ some status
        → Settles poll status r
        → Ends turns r
    at_deadline : All Unsettled turns → r ≡ err (no_answer entry.name) → Ends turns r
    at_cancel :
        (earlier later : List Poll) (poll : Poll)
        → turns ≡ earlier ++ poll ∷ later
        → All Unsettled earlier
        → Unsettled poll
        → poll.cancelled ≡ true
        → r ≡ err gone_away
        → Ends turns r

  -- What a turn settles, where it settles anything.
  Settled : Poll → StatusResponse → Option (Result WaitError StatusResponse) → Type 0
  Settled poll status none = LeavesOpen poll (some status)
  Settled poll status (some r) = Settles poll status r

  settled-Settled :
      (poll : Poll) (status : StatusResponse)
      → Settled poll status (settled world c entry w poll status)
  unfolding settled answers_at Settled
  settled-Settled poll status = elim (Bool-cases (is_up status)) [
    | inl u ↦ elim (Bool-cases (str_eq status.ready ready_yes)) [
      | inl y ↦ rw (u, y) (refl, u, inl y)
      | inr y ↦ elim (Bool-cases (str_eq status.ready ready_no)) [
        | inl n ↦ rw (u, y, n) (inl (u, (y, inl n)))
        | inr n ↦ elim (Result-cases (engine_base_url world.parsers c entry status)) [
          | inr (e, p) ↦ rw (u, y, n, p) (u, p)
          | inl (url, p) ↦ elim (Bool-cases (engine_answers world poll.dials url)) [
            | inl a ↦ rw (u, y, n, p, a) (refl, u, inr (n, url, p, a))
            | inr a ↦ rw (u, y, n, p, a) (inl (u, (y, inr (url, p, a))))
          ]
        ]
      ]
    ]
    | inr u ↦ elim (Bool-cases (str_eq status.state "crashed")) [
      | inl s ↦ rw (u, s) (u, s, refl, refl, refl)
      | inr s ↦ rw (u, s) (inr (u, s))
    ]
  ]

  turn_cases :
      (poll : Poll)
      → (Unsettled poll × (turn_settled world c entry w poll ≡ none))
        ⊎ ((status : StatusResponse) × (r : Result WaitError StatusResponse) × (poll.reading
              ≡ some status)
            × (turn_settled world c entry w poll ≡ some r)
            × Settles poll status r)
  unfolding Settled settled
  turn_cases poll = elim (Option-cases poll.reading) [
    | inl n ↦ inl (rw n tt, rw n refl)
    | inr (status, e) ↦ elim (Option-cases (settled world c entry w poll status)) [
      | inl n ↦
          inl (rw e (subst (Settled poll status) n (settled-Settled poll status)), rw (e, n) refl)
      | inr (r, p) ↦ inr (
        status,
        r,
        e,
        rw (e, p) refl,
        subst (Settled poll status) p (settled-Settled poll status),
      )
    ]
  ]

  -- A turn that settles nothing stands before the rest of the wait.
  Ends-cons :
      (poll : Poll) (turns : List Poll) (r : Result WaitError StatusResponse)
      → Unsettled poll
      → Ends turns r
      → Ends (poll ∷ turns) r
  Ends-cons poll turns r u (at_turn earlier later p status e a g s) =
      at_turn (poll ∷ earlier) later p status (ap (◌∷◌ poll) e) (u, a) g s
  Ends-cons poll turns r u (at_deadline a e) = at_deadline (u, a) e
  Ends-cons poll turns r u (at_cancel earlier later p e a v g q) =
      at_cancel (poll ∷ earlier) later p (ap (◌∷◌ poll) e) (u, a) v g q

  after_turn :
      (poll : Poll) (turns : List Poll) (rest : Result WaitError StatusResponse)
      → Unsettled poll
      → Ends turns rest
      → (b : Bool) → poll.cancelled ≡ b
      → Ends (poll ∷ turns) (if b then err gone_away else rest)
  after_turn poll turns rest n h true q = at_cancel [] turns poll refl tt n q refl
  after_turn poll turns rest n h false q = Ends-cons poll turns rest n h

  wait_turns-Ends :
      (early : List Poll) (final : Poll)
      → Ends (early ++ final ∷ []) (wait_turns world c entry w early final)
  unfolding wait_turns
  wait_turns-Ends [] final = elim (turn_cases final) [
    | inl (u, n) ↦ rw n (at_deadline (u, tt) refl)
    | inr (status, r, e, p, s) ↦ rw p (at_turn [] [] final status refl tt e s)
  ]
  wait_turns-Ends (poll ∷ early) final = elim (turn_cases poll) [
    | inr (status, r, e, p, s) ↦ rw p (at_turn [] (early ++ final ∷ []) poll status refl tt e s)
    | inl (u, n) ↦
        rw n (after_turn poll (early ++ final ∷ []) _ u (wait_turns-Ends early final) _ refl)
  ]

-- A wait ends at the first turn that settles it, where the node's engine is up and either the node
-- calls it ready or, where the node says nothing of that, the engine takes a connection at its
-- address; or where the node has crashed, or its address cannot be told. Otherwise it ends at the
-- deadline, or with the caller gone, after turns that settled nothing: in each of them the node was
-- silent, was up and not ready, or was down and had not crashed.
pub wait_ready-Ends :
    (world : World) (c : Config) (entry : NodeConfig) (w : Want) (polls : Polls)
    → Ends world c entry w (polls.early ++ polls.final ∷ []) (wait_ready world c entry w polls)
unfolding wait_ready
wait_ready-Ends world c entry w polls = wait_turns-Ends world c entry w polls.early polls.final
