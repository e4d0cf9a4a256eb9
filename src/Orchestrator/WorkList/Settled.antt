-- ===== src/Orchestrator/WorkList/Settled.antt =====
-- A pass leaves no item waiting that it could have launched, and touches none that it must not
-- (internal/orchestrator/worklist.go).
use spinloop.Prelude.{
  ℕ, String, Bool, true, false, ◌≡◌, refl, List, [], ◌∷◌, arith, Bool-cases, inl, inr, ◌⊎◌, str_eq,
  eq_iff, Option, none, some, ◌||◌, if◌then◌else◌,
}
use spinloop.Prelude.Map.{lookup, has, lookup-put, lookup-retain}
use spinloop.Prelude.Result.{Result, ok, err}
use spinloop.Orchestrator.Items.{Item, sorted_for_admission}
use spinloop.Orchestrator.Topology.{Topology, Node}
use spinloop.Orchestrator.Admit.{match, admits}
use spinloop.Orchestrator.Store.{ItemState, done, failed}
use spinloop.Fleet.Tags.{contains}
use spinloop.Orchestrator.WorkList.{
  Flight, WorkList, World, flying_items, carries, held_back, prune, started, place, admit_item,
  admit_all, pass, flight, launched, failed_launch,
}

-- What the pass reads first: it holds the item back, no node matches, or a limit refuses it.
abbrev Tested : World → Topology → List String → WorkList → Item → Type 0
Tested world topo suppressed w item =
    (held_back suppressed w item.id ≡ true)
    ⊎ (match world.parse_time item topo ≡ [])
    ⊎ (admits topo (flying_items w.inflight) item ≡ false)

-- The item has a record that it is done, or that it failed.
abbrev pub HasEnded : Option ItemState → Type 0
HasEnded none = ⊥
HasEnded (some st) = (st.state ≡ done) ⊎ (st.state ≡ failed)

-- Why an item is not waiting for a launch, or what stands against it.
pub data Settled (world : World) (topo : Topology) (suppressed : List String) (w : WorkList)
    (item : Item) : Type 0 where
  marked : contains item.id suppressed ≡ true → Settled world topo suppressed w item
  ended : HasEnded (lookup item.id w.records) → Settled world topo suppressed w item
  flies : (fl : Flight) → lookup item.id w.inflight ≡ some fl → Settled world topo suppressed w item
  stops : has item.id w.stopping ≡ true → Settled world topo suppressed w item
  unmatched : match world.parse_time item topo ≡ [] → Settled world topo suppressed w item
  no_room :
      admits topo (flying_items w.inflight) item ≡ false → Settled world topo suppressed w item

module _ (world : World) (topo : Topology) (suppressed : List String) where
  -- The one way in which a pass changes the list.
  Launches : Item → WorkList → WorkList → Type 0
  Launches item w w' =
      (node : Node) × (nodes : List Node) × (match world.parse_time item topo ≡ node ∷ nodes)
      × (held_back suppressed w item.id ≡ false)
      × (w' ≡ started world item node (world.launch item node) w)

  place-cases :
      (item : Item) (nodes : List Node) (w : WorkList)
      → match world.parse_time item topo ≡ nodes
      → held_back suppressed w item.id ≡ false
      → ((place world topo item nodes w ≡ w) × Tested world topo suppressed w item)
        ⊎ Launches item w (place world topo item nodes w)
  unfolding place Launches
  place-cases item [] w m h = inl (refl, inr (inl m))
  place-cases item (node ∷ nodes) w m h =
      elim (Bool-cases (admits topo (flying_items w.inflight) item)) [
        | inl e ↦ rw e (inr (node, nodes, m, h, refl))
        | inr e ↦ rw e (inl (refl, inr (inr refl)))
      ]

  admit_item-cases :
      (item : Item) (w : WorkList)
      → ((admit_item world topo suppressed item w ≡ w) × Tested world topo suppressed w item)
        ⊎ Launches item w (admit_item world topo suppressed item w)
  unfolding admit_item
  admit_item-cases item w = go (held_back suppressed w item.id) refl
    where
      placed : WorkList
      placed = place world topo item (match world.parse_time item topo) w

      go :
          (held : Bool)
          → held_back suppressed w item.id ≡ held
          → (((if held then w else placed) ≡ w) × Tested world topo suppressed w item)
            ⊎ Launches item w (if held then w else placed)
      go true e = inl (refl, inl e)
      go false e = place-cases item (match world.parse_time item topo) w refl e

  -- An item that was launched, or failed to, is held back, and so is one that was before.
  started-held_back :
      (item : Item) (node : Node) (r : Result String ℕ) (w : WorkList) (id : String)
      → (str_eq item.id id ≡ true) ⊎ (held_back suppressed w id ≡ true)
      → held_back suppressed (started world item node r w) id ≡ true
  unfolding started
  started-held_back item node (err why) w id h =
      ground (arith, lookup-put item.id id (failed_launch world item node why) w.records)
  started-held_back item node (ok child) w id h = ground (
    arith,
    lookup-put item.id id (launched world item node) w.records,
    lookup-put item.id id (flight item node child) w.inflight,
  )

  -- An item that is held back keeps its record and its flight through a launch of another.
  started_elsewhere :
      (item : Item) (node : Node) (r : Result String ℕ) (w : WorkList) (id : String)
      → held_back suppressed w item.id ≡ false
      → held_back suppressed w id ≡ true
      → (lookup id (started world item node r w).records ≡ lookup id w.records)
        × (lookup id (started world item node r w).inflight ≡ lookup id w.inflight)
  unfolding started
  started_elsewhere item node (err why) w id free held = ground (
    arith,
    eq_iff item.id id,
    lookup-put item.id id (failed_launch world item node why) w.records,
  )
  started_elsewhere item node (ok child) w id free held = ground (
    arith,
    eq_iff item.id id,
    lookup-put item.id id (launched world item node) w.records,
    lookup-put item.id id (flight item node child) w.inflight,
  )

  admit_all_elsewhere :
      (items : List Item) (w : WorkList) (id : String)
      → held_back suppressed w id ≡ true
      → (lookup id (admit_all world topo suppressed items w).records ≡ lookup id w.records)
        × (lookup id (admit_all world topo suppressed items w).inflight ≡ lookup id w.inflight)
  unfolding admit_all Launches
  admit_all_elsewhere [] w id held = (refl, refl)
  admit_all_elsewhere (item ∷ items) w id held = elim (admit_item-cases item w) [
    | inl (e, _) ↦ rw (e, admit_all) (admit_all_elsewhere items w id held)
    | inr (node, nodes, m, free, e) ↦
        rw (e, admit_all)
          (ground (
            arith,
            started_elsewhere item node (world.launch item node) w id free held,
            admit_all_elsewhere items (started world item node (world.launch item node) w) id
                (started-held_back item node (world.launch item node) w id (inr held)),
          ))
  ]

  -- An item of the file that a marker suppresses, that has ended, that is in flight or that is being
  -- stopped is not launched by a pass: its record and its flight come through unchanged.
  pub pass-held_back :
      (w : WorkList) (id : String)
      → carries w.items id ≡ true
      → held_back suppressed w id ≡ true
      → (lookup id (pass world topo suppressed w).records ≡ lookup id w.records)
        × (lookup id (pass world topo suppressed w).inflight ≡ lookup id w.inflight)
  unfolding pass prune
  pass-held_back w id c held = ground (
    arith,
    lookup-retain (λ k. has k w.inflight || carries w.items k) id w.records,
    admit_all_elsewhere (sorted_for_admission (prune w).items) (prune w) id,
  )

  -- The record and the flight of an id are as they were.
  abbrev pub AsBefore : String → WorkList → WorkList → Type 0
  AsBefore id w w' =
      (lookup id w'.records ≡ lookup id w.records) × (lookup id w'.inflight ≡ lookup id w.inflight)

  -- What the launcher's answer leaves of an item.
  abbrev pub LeftBy : Item → Node → Result String ℕ → WorkList → WorkList → Type 0
  LeftBy item node (err why) w w' =
      (lookup item.id w'.records ≡ some (failed_launch world item node why))
      × (lookup item.id w'.inflight ≡ lookup item.id w.inflight)
  LeftBy item node (ok child) w w' =
      (lookup item.id w'.records ≡ some (launched world item node))
      × (lookup item.id w'.inflight ≡ some (flight item node child))

  -- What a pass makes of an id: nothing, or what the launcher answers for an item of that id on the
  -- first node that matches it.
  abbrev pub Changed : String → WorkList → WorkList → Type 0
  Changed id w w' =
      AsBefore id w w'
      ⊎ ((item : Item) × (node : Node) × (nodes : List Node) × (item.id ≡ id)
          × (match world.parse_time item topo ≡ node ∷ nodes)
          × LeftBy item node (world.launch item node) w w')
