-- ===== src/Orchestrator/Admit/Limits.antt =====
-- The fleet's declared limits (`Admits` of internal/orchestrator/admit.go).
use spinloop.Prelude.{
  ℕ, suc, ◌≤◌, String, true, false, ◌≡◌, refl, List, [], ◌∷◌, Option, none, some, arith, length,
  Option-cases, inl, inr, eq_iff,
}
use spinloop.Prelude.Int.{ℤ, pos, negsuc, reaches}
use spinloop.Prelude.Map.{Map, lookup}
use spinloop.Fleet.Tags.{contains}
use spinloop.Orchestrator.Items.{Item}
use spinloop.Orchestrator.Topology.{Topology, Concurrency}
use spinloop.Orchestrator.Admit.{count_carrying, tags_admit, total_admits, limits_admit, admits}

-- A count within a limit; a limit below zero leaves room for none.
abbrev pub Fits : ℕ → ℤ → Type 0
Fits n (pos limit) = n ≤ limit
Fits n (negsuc limit) = n ≡ 0

abbrev pub WithinTotal : Option ℤ → List Item → Type 0
WithinTotal none inflight = Unit {0}
WithinTotal (some total) inflight = Fits (length inflight) total

-- A count within a limit, where there is one.
abbrev pub FitsAny : ℕ → Option ℤ → Type 0
FitsAny n none = Unit {0}
FitsAny n (some limit) = Fits n limit

abbrev pub WithinTags : Map ℤ → List Item → Type 0
WithinTags limits inflight =
    (tag : String) → FitsAny (count_carrying inflight tag) (lookup tag limits)

-- The items in flight are within every limit that the fleet declares.
abbrev pub Within : Option Concurrency → List Item → Type 0
Within none inflight = Unit {0}
Within (some c) inflight = WithinTotal c.total inflight × WithinTags c.tags inflight

none-FitsAny : (o : Option ℤ) → FitsAny 0 o
none-FitsAny none = tt
none-FitsAny (some (pos limit)) = omega arith
none-FitsAny (some (negsuc limit)) = refl

none-WithinTotal : (total : Option ℤ) → WithinTotal total []
none-WithinTotal none = tt
none-WithinTotal (some (pos total)) = omega arith
none-WithinTotal (some (negsuc total)) = refl

-- Nothing in flight is within any limits.
pub none-Within : (c : Option Concurrency) → Within c []
unfolding count_carrying
none-Within none = tt
none-Within (some c) = (none-WithinTotal c.total, λ tag. none-FitsAny (lookup tag c.tags))

reaches-Fits : (n : ℕ) (limit : ℤ) → reaches n limit ≡ false → Fits (suc n) limit
reaches-Fits n (pos limit) h = ground arith
reaches-Fits n (negsuc limit) h = cc

tags_admit-room :
    (limits : Map ℤ) (inflight : List Item) (tags : List String) (tag : String) (limit : ℤ)
    → tags_admit limits inflight tags ≡ true
    → contains tag tags ≡ true
    → lookup tag limits ≡ some limit
    → reaches (count_carrying inflight tag) limit ≡ false
tags_admit-room limits inflight [] tag limit h c l = cc
tags_admit-room limits inflight (t ∷ tags) tag limit h c l =
    ground (arith, tags_admit-room limits inflight tags tag limit, eq_iff t tag)

WithinTags-admitted :
    (limits : Map ℤ) (inflight : List Item) (item : Item)
    → WithinTags limits inflight
    → tags_admit limits inflight item.tags ≡ true
    → WithinTags limits (item ∷ inflight)
unfolding count_carrying
WithinTags-admitted limits inflight item w h tag = elim (Option-cases (lookup tag limits)) [
  | inl l ↦ rw l tt
  | inr (limit, l) ↦ rw l (
      ground (
        arith,
        rw l at (w tag),
        tags_admit-room limits inflight item.tags tag limit h,
        reaches-Fits (count_carrying inflight tag) limit,
      ))
]

WithinTotal-admitted :
    (total : Option ℤ) (inflight : List Item) (item : Item)
    → total_admits total inflight ≡ true
    → WithinTotal total (item ∷ inflight)
WithinTotal-admitted none inflight item h = tt
WithinTotal-admitted (some total) inflight item h =
    reaches-Fits (length inflight) total (ground arith)

Within-limits :
    (c : Option Concurrency) (inflight : List Item) (item : Item)
    → Within c inflight
    → limits_admit c inflight item ≡ true
    → Within c (item ∷ inflight)
Within-limits none inflight item w h = tt
Within-limits (some c) inflight item w h = (
  WithinTotal-admitted c.total inflight item (ground arith),
  WithinTags-admitted c.tags inflight item w.1 (ground arith),
)

-- An item that is admitted may go in flight: the items in flight were within every declared limit,
-- and with it they still are.
pub admits-Within :
    (topo : Topology) (inflight : List Item) (item : Item)
    → Within topo.concurrency inflight
    → admits topo inflight item ≡ true
    → Within topo.concurrency (item ∷ inflight)
unfolding admits
admits-Within topo inflight item w h = Within-limits topo.concurrency inflight item w h

reaches-suc : (n : ℕ) (limit : ℤ) → reaches n limit ≡ true → reaches (suc n) limit ≡ true
reaches-suc n (pos limit) h = ground arith
reaches-suc n (negsuc limit) h = refl

tags_admit-fewer :
    (limits : Map ℤ) (other : Item) (inflight : List Item) (tags : List String)
    → tags_admit limits (other ∷ inflight) tags ≡ true
    → tags_admit limits inflight tags ≡ true
unfolding count_carrying
tags_admit-fewer limits other inflight [] h = refl
tags_admit-fewer limits other inflight (t ∷ tags) h = elim (Option-cases (lookup t limits)) [
  | inl e ↦ rw (e, tags_admit) (tags_admit-fewer limits other inflight tags (ground arith))
  | inr (limit, e) ↦ ground (
    arith,
    tags_admit-fewer limits other inflight tags,
    reaches-suc (count_carrying inflight t) limit,
  )
]

total_admits-fewer :
    (total : Option ℤ) (other : Item) (inflight : List Item)
    → total_admits total (other ∷ inflight) ≡ true
    → total_admits total inflight ≡ true
total_admits-fewer none other inflight h = refl
total_admits-fewer (some total) other inflight h =
    ground (arith, reaches-suc (length inflight) total)

limits_admit-fewer :
    (c : Option Concurrency) (other : Item) (inflight : List Item) (item : Item)
    → limits_admit c (other ∷ inflight) item ≡ true
    → limits_admit c inflight item ≡ true
limits_admit-fewer none other inflight item h = refl
limits_admit-fewer (some c) other inflight item h = ground (
  arith,
  total_admits-fewer c.total other inflight,
  tags_admit-fewer c.tags other inflight item.tags,
)

-- What the limits refuse, they refuse with one more item in flight.
pub admits-fewer :
    (topo : Topology) (other : Item) (inflight : List Item) (item : Item)
    → admits topo (other ∷ inflight) item ≡ true
    → admits topo inflight item ≡ true
unfolding admits
admits-fewer topo other inflight item h = limits_admit-fewer topo.concurrency other inflight item h
