-- ===== src/Orchestrator/Admit/Ranking.antt =====
-- The order of the nodes that match an item (`rankBy` of internal/orchestrator/admit.go).
use mathlib.Core.List.{Perm}
use spinloop.Prelude.{
  ℕ, String, Bool, true, false, not, ◌≡◌, refl, List, [], ◌∷◌, Option, none, arith, is_some, str_eq,
}
use spinloop.Prelude.Sort.{slice_stable, insertion, sift}
use spinloop.Prelude.Sort.Order.{IsSorted, IsOrder}
use spinloop.Prelude.Sort.Stable.{slice_stable-perm}
use spinloop.Orchestrator.Topology.{Node}
use spinloop.Orchestrator.Admit.{activity, ranks_before, rank_by}

-- The preference's order of nodes: the one that `rankBy` means to sort by.
abbrev pub preferred : (String → Option ℕ) → String → Node → Node → Bool
preferred parse_time prefer x y =
    ranks_before (str_eq prefer "active") (activity parse_time x) (activity parse_time y)

ranks_before-asym :
    (by_active : Bool) (a b : Option ℕ)
    → ranks_before by_active a b ≡ true
    → ranks_before by_active b a ≡ false
unfolding ranks_before
ranks_before-asym true none none h = cc
ranks_before-asym _ a b h = ground arith

ranks_before-cotrans :
    (by_active : Bool) (a b c : Option ℕ)
    → ranks_before by_active a b ≡ false
    → ranks_before by_active b c ≡ false
    → ranks_before by_active a c ≡ false
unfolding ranks_before
ranks_before-cotrans true none none none h k = refl
ranks_before-cotrans _ a b c h k = ground arith

-- Both preferences order the nodes: of two nodes at most one goes before the other, and not going
-- before is transitive. A node with no activity goes first under the idle preference and last
-- under the active one.
pub preferred-IsOrder :
    (parse_time : String → Option ℕ) (prefer : String)
    → IsOrder (preferred parse_time prefer)
      × ((x y : Node)
          → activity parse_time x ≡ none
          → is_some (activity parse_time y) ≡ true
          → (preferred parse_time prefer x y ≡ not (str_eq prefer "active"))
            × (preferred parse_time prefer y x ≡ str_eq prefer "active"))
unfolding ranks_before
preferred-IsOrder parse_time prefer = (
  record {
    asym = λ x y h.
        ranks_before-asym (str_eq prefer "active") (activity parse_time x) (activity parse_time y)
          h;
    cotrans = λ x y z h k.
        ranks_before-cotrans (str_eq prefer "active") (activity parse_time x)
          (activity parse_time y) (activity parse_time z) h k;
  },
  λ x y h k. ground arith,
)

pub rank_by-perm :
    (parse_time : String → Option ℕ) (prefer : String) (nodes : List Node)
    → Perm (rank_by parse_time prefer nodes) nodes
unfolding rank_by
rank_by-perm parse_time prefer nodes = slice_stable-perm _ nodes

-- Two nodes come out in the preference's order.
pub rank_by_pair :
    (parse_time : String → Option ℕ) (prefer : String) (x y : Node)
    → IsSorted (preferred parse_time prefer) (rank_by parse_time prefer (x ∷ y ∷ []))
unfolding rank_by slice_stable insertion sift
rank_by_pair parse_time prefer x y = ground (
  arith,
  ranks_before-asym (str_eq prefer "active") (activity parse_time y) (activity parse_time x),
)

-- Three nodes need not: where the second does not go before the first and the third goes before
-- both, the sort puts the third between them, behind a node that it goes before.
pub rank_by_misplaces :
    (parse_time : String → Option ℕ) (prefer : String) (x y z : Node)
    → preferred parse_time prefer y x ≡ false
    → preferred parse_time prefer z x ≡ true
    → preferred parse_time prefer z y ≡ true
    → (rank_by parse_time prefer (x ∷ y ∷ z ∷ []) ≡ x ∷ z ∷ y ∷ [])
      × ¬ IsSorted (preferred parse_time prefer) (rank_by parse_time prefer (x ∷ y ∷ z ∷ []))
unfolding rank_by slice_stable insertion sift
rank_by_misplaces parse_time prefer x y z h k l = ground arith
