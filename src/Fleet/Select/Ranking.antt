-- ===== src/Fleet/Select/Ranking.antt =====
-- The order of the nodes that could all serve (`rank` of internal/fleet/select.go).
use mathlib.Core.List.{Perm}
use spinloop.Prelude.{
  ℕ, String, true, false, ◌≡◌, refl, List, Option, none, some, arith, inl, inr, ◌⊎◌,
}
use spinloop.Prelude.Int.{ℤ, pos, negsuc, lt_ℤ, eq_ℤ}
use spinloop.Prelude.Sort.Order.{IsSorted, IsOrder, slice_stable-IsSorted}
use spinloop.Prelude.Sort.Stable.{slice_stable-perm}
use spinloop.Fleet.Select.{Candidate, before, idle, goes_first, rank}

-- Two numbers are equal, or one is less, by all the tests.
Trichotomy : ℤ → ℤ → Type 0
Trichotomy a b =
    ((eq_ℤ a b ≡ true) × (eq_ℤ b a ≡ true) × (lt_ℤ a b ≡ false) × (lt_ℤ b a ≡ false))
    ⊎ ((eq_ℤ a b ≡ false) × (eq_ℤ b a ≡ false) × (lt_ℤ a b ≡ true) × (lt_ℤ b a ≡ false))
    ⊎ ((eq_ℤ a b ≡ false) × (eq_ℤ b a ≡ false) × (lt_ℤ a b ≡ false) × (lt_ℤ b a ≡ true))

trichotomy : (a b : ℤ) → Trichotomy a b
unfolding Trichotomy
trichotomy (pos a) (pos b) = ground arith
trichotomy (pos a) (negsuc b) = inr (inr (refl, refl, refl, refl))
trichotomy (negsuc a) (pos b) = inr (inl (refl, refl, refl, refl))
trichotomy (negsuc a) (negsuc b) = ground arith

lt_ℤ-cotrans : (a b c : ℤ) → lt_ℤ a b ≡ false → lt_ℤ b c ≡ false → lt_ℤ a c ≡ false
lt_ℤ-cotrans (pos a) (pos b) (pos c) h k = ground arith
lt_ℤ-cotrans (pos a) b (negsuc c) h k = refl
lt_ℤ-cotrans (pos a) (negsuc b) (pos c) h k = cc
lt_ℤ-cotrans (negsuc a) (pos b) c h k = cc
lt_ℤ-cotrans (negsuc a) (negsuc b) (negsuc c) h k = ground arith
lt_ℤ-cotrans (negsuc a) (negsuc b) (pos c) h k = cc

goes_first-asym :
    (p : String) (a : Option ℤ) (i : ℕ) (b : Option ℤ) (j : ℕ)
    → goes_first p a i b j ≡ true
    → goes_first p b j a i ≡ false
unfolding goes_first Trichotomy
goes_first-asym p none i none j h = ground arith
goes_first-asym p none i (some b) j h = ground arith
goes_first-asym p (some a) i none j h = ground arith
goes_first-asym p (some a) i (some b) j h = ground (arith, trichotomy a b)

goes_first-cotrans :
    (p : String) (a : Option ℤ) (i : ℕ) (b : Option ℤ) (j : ℕ) (c : Option ℤ) (k : ℕ)
    → goes_first p a i b j ≡ false
    → goes_first p b j c k ≡ false
    → goes_first p a i c k ≡ false
unfolding goes_first Trichotomy
goes_first-cotrans p none i none j none k g h = ground arith
goes_first-cotrans p none i none j (some c) k g h = ground arith
goes_first-cotrans p none i (some b) j none k g h = ground arith
goes_first-cotrans p none i (some b) j (some c) k g h = ground (arith, trichotomy b c)
goes_first-cotrans p (some a) i none j none k g h = ground arith
goes_first-cotrans p (some a) i none j (some c) k g h = ground arith
goes_first-cotrans p (some a) i (some b) j none k g h = ground (arith, trichotomy a b)
goes_first-cotrans p (some a) i (some b) j (some c) k g h = ground (
  arith,
  trichotomy a b,
  trichotomy b c,
  trichotomy a c,
  lt_ℤ-cotrans a b c,
  lt_ℤ-cotrans c b a,
  lt_ℤ-cotrans b c a,
  lt_ℤ-cotrans c a b,
)

pub before-IsOrder : (p : String) → IsOrder (before p)
before-IsOrder p = record {
  asym = λ x y h. goes_first-asym p (idle x) x.index (idle y) y.index h;
  cotrans =
      λ x y z h k. goes_first-cotrans p (idle x) x.index (idle y) y.index (idle z) z.index h k;
}

pub rank-IsSorted : (p : String) (cands : List Candidate) → IsSorted (before p) (rank p cands)
unfolding rank
rank-IsSorted p cands = slice_stable-IsSorted (before p) (before-IsOrder p) cands

pub rank-perm : (p : String) (cands : List Candidate) → Perm (rank p cands) cands
unfolding rank
rank-perm p cands = slice_stable-perm _ cands
