-- ===== src/Prelude/Sort.antt =====
-- The insertion sort of Go's `sort.SliceStable` (what it runs on a slice of at most twenty
-- elements), and of the loop of swaps in `sortedForAdmission`.
pub mod Order
pub mod Stable
use Prim.Native.Nat.{ℕ, ◌+◌}
use mathlib.Core.Bool.{Bool}
use mathlib.Core.List.{List, [], ◌∷◌, reverse, Perm, Permᴰ, reverse-cons}
use mathlib.Core.List.Perm
use mathlib.Core.Path.{◌≡◌}
use native.Mathlib.Omega.{arith}
use spinloop.Prelude.Tests.{if◌then◌else◌, Bool-cases}
use spinloop.Prelude.Lists.{length}
use mathlib.Core.Logic.{inl, inr}

module _ {ℓ} {A : Type ℓ} (less : ℕ → A → ℕ → A → Bool) where
  -- `for j := i; j > 0 && less(j, j-1); j-- { swap(j, j-1) }`. The second argument holds what
  -- stands before `x`, the nearest first, and the test is given the positions and the elements
  -- that stand there.
  unfoldable pub sift : A → List A → List A
  sift x [] = x ∷ []
  sift x (y ∷ front) =
      let rest = sift x front in
      if less (length front + 1) x (length front) y then y ∷ rest else x ∷ y ∷ front

  unfoldable pub insertion : List A → List A → List A
  insertion front [] = reverse front
  insertion front (x ∷ rest) = insertion (sift x front) rest

  unfoldable pub slice_stable : List A → List A
  slice_stable xs = insertion [] xs

  pub sift-perm : (x : A) (front : List A) → Perm (sift x front) (x ∷ front)
  unfolding sift
  sift-perm x [] = Perm.refl _
  sift-perm x (y ∷ front) = elim (Bool-cases (less (length front + 1) x (length front) y)) [
    | inl e ↦ rw e (Perm.trans (Perm.cons y (sift-perm x front)) (Perm.swap x y front))
    | inr e ↦ rw e (Perm.refl _)
  ]
