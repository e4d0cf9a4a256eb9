-- ===== src/Prelude/Sort/Order.antt =====
-- The sort under a test of the elements alone: the result is in order.
use Prim.Native.Nat.{ℕ}
use mathlib.Core.Bool.{Bool, true, false}
use mathlib.Core.List.{List, [], ◌∷◌, ◌++◌, reverse, reverse-cons}
use mathlib.Core.Path.{◌≡◌}
use mathlib.Core.Logic.{inl, inr}
use native.Mathlib.Omega.{arith}
use spinloop.Prelude.Tests.{Bool-cases}
use spinloop.Prelude.Lists.{All, All-append}
use spinloop.Prelude.Sort.{sift, insertion, slice_stable}

-- A test that does not look at the positions.
abbrev pub by_value {ℓ} : {A : Type ℓ} → (A → A → Bool) → ℕ → A → ℕ → A → Bool
by_value lt i x j y = lt x y

-- Nothing goes before an element that stands ahead of it.
abbrev pub IsSorted {ℓ} : {A : Type ℓ} → (A → A → Bool) → List A → Type 0
IsSorted lt [] = Unit {0}
IsSorted lt (x ∷ xs) = All (λ y. lt y x ≡ false) xs × IsSorted lt xs

-- The same of a list read from its end.
abbrev IsReversed {ℓ} : {A : Type ℓ} → (A → A → Bool) → List A → Type 0
IsReversed lt [] = Unit {0}
IsReversed lt (x ∷ xs) = All (λ y. lt x y ≡ false) xs × IsReversed lt xs

-- What a strict order with ties gives.
pub record IsOrder {ℓ} {A : Type ℓ} (lt : A → A → Bool) : Type ℓ where
  pub asym : (x y : A) → lt x y ≡ true → lt y x ≡ false
  pub cotrans : (x y z : A) → lt x y ≡ false → lt y z ≡ false → lt x z ≡ false

module _ {ℓ κ} {A : Type ℓ} (P : A → Type κ) where
  All-sift :
      (less : ℕ → A → ℕ → A → Bool) (x : A) (front : List A)
      → P x
      → All P front
      → All P (sift less x front)
  unfolding sift
  All-sift less x [] p h = (p, tt)
  All-sift less x (y ∷ front) p h = ground (arith, All-sift less x front p h.1)

  pub All-reverse : (xs : List A) → All P xs → All P (reverse xs)
  All-reverse [] h = tt
  All-reverse (x ∷ xs) h =
      rw (reverse-cons x xs) (All-append P (reverse xs) (x ∷ []) (All-reverse xs h.1) (h.0, tt))

module _ {ℓ} {A : Type ℓ} (lt : A → A → Bool) where
  IsSorted-append :
      (xs : List A) (x : A)
      → IsSorted lt xs
      → All (λ y. lt x y ≡ false) xs
      → IsSorted lt (xs ++ x ∷ [])
  IsSorted-append [] x s h = (tt, tt)
  IsSorted-append (y ∷ xs) x s h =
      (All-append _ xs (x ∷ []) s.0 (h.0, tt), IsSorted-append xs x s.1 h.1)

  IsSorted-reverse : (xs : List A) → IsReversed lt xs → IsSorted lt (reverse xs)
  IsSorted-reverse [] h = tt
  IsSorted-reverse (x ∷ xs) h =
      rw (reverse-cons x xs)
        (IsSorted-append (reverse xs) x (IsSorted-reverse xs h.1) (All-reverse _ xs h.0))

  module _ (order : IsOrder lt) where
    All-cotrans :
        (x y : A) (zs : List A)
        → lt x y ≡ false
        → All (λ z. lt y z ≡ false) zs
        → All (λ z. lt x z ≡ false) zs
    All-cotrans x y [] e h = tt
    All-cotrans x y (z ∷ zs) e h = (order.cotrans x y z e h.0, All-cotrans x y zs e h.1)

    sift-IsReversed :
        (x : A) (front : List A) → IsReversed lt front → IsReversed lt (sift (by_value lt) x front)
    unfolding sift
    sift-IsReversed x [] h = (tt, tt)
    sift-IsReversed x (y ∷ front) h = elim (Bool-cases (lt x y)) [
      | inl e ↦
          rw e
            (All-sift _ (by_value lt) x front (order.asym x y e) h.0, sift-IsReversed x front h.1)
      | inr e ↦ rw e ((e, All-cotrans x y front e h.0), h)
    ]

    insertion-IsSorted :
        (front rest : List A)
        → IsReversed lt front
        → IsSorted lt (insertion (by_value lt) front rest)
    unfolding insertion
    insertion-IsSorted front [] h = IsSorted-reverse front h
    insertion-IsSorted front (x ∷ rest) h =
        insertion-IsSorted (sift (by_value lt) x front) rest (sift-IsReversed x front h)

    pub slice_stable-IsSorted : (xs : List A) → IsSorted lt (slice_stable (by_value lt) xs)
    unfolding slice_stable
    slice_stable-IsSorted xs = insertion-IsSorted [] xs tt
