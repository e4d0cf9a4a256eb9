-- ===== src/Prelude/Sort/Stable.antt =====
-- The sort moves no element past one that ties with it, and loses none.
use Prim.Native.Nat.{ℕ}
use mathlib.Core.Bool.{Bool, true, false}
use mathlib.Core.List.{
  List, [], ◌∷◌, ◌++◌, reverse, reverse-cons, append_assoc, append-nil, Perm, perm_middle,
  reverse_perm,
}
use mathlib.Core.List.Perm
use mathlib.Core.Path.{◌≡◌, refl, sym, ◌∙◌}
use native.Mathlib.Omega.{arith}
use spinloop.Prelude.Lists.{keep_if, keep_if-append}
use spinloop.Prelude.Sort.{sift, insertion, slice_stable, sift-perm}
use spinloop.Prelude.Sort.Order.{by_value}

module _ {ℓ} {A : Type ℓ} (less : ℕ → A → ℕ → A → Bool) where
  insertion-perm : (front rest : List A) → Perm (insertion less front rest) (front ++ rest)
  unfolding insertion
  insertion-perm front [] = rw (append-nil front) (reverse_perm front)
  insertion-perm front (x ∷ rest) = Perm.trans (insertion-perm (sift less x front) rest) (
      Perm.trans (Perm.append_right rest (sift-perm less x front))
        (Perm.symm (perm_middle front rest)))

  pub slice_stable-perm : (xs : List A) → Perm (slice_stable less xs) xs
  unfolding slice_stable
  slice_stable-perm xs = insertion-perm [] xs

module _ {ℓ} {A : Type ℓ} (lt : A → A → Bool) (tied : A → Bool)
    (ties : (x y : A) → tied x ≡ true → tied y ≡ true → lt x y ≡ false) where
  keep_if-sift :
      (x : A) (front : List A)
      → keep_if tied (sift (by_value lt) x front) ≡ keep_if tied (x ∷ front)
  unfolding sift
  keep_if-sift x [] = refl
  keep_if-sift x (y ∷ front) = ground (arith, keep_if-sift x front, ties x y)

  keep_if-reverse : (xs : List A) → keep_if tied (reverse xs) ≡ reverse (keep_if tied xs)
  keep_if-reverse [] = refl
  keep_if-reverse (x ∷ xs) =
      rw (reverse-cons x xs, keep_if-append tied (reverse xs) (x ∷ []), keep_if-reverse xs)
        (ground (arith, reverse-cons x (keep_if tied xs), append-nil (reverse (keep_if tied xs))))

  keep_if-insertion :
      (front rest : List A)
      → keep_if tied (insertion (by_value lt) front rest)
        ≡ reverse (keep_if tied front) ++ keep_if tied rest
  unfolding insertion
  keep_if-insertion front [] = keep_if-reverse front ∙ sym (append-nil _)
  keep_if-insertion front (x ∷ rest) =
      rw (keep_if-insertion (sift (by_value lt) x front) rest, keep_if-sift x front)
        (ground (
          arith,
          reverse-cons x (keep_if tied front),
          append_assoc (reverse (keep_if tied front)) (x ∷ []) (keep_if tied rest),
        ))

  pub keep_if-slice_stable :
      (xs : List A) → keep_if tied (slice_stable (by_value lt) xs) ≡ keep_if tied xs
  unfolding slice_stable
  keep_if-slice_stable xs = keep_if-insertion [] xs
