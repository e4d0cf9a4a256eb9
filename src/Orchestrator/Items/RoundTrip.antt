-- ===== src/Orchestrator/Items/RoundTrip.antt =====
-- Items written back to the items file and read again (internal/orchestrator/items.go), and the
-- order in which they are admitted.
use mathlib.Core.List.{Perm}
use spinloop.Prelude.{
  ◌≡◌, refl, sym, Bool, true, false, List, [], ◌∷◌, map, if◌then◌else◌, arith, All, keep_if, ◌&&◌,
  not,
}
use spinloop.Prelude.Int.{ℤ, pos, lt_ℤ}
use spinloop.Prelude.Result.{ok}
use spinloop.Prelude.Sort.Order.{by_value, IsSorted, IsOrder, slice_stable-IsSorted}
use spinloop.Prelude.Sort.Stable.{slice_stable-perm, keep_if-slice_stable}
use spinloop.Orchestrator.Items.{
  Item, FileItem, to_item, parse_items, file_item_from_item, outranks, sorted_for_admission,
}
use spinloop.Orchestrator.Items.Validation.{IsValidEntry, Fresh, ids, parse_items_iff}

abbrev pub written : List Item → List FileItem
written = map file_item_from_item

-- The item as it reads after it was written: a priority below zero has become zero.
abbrev pub reread : Item → Item
reread it = record it { priority = if lt_ℤ (pos 0) it.priority then it.priority else pos 0 }

map-reread : (items : List Item) → map to_item (written items) ≡ map reread items
unfolding file_item_from_item
map-reread [] = refl
map-reread (it ∷ items) = ground (arith, map-reread items)

-- Items whose file form is valid and whose ids differ are read back from the file that they are
-- written to with every field as it was, but for a priority below zero, which reads as zero.
pub parse_items-written :
    (items : List Item)
    → All IsValidEntry (written items)
    → Fresh [] (ids (written items))
    → parse_items (written items) ≡ ok (map reread items)
parse_items-written items v u =
    (parse_items_iff (written items) (map reread items)).1 (v, u, sym (map-reread items))

lt_ℤ-asym : (a b : ℤ) → lt_ℤ a b ≡ true → lt_ℤ b a ≡ false
lt_ℤ-asym (pos a) (pos b) h = ground arith
lt_ℤ-asym a b h = ground arith

lt_ℤ-cotrans : (a b c : ℤ) → lt_ℤ a b ≡ false → lt_ℤ b c ≡ false → lt_ℤ a c ≡ false
lt_ℤ-cotrans a b c h k = ground arith

outranks-IsOrder : IsOrder outranks
outranks-IsOrder = record {
  asym = λ x y h. lt_ℤ-asym y.priority x.priority h;
  cotrans = λ x y z h k. lt_ℤ-cotrans z.priority y.priority x.priority k h;
}

abbrev pub has_priority : ℤ → Item → Bool
has_priority p it = not (lt_ℤ it.priority p) && not (lt_ℤ p it.priority)

-- The backlog is worked highest priority first: no item stands behind one that it outranks, every
-- item is there once, and the items of one priority stand in the file's order.
pub sorted_for_admission-order :
    (items : List Item)
    → IsSorted outranks (sorted_for_admission items)
      × Perm (sorted_for_admission items) items
      × ((p : ℤ)
          → keep_if (has_priority p) (sorted_for_admission items) ≡ keep_if (has_priority p) items)
unfolding sorted_for_admission
sorted_for_admission-order items = (
  slice_stable-IsSorted outranks outranks-IsOrder items,
  slice_stable-perm (by_value outranks) items,
  λ p.
      keep_if-slice_stable outranks (has_priority p) (λ x y h k. ties p x.priority y.priority h k)
        items,
)
  where
    ties :
        (p a b : ℤ)
        → (not (lt_ℤ a p) && not (lt_ℤ p a)) ≡ true
        → (not (lt_ℤ b p) && not (lt_ℤ p b)) ≡ true
        → lt_ℤ b a ≡ false
    ties p a b h k = ground arith
