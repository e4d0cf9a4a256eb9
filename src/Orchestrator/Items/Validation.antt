-- ===== src/Orchestrator/Items/Validation.antt =====
-- What `ParseItems` accepts (internal/orchestrator/items.go).
use spinloop.Prelude.{
  ℕ, suc, ◌≡◌, refl, ◌↔◌, String, true, false, List, [], ◌∷◌, map, arith, All, inl, inr, ◌⊎◌,
}
use spinloop.Prelude.Map.{Map, lookup, put, lookup-put, has}
use spinloop.Prelude.Result.{Result, ok, err}
use spinloop.Fleet.Tags.{is_empty, is_tag, key_of, contains}
use spinloop.Orchestrator.Items.{
  Item, FileItem, Fault, duplicates_from, check_tags, validate_item_fields, check_item, to_item,
  parse_from, parse_items,
}

-- No text stands in the list twice, and none is among those of the first list.
abbrev pub Fresh : List String → List String → Type 0
Fresh seen [] = Unit {0}
Fresh seen (k ∷ ks) = (contains k seen ≡ false) × Fresh (k ∷ seen) ks

pub record IsValidFields (instructions dir : String) (tags : List String) : Type 0 where
  pub instructed : is_empty instructions ≡ false
  pub placed : is_empty dir ≡ false
  pub tagged : All (λ tag. is_tag tag ≡ true) tags
  pub distinct : Fresh [] (map key_of tags)

duplicates_from-Fresh :
    (seen tags : List String) → (duplicates_from seen tags ≡ []) ↔ Fresh seen (map key_of tags)
unfolding duplicates_from
duplicates_from-Fresh seen [] = (λ h. tt, λ h. refl)
duplicates_from-Fresh seen (tag ∷ tags) =
    ground (arith, duplicates_from-Fresh (key_of tag ∷ seen) tags)

check_tags-All :
    (id : String) (tags : List String)
    → (check_tags id tags ≡ ok tt) ↔ All (λ tag. is_tag tag ≡ true) tags
unfolding check_tags
check_tags-All id [] = (λ h. tt, λ h. refl)
check_tags-All id (tag ∷ tags) = ground (arith, check_tags-All id tags)

validate_item_fields-IsValidFields :
    (id instructions dir : String) (tags : List String)
    → (validate_item_fields id instructions dir tags ≡ ok tt) ↔ IsValidFields instructions dir tags
unfolding validate_item_fields
validate_item_fields-IsValidFields id instructions dir tags =
    ground (arith, check_tags-All id tags, duplicates_from-Fresh [] tags)

abbrev pub IsValidEntry : FileItem → Type 0
IsValidEntry f = (is_empty f.id ≡ false) × IsValidFields f.instructions f.dir f.tags

abbrev pub ids : List FileItem → List String
ids = map (λ f. f.id)

abbrev SameKeys : List String → Map ℕ → Type 0
SameKeys ks m = (k : String) → contains k ks ≡ has k m

SameKeys-put :
    (k : String) (i : ℕ) (ks : List String) (m : Map ℕ)
    → SameKeys ks m
    → SameKeys (k ∷ ks) (put k i m)
SameKeys-put k i ks m h j = ground (arith, lookup-put k j i m, h j)

check_item-IsValidFields :
    (f : FileItem) → (check_item f ≡ ok tt) ↔ IsValidFields f.instructions f.dir f.tags
unfolding check_item
check_item-IsValidFields f = validate_item_fields-IsValidFields f.id f.instructions f.dir f.tags

-- A verdict is `ok tt` or a fault.
verdict_cases : (r : Result Fault (Unit {0})) → (r ≡ ok tt) ⊎ ((e : Fault) × (r ≡ err e))
verdict_cases (ok tt) = inl refl
verdict_cases (err e) = inr (e, refl)

-- What an accepted file is.
abbrev Accepted : List String → List FileItem → Result Fault (List Item) → Type 0
Accepted ks file (ok items) =
    All IsValidEntry file × Fresh ks (ids file) × (items ≡ map to_item file)
Accepted ks file (err e) = Unit {0}

parse_from-Accepted :
    (i : ℕ) (seen : Map ℕ) (ks : List String) (file : List FileItem)
    → SameKeys ks seen
    → Accepted ks file (parse_from i seen file)
unfolding parse_from
parse_from-Accepted i seen ks [] same = (tt, tt, refl)
parse_from-Accepted i seen ks (f ∷ file) same = ground (
  arith,
  same f.id,
  verdict_cases (check_item f),
  (check_item-IsValidFields f).0,
  parse_from-Accepted (suc i) (put f.id i seen) (f.id ∷ ks) file (SameKeys-put f.id i ks seen same),
)

parse_from_complete :
    (i : ℕ) (seen : Map ℕ) (ks : List String) (file : List FileItem)
    → SameKeys ks seen
    → All IsValidEntry file
    → Fresh ks (ids file)
    → parse_from i seen file ≡ ok (map to_item file)
unfolding parse_from
parse_from_complete i seen ks [] same v u = refl
parse_from_complete i seen ks (f ∷ file) same v u = ground (
  arith,
  same f.id,
  (check_item-IsValidFields f).1 v.0.1,
  parse_from_complete (suc i) (put f.id i seen) (f.id ∷ ks) file (SameKeys-put f.id i ks seen same)
      v.1 u.1,
)

-- A work items file is accepted exactly when each entry has an id, instructions and a directory,
-- its tags are well formed and name no key twice, and no two entries share an id; the items are
-- then those of the file, in its order.
pub parse_items_iff :
    (file : List FileItem) (items : List Item)
    → (parse_items file ≡ ok items)
      ↔ (All IsValidEntry file × Fresh [] (ids file) × (items ≡ map to_item file))
unfolding parse_items
parse_items_iff file items = ground (
  arith,
  parse_from-Accepted 0 [] [] file (unfold lookup in λ k. refl),
  parse_from_complete 0 [] [] file (unfold lookup in λ k. refl),
)
