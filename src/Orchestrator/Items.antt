-- ===== src/Orchestrator/Items.antt =====
-- The work items file (internal/orchestrator/items.go). What the YAML decoder makes of the file's
-- bytes, a list of `FileItem`, is the input here; an error is data, in place of its text.
pub mod Validation
pub mod RoundTrip
use spinloop.Prelude.{
  ℕ, suc, ◌+◌, String, Bool, true, false, List, [], ◌∷◌, ◌++◌, map, Option, none, some,
  if◌then◌else◌, not,
}
use spinloop.Prelude.Int.{ℤ, pos, lt_ℤ}
use spinloop.Prelude.Map.{Map, lookup, put}
use spinloop.Prelude.Result.{Result, ok, err, ◌>>=◌, ◌>>◌}
use spinloop.Prelude.Sort.{slice_stable}
use spinloop.Prelude.Sort.Order.{by_value}
use spinloop.Fleet.Tags.{is_empty, is_tag, key_of, contains}

pub record Item : Type 0 where
  pub id : String
  pub instructions : String
  pub dir : String
  pub tags : List String
  pub priority : ℤ

-- `priority` is a pointer in the source: `none` is one that the file never stated.
pub record FileItem : Type 0 where
  pub id : String
  pub instructions : String
  pub dir : String
  pub tags : List String
  pub priority : Option ℤ

pub data Fault : Type 0 where
  no_id : ℕ → Fault
  duplicate_id : String → ℕ → ℕ → Fault
  no_instructions no_directory : String → Fault
  malformed_tag : String → String → Fault
  repeated_keys : String → List String → Fault

-- The tag keys named more than once; `seen` holds the keys met so far.
duplicates_from : List String → List String → List String
duplicates_from seen [] = []
duplicates_from seen (tag ∷ tags) = elim (contains (key_of tag) seen) [
  | true ↦ key_of tag ∷ duplicates_from seen tags
  | false ↦ duplicates_from (key_of tag ∷ seen) tags
]

unfoldable pub duplicate_tag_keys : List String → List String
unfolding duplicates_from
duplicate_tag_keys tags = duplicates_from [] tags

check_tags : String → List String → Result Fault (Unit {0})
check_tags id [] = ok tt
check_tags id (tag ∷ tags) =
    let rest = check_tags id tags in if is_tag tag then rest else err (malformed_tag id tag)

no_duplicates : String → List String → Result Fault (Unit {0})
no_duplicates id [] = ok tt
no_duplicates id (key ∷ keys) = err (repeated_keys id (key ∷ keys))

unfoldable pub validate_item_fields :
    String → String → String → List String → Result Fault (Unit {0})
unfolding check_tags no_duplicates duplicate_tag_keys
validate_item_fields id instructions dir tags = do
  if is_empty instructions then err (no_instructions id) else ok tt
  if is_empty dir then err (no_directory id) else ok tt
  check_tags id tags
  no_duplicates id (duplicate_tag_keys tags)

unfoldable pub check_item : FileItem → Result Fault (Unit {0})
check_item f = validate_item_fields f.id f.instructions f.dir f.tags

abbrev pub priority_or_zero : Option ℤ → ℤ
priority_or_zero none = pos 0
priority_or_zero (some p) = p

abbrev pub to_item : FileItem → Item
to_item f = record {
  id = f.id;
  instructions = f.instructions;
  dir = f.dir;
  tags = f.tags;
  priority = priority_or_zero f.priority;
}

refuse_seen : String → Option ℕ → ℕ → Result Fault (Unit {0})
refuse_seen id none i = ok tt
refuse_seen id (some at) i = err (duplicate_id id (suc at) (suc i))

-- The loop of `ParseItems` from position `i`; `seen` maps an id to the position that it stood at.
parse_from : ℕ → Map ℕ → List FileItem → Result Fault (List Item)
unfolding refuse_seen
parse_from i seen [] = ok []
parse_from i seen (f ∷ file) =
    let rest = parse_from (suc i) (put f.id i seen) file in
    do
      if is_empty f.id then err (no_id (suc i)) else ok tt
      refuse_seen f.id (lookup f.id seen) i
      check_item f
      items ← rest
      ok (to_item f ∷ items)

unfoldable pub parse_items : List FileItem → Result Fault (List Item)
unfolding parse_from
parse_items file = parse_from 0 [] file

-- A priority is written where it is above zero, and left out where it is not.
unfoldable pub file_item_from_item : Item → FileItem
file_item_from_item it = record {
  id = it.id;
  instructions = it.instructions;
  dir = it.dir;
  tags = it.tags;
  priority = if lt_ℤ (pos 0) it.priority then some it.priority else none;
}

abbrev pub outranks : Item → Item → Bool
outranks x y = lt_ℤ y.priority x.priority

-- The backlog in the order in which it is worked.
unfoldable pub sorted_for_admission : List Item → List Item
sorted_for_admission items = slice_stable (by_value outranks) items
