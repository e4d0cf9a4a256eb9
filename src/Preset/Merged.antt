-- ===== src/Preset/Merged.antt =====
-- The merge of the layers of a preset (`Merge` of internal/preset/preset.go).
use spinloop.Prelude.{
  ℕ, zero, suc, String, ◌≡◌, refl, ap, sym, ◌∙◌, List, [], ◌∷◌, ◌++◌, map, Option, none, some,
  if◌then◌else◌, str_eq, eq_iff, arith, length, Option-cases,
}
use spinloop.Fleet.Tags.{contains}
use spinloop.Prelude.Map.{lookup, lookup-put}
use spinloop.Preset.{
  Param, Dialect, canonical_key, set_at, Merging, place_param, merge_layer, merge_layers, merge,
}

-- The layers as one list.
abbrev pub flatten : List (List Param) → List Param
flatten [] = []
flatten (layer ∷ layers) = layer ++ flatten layers

-- The flags in the order in which each stands first.
abbrev pub first_keys : List String → List String → List String
first_keys [] keys = keys
first_keys (ck ∷ cks) keys = first_keys cks (if contains ck keys then keys else keys ++ ck ∷ [])

module _ (d : Dialect) where
  abbrev pub key_of : Param → String
  key_of kv = canonical_key d kv.key

  -- A parameter in place of one of the same flag, or behind all where there is none.
  abbrev pub override : Param → List Param → List Param
  override kv [] = kv ∷ []
  override kv (p ∷ ordered) =
      let rest = override kv ordered in
      if str_eq (key_of p) (key_of kv) then kv ∷ ordered else p ∷ rest

  abbrev pub override_all : List Param → List Param → List Param
  override_all [] ordered = ordered
  override_all (kv ∷ kvs) ordered = override_all kvs (override kv ordered)

  -- Where a flag stands.
  index_of : String → List Param → Option ℕ
  index_of ck [] = none
  index_of ck (p ∷ ordered) =
      let rest = index_of ck ordered in
      if str_eq (key_of p) ck then some 0 else elim rest [ none ↦ none | some i ↦ some (suc i) ]

  -- The map has the position of each flag.
  IsIndexed : Merging → Type 0
  IsIndexed m = (ck : String) → lookup ck m.at ≡ index_of ck m.ordered

  override_at :
      (kv : Param) (ordered : List Param) (i : ℕ)
      → index_of (key_of kv) ordered ≡ some i
      → set_at i kv ordered ≡ override kv ordered
  unfolding index_of set_at
  override_at kv [] i h = absurd (cc)
  override_at kv (p ∷ ordered) zero h = ground (arith, Option-cases (index_of (key_of kv) ordered))
  override_at kv (p ∷ ordered) (suc i) h =
      ground (arith, override_at kv ordered i, Option-cases (index_of (key_of kv) ordered))

  override_end :
      (kv : Param) (ordered : List Param)
      → index_of (key_of kv) ordered ≡ none
      → ordered ++ kv ∷ [] ≡ override kv ordered
  unfolding index_of
  override_end kv [] h = refl
  override_end kv (p ∷ ordered) h =
      ground (arith, override_end kv ordered, Option-cases (index_of (key_of kv) ordered))

  index_of-set_at :
      (kv : Param) (ordered : List Param) (i : ℕ) (ck : String)
      → index_of (key_of kv) ordered ≡ some i
      → index_of ck (set_at i kv ordered) ≡ index_of ck ordered
  unfolding index_of set_at
  index_of-set_at kv [] i ck h = absurd (cc)
  index_of-set_at kv (p ∷ ordered) zero ck h = ground (
    arith,
    Option-cases (index_of (key_of kv) ordered),
    eq_iff (key_of p) (key_of kv),
    eq_iff (key_of p) ck,
    eq_iff (key_of kv) ck,
  )
  index_of-set_at kv (p ∷ ordered) (suc i) ck h =
      ground (arith, Option-cases (index_of (key_of kv) ordered), index_of-set_at kv ordered i ck)

  index_of-snoc :
      (kv : Param) (ordered : List Param) (ck : String)
      → index_of ck (ordered ++ kv ∷ []) ≡ elim (index_of ck ordered) [
        | some i ↦ some i
        | none ↦ if str_eq (key_of kv) ck then some (length ordered) else none
      ]
  unfolding index_of
  index_of-snoc kv [] ck = ground arith
  index_of-snoc kv (p ∷ ordered) ck =
      ground (arith, index_of-snoc kv ordered ck, Option-cases (index_of ck ordered))

  place_param-IsIndexed :
      (kv : Param) (m : Merging) (o : Option ℕ)
      → IsIndexed m
      → index_of (key_of kv) m.ordered ≡ o
      → IsIndexed (place_param kv (key_of kv) o m)
        × ((place_param kv (key_of kv) o m).ordered ≡ override kv m.ordered)
  unfolding place_param IsIndexed
  place_param-IsIndexed kv m (some i) h e =
      (λ ck. h ck ∙ sym (index_of-set_at kv m.ordered i ck e), override_at kv m.ordered i e)
  place_param-IsIndexed kv m none h e = (
    λ ck. ground (
      arith,
      lookup-put (key_of kv) ck (length m.ordered) m.at,
      index_of-snoc kv m.ordered ck,
      h ck,
      Option-cases (index_of ck m.ordered),
      eq_iff (key_of kv) ck,
      λ (q : key_of kv ≡ ck). ap (λ k. index_of k m.ordered) q,
    ),
    override_end kv m.ordered e,
  )

  merge_layer-lem :
      (kvs : List Param) (m : Merging)
      → IsIndexed m
      → IsIndexed (merge_layer d kvs m)
        × ((merge_layer d kvs m).ordered ≡ override_all kvs m.ordered)
  unfolding merge_layer IsIndexed
  merge_layer-lem [] m h = (h, refl)
  merge_layer-lem (kv ∷ kvs) m h =
      let placed = place_param-IsIndexed kv m (lookup (key_of kv) m.at) h (sym (h (key_of kv))) in
      let rest =
        merge_layer-lem kvs (place_param kv (key_of kv) (lookup (key_of kv) m.at) m) placed.0 in
      (rest.0, rest.1 ∙ ap (override_all kvs) placed.1)

  override_all-append :
      (kvs more ordered : List Param)
      → override_all (kvs ++ more) ordered ≡ override_all more (override_all kvs ordered)
  override_all-append [] more ordered = refl
  override_all-append (kv ∷ kvs) more ordered = override_all-append kvs more (override kv ordered)

  merge_layers-lem :
      (layers : List (List Param)) (m : Merging)
      → IsIndexed m
      → (merge_layers d layers m).ordered ≡ override_all (flatten layers) m.ordered
  unfolding merge_layers
  merge_layers-lem [] m h = refl
  merge_layers-lem (layer ∷ layers) m h =
      let first = merge_layer-lem layer m h in
      merge_layers-lem layers (merge_layer d layer m) first.0
      ∙ ap (override_all (flatten layers)) first.1
      ∙ sym (override_all-append layer (flatten layers) m.ordered)

  pub merge-override_all :
      (layers : List (List Param)) → merge d layers ≡ override_all (flatten layers) []
  unfolding merge IsIndexed index_of lookup
  merge-override_all layers =
      merge_layers-lem layers (record { ordered = []; at = [] }) (λ ck. refl)

  -- The parameter of a flag, and the last one of it.
  abbrev pub param_of : String → List Param → Option Param
  param_of ck [] = none
  param_of ck (p ∷ ordered) =
      let rest = param_of ck ordered in if str_eq (key_of p) ck then some p else rest

  abbrev pub last_of : String → List Param → Option Param
  last_of ck [] = none
  last_of ck (kv ∷ kvs) =
      let rest = last_of ck kvs in
      elim rest [ some p ↦ some p | none ↦ if str_eq (key_of kv) ck then some kv else none ]

  map-override :
      (kv : Param) (ordered : List Param)
      → map key_of (override kv ordered) ≡ (
          if contains (key_of kv) (map key_of ordered)
          then map key_of ordered
          else map key_of ordered ++ key_of kv ∷ [])
  map-override kv [] = refl
  map-override kv (p ∷ ordered) =
      ground (arith, map-override kv ordered, eq_iff (key_of p) (key_of kv))

  map-override_all :
      (kvs ordered : List Param)
      → map key_of (override_all kvs ordered) ≡ first_keys (map key_of kvs) (map key_of ordered)
  map-override_all [] ordered = refl
  map-override_all (kv ∷ kvs) ordered =
      map-override_all kvs (override kv ordered)
      ∙ ap (first_keys (map key_of kvs)) (map-override kv ordered)

  param_of-override :
      (ck : String) (kv : Param) (ordered : List Param)
      → param_of ck (override kv ordered)
        ≡ (if str_eq (key_of kv) ck then some kv else param_of ck ordered)
  param_of-override ck kv [] = refl
  param_of-override ck kv (p ∷ ordered) = ground (
    arith,
    param_of-override ck kv ordered,
    eq_iff (key_of p) (key_of kv),
    eq_iff (key_of kv) ck,
    eq_iff (key_of p) ck,
  )

  param_of-override_all :
      (ck : String) (kvs ordered : List Param)
      → param_of ck (override_all kvs ordered)
        ≡ elim (last_of ck kvs) [ some p ↦ some p | none ↦ param_of ck ordered ]
  param_of-override_all ck [] ordered = refl
  param_of-override_all ck (kv ∷ kvs) ordered = ground (
    arith,
    param_of-override_all ck kvs (override kv ordered),
    param_of-override ck kv ordered,
    Option-cases (last_of ck kvs),
  )

-- The merge has each flag once, in the order in which each stands first in the layers, whatever
-- spelling it has there, and each with the parameter that stands last for it.
pub merge-lem :
    (d : Dialect) (layers : List (List Param))
    → (map (key_of d) (merge d layers) ≡ first_keys (map (key_of d) (flatten layers)) [])
      × ((ck : String) → param_of d ck (merge d layers) ≡ last_of d ck (flatten layers))
merge-lem d layers = (
  ap (map (key_of d)) (merge-override_all d layers) ∙ map-override_all d (flatten layers) [],
  λ ck.
      ap (param_of d ck) (merge-override_all d layers)
      ∙ param_of-override_all d ck (flatten layers) []
      ∙ ground (arith, Option-cases (last_of d ck (flatten layers))),
)
