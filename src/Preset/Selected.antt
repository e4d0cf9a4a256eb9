-- ===== src/Preset/Selected.antt =====
-- The section of a preset that is served (`Select` of internal/preset/preset.go).
use spinloop.Prelude.{
  ◌<◌, String, Bool, true, false, ◌≡◌, refl, ap, List, [], ◌∷◌, ◌++◌, Option, none, some, arith,
  All, length, Bool-cases, inl, inr, ◌⊎◌, ◌≢◌, ◌==◌,
}
use spinloop.Prelude.Result.{Result, ok, err}
use spinloop.Fleet.Tags.{is_empty}
use spinloop.Preset.{
  Section, Preset, SelectFault, no_sections, no_section, ambiguous, section_names, section_named,
  or_only, only_section, select_section,
}

module _ (equal_fold : String → String → Bool) (model : String) where
  abbrev pub NoMatch : List Section → Type 0
  NoMatch sections = All (λ s. equal_fold s.name model ≡ false) sections

  -- The first section of that name.
  abbrev pub FirstNamed : List Section → Section → Type 0
  FirstNamed sections s =
      (before after : List Section) × (sections ≡ before ++ s ∷ after)
      × NoMatch before
      × (equal_fold s.name model ≡ true)

  -- What each answer of `Select` says of the preset.
  abbrev pub Answers : Preset → Result SelectFault Section → Type 0
  Answers p (ok s) =
      ((is_empty model ≡ false) × FirstNamed p.sections s)
      ⊎ ((p.sections ≡ s ∷ []) × ((is_empty model ≡ true) ⊎ NoMatch p.sections))
  Answers p (err no_sections) = p.sections ≡ []
  Answers p (err (no_section name names)) =
      (is_empty model ≡ false)
      × (name ≡ model)
      × (names ≡ section_names p)
      × NoMatch p.sections
      × (1 < length p.sections)
  Answers p (err (ambiguous names)) =
      (is_empty model ≡ true) × (names ≡ section_names p) × (1 < length p.sections)

  Named : List Section → Option Section → Type 0
  Named sections none = NoMatch sections
  Named sections (some s) = FirstNamed sections s

  Named-cons :
      (s : Section) (sections : List Section) (o : Option Section)
      → equal_fold s.name model ≡ false
      → Named sections o
      → Named (s ∷ sections) o
  unfolding Named
  Named-cons s sections none e h = (e, h)
  Named-cons s sections (some t) e (before, after, q, n, m) =
      (s ∷ before, after, ap (◌∷◌ s) q, (e, n), m)

  section_named-Named :
      (sections : List Section) → Named sections (section_named equal_fold sections model)
  unfolding section_named Named
  section_named-Named [] = tt
  section_named-Named (s ∷ sections) = elim (Bool-cases (equal_fold s.name model)) [
    | inl e ↦ rw e ([], sections, refl, tt, e)
    | inr e ↦ rw e (Named-cons s sections _ e (section_named-Named sections))
  ]

  or_only-Answers :
      (p : Preset) (sections : List Section) (o : Option Section)
      → p.sections ≡ sections
      → length sections ≢ 0
      → is_empty model ≡ false
      → Named p.sections o
      → Answers p (or_only p model o sections)
  unfolding Named
  or_only-Answers p sections (some s) q l e h = inl (e, h)
  or_only-Answers p [] none q l e h = absurd (l refl)
  or_only-Answers p (s ∷ []) none q l e h = inr (q, inr h)
  or_only-Answers p (s ∷ t ∷ more) none q l e h =
      (e, refl, refl, h, omega (arith, ap (λ (xs : List Section). length xs) q))

  only_section-Answers :
      (p : Preset) (sections : List Section)
      → p.sections ≡ sections
      → is_empty model ≡ true
      → Answers p (only_section p sections)
  only_section-Answers p [] q e = q
  only_section-Answers p (s ∷ []) q e = inr (q, inl e)
  only_section-Answers p (s ∷ t ∷ more) q e =
      (e, refl, omega (arith, ap (λ (xs : List Section). length xs) q))

  no_entries : (sections : List Section) → (length sections == 0) ≡ true → sections ≡ []
  no_entries [] e = refl
  no_entries (s ∷ sections) e = absurd (ground arith)

-- The section that is served is the first one of the name that is asked for; the only one is served
-- under any name, and where no name is asked for. A preset with no section, with several and none of
-- that name, or with several and no name asked for, is refused with that reason, with the names that
-- there are.
pub select_section-Answers :
    (equal_fold : String → String → Bool) (p : Preset) (model : String)
    → Answers equal_fold model p (select_section equal_fold p model)
unfolding select_section
select_section-Answers equal_fold p model = elim (Bool-cases (length p.sections == 0)) [
  | inl z ↦ rw z (no_entries equal_fold model p.sections z)
  | inr z ↦ elim (Bool-cases (is_empty model)) [
    | inl e ↦ rw (z, e) (only_section-Answers equal_fold model p p.sections refl e)
    | inr e ↦
        rw (z, e)
          (or_only-Answers equal_fold model p p.sections _ refl (λ q. ground (arith, z)) e
            (section_named-Named equal_fold model p.sections))
  ]
]
