-- ===== src/Fleet/Select/Asked.antt =====
-- The answers that an error of a selection carries (internal/fleet/select.go).
use spinloop.Prelude.{
  String, false, ◌≡◌, refl, List, [], ◌∷◌, Option, none, some, arith, inl, inr, ◌⊎◌, Option-cases,
}
use spinloop.Prelude.Result.{Result, ok, err}
use spinloop.Fleet.Tags.{is_empty}
use spinloop.Fleet.Answer.{NodeResult}
use spinloop.Fleet.Config.{
  NodeConfig, Config, node_named, only_names, only, names, UnknownNode, no_node,
}
use spinloop.Fleet.Select.{
  Want, World, Candidate, Choice, SelectError, none_serving, candidates, select, choose, choice_for,
  pinned_refusal, refusal_of_pin, best_of, unless_refused, rank, running, preference_of,
}

-- An error that goes on to a wake carries these answers.
abbrev Carries : List NodeResult → Result SelectError Choice → Type 0
Carries results (err (none_serving rs w path)) = rs ≡ results
Carries results r = Unit {0}

abbrev RefusalCarries : List NodeResult → Option SelectError → Type 0
RefusalCarries results none = Unit {0}
RefusalCarries results (some e) = Carries results (err e)

pinned_refusal-Carries :
    (results : List NodeResult) (w : Want) (cand : Candidate)
    → RefusalCarries results (pinned_refusal w cand)
unfolding pinned_refusal
pinned_refusal-Carries results w cand = ground arith

refusal_of_pin-Carries :
    (results : List NodeResult) (w : Want) (cands : List Candidate)
    → RefusalCarries results (refusal_of_pin w cands)
refusal_of_pin-Carries results w [] = tt
refusal_of_pin-Carries results w (only ∷ []) = ground (arith, pinned_refusal-Carries results w only)
refusal_of_pin-Carries results w (a ∷ b ∷ cands) = tt

choice_for-Carries :
    (results : List NodeResult) (world : World) (c : Config) (cand : Candidate) (w : Want)
    → Carries results (choice_for world c cand w false "")
unfolding choice_for
choice_for-Carries results world c cand w = ground arith

best_of-Carries :
    (results : List NodeResult) (world : World) (c : Config) (w : Want) (cands : List Candidate)
    → Carries results (best_of world c results w cands)
best_of-Carries results world c w [] = refl
best_of-Carries results world c w (best ∷ cands) = choice_for-Carries results world c best w

unless_refused-Carries :
    (results : List NodeResult) (o : Option SelectError) (r : Result SelectError Choice)
    → RefusalCarries results o
    → Carries results r
    → Carries results (unless_refused o r)
unless_refused-Carries results none r h k = k
unless_refused-Carries results (some e) r h k = h

choose-Carries :
    (world : World) (c : Config) (results : List NodeResult) (w : Want)
    → Carries results (choose world c results w)
unfolding choose
choose-Carries world c results w =
    unless_refused-Carries results (refusal_of_pin w (candidates c results)) _
      (refusal_of_pin-Carries results w (candidates c results))
      (best_of-Carries results world c w
        (rank (preference_of w) (running w (candidates c results))))

-- A node that is asked alone is the one that answers.
abbrev pub AnswersAlone : World → Type 0
AnswersAlone world = (entry : NodeConfig) → (r : NodeResult) × (world.fan_out (entry ∷ []) ≡ r ∷ [])

abbrev pub AskedAlone : World → Result SelectError Choice → Type 0
AskedAlone world (err (none_serving rs w path)) =
    (entry : NodeConfig) × (rs ≡ world.fan_out (entry ∷ []))
AskedAlone world r = Unit {0}

Carries-AskedAlone :
    (world : World) (entry : NodeConfig) (r : Result SelectError Choice)
    → Carries (world.fan_out (entry ∷ [])) r
    → AskedAlone world r
Carries-AskedAlone world entry (ok choice) h = tt
Carries-AskedAlone world entry (err (none_serving rs w path)) h = (entry, h)
Carries-AskedAlone world entry (err e) h = ground arith

only_cases :
    (c : Config) (name : String)
    → ((entry : NodeConfig) × (only c name ≡ ok (record c { nodes = entry ∷ [] })))
      ⊎ ((e : UnknownNode) × (only c name ≡ err e))
unfolding only_names
only_cases c name = elim (Option-cases (node_named c.nodes name)) [
  | inl e ↦ inr (no_node name c.path (names c), ground arith)
  | inr (entry, e) ↦ inl (entry, ground arith)
]

-- A selection of a named node asks that node alone.
pub select-AskedAlone :
    (world : World) (c : Config) (w : Want)
    → is_empty w.node ≡ false
    → AskedAlone world (select world c w)
unfolding select
select-AskedAlone world c w h = elim (only_cases c w.node) [
  | inr (e, k) ↦ rw (h, k) tt
  | inl (entry, k) ↦
      rw (h, k)
        (Carries-AskedAlone world entry _
          (choose-Carries world (record c { nodes = entry ∷ [] }) (world.fan_out (entry ∷ [])) w))
]
