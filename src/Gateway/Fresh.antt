-- ===== src/Gateway/Fresh.antt =====
-- How old the readings are that requests share, and how often the fleet is asked
-- (`reading` of internal/gateway/gateway.go).
use spinloop.Prelude.{
  ℕ, ◌+◌, ◌≤◌, ◌<◌, ◌≡◌, refl, List, [], ◌∷◌, Option, none, some, arith, is_some, if◌then◌else◌,
  Option-cases, Bool-cases, inl, inr, ◌∙◌, subst, ap,
}
use spinloop.Fleet.Answer.{NodeResult}
use spinloop.Gateway.{Handler, reading, read_when, fresh_results, cache_ttl, is_fresh}

-- A request: when it asks, and how long a fan-out takes then.
abbrev pub Request : Type 0
Request = ℕ × ℕ

-- One reading of a fleet that changes: a fan-out gives what the fleet is when it ends.
abbrev pub ask : (ℕ → List NodeResult) → Request → Handler → List NodeResult × Handler
ask fleet (now, took) h = reading (λ nodes. fleet (now + took)) now (now + took) h

-- The readings that requests get, one after the other, and when the fan-outs among them ended.
unfoldable pub ask_all : (ℕ → List NodeResult) → List Request → Handler → List (List NodeResult)
ask_all fleet [] h = []
ask_all fleet (r ∷ requests) h = let out = ask fleet r h in out.0 ∷ ask_all fleet requests out.1

unfoldable pub fan_outs : (ℕ → List NodeResult) → List Request → Handler → List ℕ
fan_outs fleet [] h = []
fan_outs fleet (r ∷ requests) h =
    let rest = fan_outs fleet requests (ask fleet r h).1 in
    if is_some (fresh_results r.0 h) then rest else (r.0 + r.1) ∷ rest

-- The reading that is kept is what the fleet was when it was taken.
IsTaken : (ℕ → List NodeResult) → Handler → Type 0
IsTaken fleet h = (results : List NodeResult) → h.results ≡ some results → results ≡ fleet h.at

-- Each reading is the fleet of a time less than the bound before the request, or of a later one.
abbrev pub AreFresh : (ℕ → List NodeResult) → List Request → List (List NodeResult) → Type 0
AreFresh fleet [] [] = Unit {0}
AreFresh fleet (r ∷ requests) (results ∷ readings) =
    ((t : ℕ) × (results ≡ fleet t) × (r.0 < t + cache_ttl)) × AreFresh fleet requests readings
AreFresh fleet _ _ = ⊥

-- Times that are at least the bound apart, behind one where there is one.
abbrev pub Spaced : Option ℕ → List ℕ → Type 0
Spaced last [] = Unit {0}
Spaced none (t ∷ times) = Spaced (some t) times
Spaced (some last) (t ∷ times) = (last + cache_ttl ≤ t) × Spaced (some t) times

abbrev last_at : ℕ → Option (List NodeResult) → Option ℕ
last_at at none = none
last_at at (some results) = some at

abbrev last_of : Handler → Option ℕ
last_of h = last_at h.at h.results

Asked : (ℕ → List NodeResult) → Request → Handler → Type 0
Asked fleet r h =
    ((t : ℕ) × ((ask fleet r h).0 ≡ fleet t) × (r.0 < t + cache_ttl))
    × IsTaken fleet (ask fleet r h).1

ask-cases :
    (fleet : ℕ → List NodeResult) (r : Request) (h : Handler) → IsTaken fleet h → Asked fleet r h
unfolding Asked IsTaken reading read_when
ask-cases fleet (now, took) h k = elim (Bool-cases (is_fresh now h.at cache_ttl)) [
  | inr e ↦ rw e ((now + took, refl, omega arith), λ results q. cc)
  | inl e ↦ elim (Option-cases h.results) [
    | inl n ↦ rw (e, n) ((now + took, refl, omega arith), λ results q. cc)
    | inr (results, p) ↦ rw (e, p) ((h.at, k results p, ground arith), λ others q. k others (p ∙ q))
  ]
]

ask_all-AreFresh :
    (fleet : ℕ → List NodeResult) (requests : List Request) (h : Handler)
    → IsTaken fleet h
    → AreFresh fleet requests (ask_all fleet requests h)
unfolding ask_all Asked
ask_all-AreFresh fleet [] h k = tt
ask_all-AreFresh fleet (r ∷ requests) h k =
    let c = ask-cases fleet r h k in (c.0, ask_all-AreFresh fleet requests (ask fleet r h).1 c.1)

Spaced-cons :
    (last : Option ℕ) (t : ℕ) (times : List ℕ)
    → ((l : ℕ) → last ≡ some l → l + cache_ttl ≤ t)
    → Spaced (some t) times
    → Spaced last (t ∷ times)
Spaced-cons none t times h k = k
Spaced-cons (some l) t times h k = (h l refl, k)

-- A reading that is not fresh was taken at least the bound before.
stale :
    (now : ℕ) (h : Handler) (l : ℕ)
    → fresh_results now h ≡ none
    → last_of h ≡ some l
    → l + cache_ttl ≤ now
stale now h l n e = elim (Option-cases h.results) [
  | inl q ↦ absurd (cc (e, ap (last_at h.at) q))
  | inr (results, q) ↦
      let p : h.at ≡ l = cc (e, ap (last_at h.at) q) in
      elim (Bool-cases (is_fresh now h.at cache_ttl)) [
        | inl f ↦ absurd (cc (n, q, f))
        | inr f ↦ ground (arith, p)
      ]
]

fan_outs_when :
    (fleet : ℕ → List NodeResult) (now took : ℕ) (requests : List Request) (h : Handler)
    → ((g : Handler) → Spaced (last_of g) (fan_outs fleet requests g))
    → (o : Option (List NodeResult)) → fresh_results now h ≡ o
    → Spaced (last_of h) (
        if is_some o
        then fan_outs fleet requests (read_when (λ nodes. fleet (now + took)) (now + took) h o).1
        else (now + took)
          ∷ fan_outs fleet requests (read_when (λ nodes. fleet (now + took)) (now + took) h o).1)
unfolding read_when
fan_outs_when fleet now took requests h ih (some results) e = ih h
fan_outs_when fleet now took requests h ih none e =
    Spaced-cons (last_of h) (now + took) _ (λ l p. omega (arith, stale now h l e p)) (ih _)

fan_outs-Spaced :
    (fleet : ℕ → List NodeResult) (requests : List Request) (h : Handler)
    → Spaced (last_of h) (fan_outs fleet requests h)
unfolding fan_outs reading
fan_outs-Spaced fleet [] h = tt
fan_outs-Spaced fleet ((now, took) ∷ requests) h =
    fan_outs_when fleet now took requests h (λ g. fan_outs-Spaced fleet requests g) _ refl

-- A gateway that has read nothing yet answers each request with the fleet as it was at a time less
-- than the bound before the request, or later, and between the ends of two fan-outs there is at
-- least the bound, however many requests there are.
pub readings-AreFresh :
    (fleet : ℕ → List NodeResult) (requests : List Request) (h : Handler)
    → h.results ≡ none
    → AreFresh fleet requests (ask_all fleet requests h) × Spaced none (fan_outs fleet requests h)
unfolding IsTaken
readings-AreFresh fleet requests h n = (
  ask_all-AreFresh fleet requests h (λ results q. absurd (cc)),
  subst (λ last. Spaced last (fan_outs fleet requests h)) (ap (last_at h.at) n)
      (fan_outs-Spaced fleet requests h),
)
