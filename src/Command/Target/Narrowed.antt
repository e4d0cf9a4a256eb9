-- ===== src/Command/Target/Narrowed.antt =====
-- What a target resolves to (cmd/spinloop/target.go).
use spinloop.Prelude.{
  String, true, false, ◌≡◌, refl, List, [], ◌∷◌, some, arith, str_eq, ◌⊎◌, inl, inr, eq_iff, any,
  Bool-cases, subst, sym,
}
use spinloop.Prelude.Result.{Result, ok, err}
use spinloop.Fleet.Tags.{is_empty}
use spinloop.Fleet.Config.{NodeConfig, Config, node_named, only_names}
use spinloop.Fleet.Load.{FleetFile, LoadError, NoEnvironment}
use spinloop.Fleet.Load.Loaded.{for_environment_iff}
use spinloop.Command.Target.{
  FleetTarget, Surroundings, TargetError, has_node, resolve_file, load_at, environment,
  in_discovered, only_environment, in_stated, resolve_fleet_target, narrowed_target, default_file,
}

-- The node of the name, and the fleet of it alone.
abbrev pub Names : String → Config → Type 0
Names name c =
    (entry : NodeConfig) × ((node_named c.nodes name ≡ some entry)
      × ((entry.name ≡ name) × (narrowed_target c name ≡ record c { nodes = entry ∷ [] })))

node_named_found :
    (name : String) (nodes : List NodeConfig)
    → any (λ n. str_eq n.name name) nodes ≡ true
    → (entry : NodeConfig) × ((node_named nodes name ≡ some entry) × (entry.name ≡ name))
unfolding node_named
node_named_found name [] h = ground arith
node_named_found name (n ∷ nodes) h = elim (Bool-cases (str_eq n.name name)) [
  | inl e ↦ (n, (rw e refl, (eq_iff n.name name).0 e))
  | inr e ↦ rw e (node_named_found name nodes (ground arith))
]

has_node-Names :
    (name : String) (c : Config) → is_empty name ≡ false → has_node name c ≡ true → Names name c
unfolding narrowed_target only_names
has_node-Names name c e h =
    let (entry, (found, same)) = node_named_found name c.nodes h in
    (entry, (found, (same, rw (e, found) refl)))

-- Where a fleet that is had comes from: the file that is named, or the one found in the directory,
-- or the registry, which is asked only where no file is named.
abbrev pub ComesFrom : Surroundings → FleetTarget → FleetFile → Type 0
ComesFrom s t f =
    (resolve_file s t.fleet_path ≡ ok f)
    ⊎ ((is_empty t.fleet_path ≡ true) × (environment s t.node_name ≡ ok f))

abbrev pub Narrows : FleetTarget → FleetFile → Type 0
Narrows t f = (is_empty t.node_name ≡ true) ⊎ Names t.node_name f.config

abbrev IsAsked : Surroundings → FleetTarget → Result TargetError FleetFile → Type 0
IsAsked s t (err e) = Unit {0}
IsAsked s t (ok f) =
    ComesFrom s t f × ((is_empty t.node_name ≡ true) ⊎ (has_node t.node_name f.config ≡ true))

environment-has_node :
    (s : Surroundings) (name : String) (f : FleetFile)
    → environment s name ≡ ok f
    → has_node name f.config ≡ true
environment-has_node s name f h =
    let (shaped, (known, same)) = (for_environment_iff s.environment_error name f).0 h in
    subst (λ x. has_node name x.config ≡ true) (sym same) (ground (arith, eq_iff name name))

in_stated-IsAsked :
    (s : Surroundings) (t : FleetTarget) (r : Result LoadError FleetFile)
    → resolve_file s t.fleet_path ≡ r
    → IsAsked s t (in_stated t r)
unfolding in_stated
in_stated-IsAsked s t (err e) h = tt
in_stated-IsAsked s t (ok f) h = ground arith

only_environment-IsAsked :
    (s : Surroundings) (t : FleetTarget) (r : Result NoEnvironment FleetFile)
    → is_empty t.fleet_path ≡ true
    → environment s t.node_name ≡ r
    → IsAsked s t (only_environment r)
unfolding only_environment
only_environment-IsAsked s t (err e) p h = tt
only_environment-IsAsked s t (ok f) p h = (inr (p, h), inr (environment-has_node s t.node_name f h))

in_discovered-IsAsked :
    (s : Surroundings) (t : FleetTarget) (r : Result LoadError FleetFile)
    → (a : Result NoEnvironment FleetFile) → is_empty t.fleet_path ≡ true
    → resolve_file s t.fleet_path ≡ r
    → environment s t.node_name ≡ a
    → IsAsked s t (in_discovered s t.node_name r)
unfolding in_discovered
in_discovered-IsAsked s t (err e) a p h k = tt
in_discovered-IsAsked s t (ok f) (err e) p h k = ground arith
in_discovered-IsAsked s t (ok f) (ok g) p h k =
    ground (arith, environment-has_node s t.node_name g k)

held-Narrows :
    (t : FleetTarget) (f : FleetFile)
    → (is_empty t.node_name ≡ true) ⊎ (has_node t.node_name f.config ≡ true)
    → Narrows t f
held-Narrows t f (inl e) = inl e
held-Narrows t f (inr h) = elim (Bool-cases (is_empty t.node_name)) [
  | inl e ↦ inl e
  | inr e ↦ inr (has_node-Names t.node_name f.config e h)
]

resolve_fleet_target-IsAsked :
    (s : Surroundings) (t : FleetTarget) → IsAsked s t (resolve_fleet_target s t)
unfolding resolve_fleet_target
resolve_fleet_target-IsAsked s t = elim (Bool-cases (is_empty t.node_name)) [
  | inl e ↦ rw e (in_stated-IsAsked s t (resolve_file s t.fleet_path) refl)
  | inr e ↦ elim (Bool-cases (is_empty t.fleet_path)) [
    | inr p ↦ rw (e, p) (in_stated-IsAsked s t (load_at s t.fleet_path) (rw p refl))
    | inl p ↦ elim (Bool-cases s.discovered) [
      | inl d ↦
          rw (e, p, d)
            (in_discovered-IsAsked s t (load_at s default_file) (environment s t.node_name) p
              (rw p refl) refl)
      | inr d ↦ rw (e, p, d) (only_environment-IsAsked s t (environment s t.node_name) p refl)
    ]
  ]
]

-- A fleet that a command acts on is of the file that the flags name, of the one in the directory, or,
-- where no file is named, of the registry; where a node is named the fleet holds it, and what the
-- command then acts on is that node alone, so the narrowing never falls back to the whole fleet.
pub resolve_fleet_target-Narrows :
    (s : Surroundings) (t : FleetTarget) (f : FleetFile)
    → resolve_fleet_target s t ≡ ok f
    → ComesFrom s t f × Narrows t f
resolve_fleet_target-Narrows s t f h =
    let (from, held) = subst (IsAsked s t) h (resolve_fleet_target-IsAsked s t) in
    (from, held-Narrows t f held)
