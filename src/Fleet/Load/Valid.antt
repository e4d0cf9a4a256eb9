-- ===== src/Fleet/Load/Valid.antt =====
-- What `Load` and `ForEnvironment` accept (internal/fleet/config.go).
use spinloop.Prelude.{
  ℕ, suc, ◌≡◌, refl, ◌↔◌, String, true, false, List, [], ◌∷◌, map, arith, All, Option, none, some,
  inl, inr, ◌⊎◌, str_eq, ◌||◌,
}
use spinloop.Prelude.Int.{ℤ, pos, lt_ℤ}
use spinloop.Prelude.Result.{Result, ok, err}
use spinloop.Fleet.Tags.{is_empty, is_tag}
use spinloop.Fleet.Config.{NodeConfig}
use spinloop.Fleet.Load.{
  FleetFile, GatewayConfig, DeclaredLimits, Invalid, is_policy, is_preference, names_scheme,
  is_env_name, is_instance_type, check_gateway, check_total, check_limits_of, check_concurrency,
  check_tags_of, check_daemon, check_cloud, check_kind, with_kind, check_nodes, validate_file,
  has_nodes,
}
use spinloop.Orchestrator.Items.Validation.{Fresh}

abbrev pub IsPositiveLimit : String × ℤ → Type 0
IsPositiveLimit (tag, limit) = (lt_ℤ (pos 0) limit ≡ true) × (is_tag tag ≡ true)

abbrev pub IsNamedTag : String × String → Type 0
IsNamedTag (k, v) = (is_empty k ≡ false) × (is_empty v ≡ false)

-- What the gateway's section is, where there is one.
abbrev pub IsReachable : Option GatewayConfig → Type 0
IsReachable none = Unit {0}
IsReachable (some g) = (is_empty g.url ≡ false) × (names_scheme g.url ≡ true)

abbrev pub IsTotal : Option ℤ → Type 0
IsTotal none = Unit {0}
IsTotal (some n) = lt_ℤ (pos 0) n ≡ true

abbrev pub AreLimits : Option DeclaredLimits → Type 0
AreLimits none = Unit {0}
AreLimits (some c) = IsTotal c.total × All IsPositiveLimit c.tags

abbrev IsDaemon : NodeConfig → Type 0
IsDaemon n =
    (str_eq n.kind "daemon" ≡ true)
    × ((is_empty n.host ≡ false) × (is_empty n.instance_type ≡ true))

abbrev IsCloud : NodeConfig → Type 0
IsCloud n =
    (str_eq n.kind "daemon" ≡ false)
    × ((str_eq n.kind "cloud" ≡ true)
        × ((is_env_name n.name ≡ true)
            × ((is_empty n.instance_type || is_instance_type n.instance_type) ≡ true)))

-- A node is named, its tags have a key and a value, and it is a daemon with a host and no machine
-- of its own, or a cloud environment by a name that is one.
pub record IsValidNode (n : NodeConfig) : Type 0 where
  pub named : is_empty n.name ≡ false
  pub wake_known : is_policy n.wake_policy ≡ true
  pub tagged : All IsNamedTag n.tags
  pub kind : IsDaemon (with_kind n) ⊎ IsCloud (with_kind n)

pub record IsValidFile (f : FleetFile) : Type 0 where
  pub listed : ¬ (f.config.nodes ≡ [])
  pub prefer_known : is_preference f.config.prefer ≡ true
  pub wake_known : is_policy f.config.wake_policy ≡ true
  pub gateway : IsReachable f.gateway
  pub limits : AreLimits f.concurrency
  pub nodes : All IsValidNode f.config.nodes
  pub distinct : Fresh [] (map (λ n. n.name) f.config.nodes)

check_gateway-IsReachable : (g : Option GatewayConfig) → (check_gateway g ≡ ok tt) ↔ IsReachable g
unfolding check_gateway
check_gateway-IsReachable none = (λ h. tt, λ h. refl)
check_gateway-IsReachable (some g) = ground arith

check_limits_of-All :
    (tags : List (String × ℤ)) → (check_limits_of tags ≡ ok tt) ↔ All IsPositiveLimit tags
unfolding check_limits_of
check_limits_of-All [] = (λ h. tt, λ h. refl)
check_limits_of-All ((tag, limit) ∷ tags) = ground (arith, check_limits_of-All tags)

check_total-IsTotal : (n : Option ℤ) → (check_total n ≡ ok tt) ↔ IsTotal n
unfolding check_total
check_total-IsTotal none = (λ h. tt, λ h. refl)
check_total-IsTotal (some n) = ground arith

check_concurrency-AreLimits :
    (c : Option DeclaredLimits) → (check_concurrency c ≡ ok tt) ↔ AreLimits c
unfolding check_concurrency
check_concurrency-AreLimits none = (λ h. tt, λ h. refl)
check_concurrency-AreLimits (some c) =
    ground (arith, check_total-IsTotal c.total, check_limits_of-All c.tags)

check_tags_of-All :
    (name : String) (tags : List (String × String))
    → (check_tags_of name tags ≡ ok tt) ↔ All IsNamedTag tags
unfolding check_tags_of
check_tags_of-All name [] = (λ h. tt, λ h. refl)
check_tags_of-All name ((k, v) ∷ tags) = ground (arith, check_tags_of-All name tags)

check_kind_iff : (n : NodeConfig) → (check_kind n ≡ ok tt) ↔ (IsDaemon n ⊎ IsCloud n)
unfolding check_kind check_daemon check_cloud
check_kind_iff n = ground arith

-- A verdict is `ok tt` or an error.
pub verdict_cases : (r : Result Invalid (Unit {0})) → (r ≡ ok tt) ⊎ ((e : Invalid) × (r ≡ err e))
verdict_cases (ok tt) = inl refl
verdict_cases (err e) = inr (e, refl)

abbrev AcceptedNodes : List String → List NodeConfig → Result Invalid (List NodeConfig) → Type 0
AcceptedNodes seen nodes (ok out) =
    All IsValidNode nodes × Fresh seen (map (λ n. n.name) nodes) × (out ≡ map with_kind nodes)
AcceptedNodes seen nodes (err e) = Unit {0}

check_nodes-AcceptedNodes :
    (i : ℕ) (seen : List String) (nodes : List NodeConfig)
    → AcceptedNodes seen nodes (check_nodes i seen nodes)
unfolding check_nodes
check_nodes-AcceptedNodes i seen [] = (tt, tt, refl)
check_nodes-AcceptedNodes i seen (n ∷ nodes) = ground (
  arith,
  verdict_cases (check_tags_of n.name n.tags),
  (check_tags_of-All n.name n.tags).0,
  verdict_cases (check_kind (with_kind n)),
  (check_kind_iff (with_kind n)).0,
  check_nodes-AcceptedNodes (suc i) (n.name ∷ seen) nodes,
)

check_nodes_complete :
    (i : ℕ) (seen : List String) (nodes : List NodeConfig)
    → All IsValidNode nodes
    → Fresh seen (map (λ n. n.name) nodes)
    → check_nodes i seen nodes ≡ ok (map with_kind nodes)
unfolding check_nodes
check_nodes_complete i seen [] v u = refl
check_nodes_complete i seen (n ∷ nodes) v u = ground (
  arith,
  v.0.named,
  v.0.wake_known,
  (check_tags_of-All n.name n.tags).1 v.0.tagged,
  (check_kind_iff (with_kind n)).1 v.0.kind,
  check_nodes_complete (suc i) (n.name ∷ seen) nodes v.1 u.1,
)

-- The file with the kinds of its nodes filled in.
abbrev pub filled : FleetFile → FleetFile
filled f = record f { config = record f.config { nodes = map with_kind f.config.nodes } }

nodes_kept : (nodes : List NodeConfig) → (has_nodes nodes ≡ true) ↔ (¬ (nodes ≡ []))
unfolding has_nodes
nodes_kept [] = ground arith
nodes_kept (n ∷ nodes) = ground arith

-- A fleet file is accepted exactly when it lists a node, its settings are ones that there are, its
-- gateway has an address with a scheme, its limits are positive and keyed by tags, and each node is
-- named, apart from the others, and is what its kind asks for; what is loaded is then the file with
-- the kinds filled in that it leaves out.
pub validate_file_iff :
    (f g : FleetFile) → (validate_file f ≡ ok g) ↔ (IsValidFile f × (g ≡ filled f))
unfolding validate_file
validate_file_iff f g = ground (
  arith,
  nodes_kept f.config.nodes,
  verdict_cases (check_gateway f.gateway),
  check_gateway-IsReachable f.gateway,
  verdict_cases (check_concurrency f.concurrency),
  check_concurrency-AreLimits f.concurrency,
  check_nodes-AcceptedNodes 0 [] f.config.nodes,
  check_nodes_complete 0 [] f.config.nodes,
)
