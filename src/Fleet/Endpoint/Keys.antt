-- ===== src/Fleet/Endpoint/Keys.antt =====
-- Which keys and addresses an engine is reached with (internal/fleet/select.go,
-- internal/fleet/config.go).
use spinloop.Prelude.{
  String, Bool, true, false, not, ◌≡◌, refl, some, arith, str_eq, ◌||◌, ◌&&◌, Bool-cases, is_some,
  inl, inr, ◌⊎◌, subst,
}
use spinloop.Prelude.Int.{pos, eq_ℤ}
use spinloop.Prelude.Map.{Map, lookup}
use spinloop.Prelude.Result.{Result, ok, err}
use spinloop.Fleet.Tags.{is_empty}
use spinloop.Fleet.Answer.{EndpointError, no_endpoint, no_port, bound_to_loopback, StatusResponse}
use spinloop.Fleet.Config.{
  EngineOverride, NodeConfig, Config, Environment, TokenError, value_of, from_file,
  resolve_token_env, cloud_engine_token,
}
use spinloop.Fleet.Endpoint.{
  Parsers, reported, overridden, requires_key, binds_loopback, has_scheme, host_is_loopback,
  engine_base_url, engine_key_for, join_engine_url, or_else, default_path, Address,
}

-- A key that is not the empty text, or an error.
IsKey : Result TokenError String → Type 0
IsKey (ok key) = is_empty key ≡ false
IsKey (err e) = Unit {0}

from_file-IsKey :
    (who name : String) (file : Result String (Map String)) → IsKey (from_file who name file)
unfolding from_file IsKey
from_file-IsKey who name (err e) = tt
from_file-IsKey who name (ok vars) = elim (Bool-cases (is_empty (value_of (lookup name vars)))) [
  | inl e ↦ rw e tt
  | inr e ↦ rw e e
]

resolve_token_env-IsKey :
    (env : Environment) (c : Config) (who name : String)
    → is_empty name ≡ false
    → IsKey (resolve_token_env env c who name)
unfolding resolve_token_env IsKey
resolve_token_env-IsKey env c who name h = elim (Bool-cases (is_empty (env.getenv name))) [
  | inl e ↦ rw (h, e) (from_file-IsKey who name (env.env_file c.dir))
  | inr e ↦ rw (h, e) e
]

-- A cloud engine always asks for a key, and another one where its node says so.
abbrev pub is_gated : NodeConfig → StatusResponse → Bool
is_gated n status = str_eq n.kind "cloud" || requires_key status.engine

engine_key_for-IsKey :
    (env : Environment) (c : Config) (n : NodeConfig) (status : StatusResponse)
    → is_gated n status ≡ true
    → IsKey (engine_key_for env c n status)
unfolding engine_key_for cloud_engine_token IsKey
engine_key_for-IsKey env c n status h = elim (Bool-cases (str_eq n.kind "cloud")) [
  | inl e ↦ elim (Bool-cases (is_empty (or_else n.engine_token_env c.api_key_env))) [
    | inl p ↦ rw (e, p) tt
    | inr p ↦ rw (e, p) (resolve_token_env-IsKey env c n.name _ p)
  ]
  | inr e ↦ elim (Bool-cases (is_empty n.engine_token_env)) [
    | inl p ↦ rw (e, gate e, p) tt
    | inr p ↦ rw (e, gate e, p) (resolve_token_env-IsKey env c n.name _ p)
  ]
]
  where
    gate : str_eq n.kind "cloud" ≡ false → requires_key status.engine ≡ true
    gate e = ground arith

-- An engine that asks for a key is never reached without one: the key that is found for it is not
-- the empty text. An engine that asks for none is reached with none.
pub engine_key_for_gated :
    (env : Environment) (c : Config) (n : NodeConfig) (status : StatusResponse)
    → ((key : String)
        → is_gated n status ≡ true
        → engine_key_for env c n status ≡ ok key
        → is_empty key ≡ false)
      × (is_gated n status ≡ false → engine_key_for env c n status ≡ ok "")
unfolding engine_key_for IsKey
engine_key_for_gated env c n status =
    (λ key h e. subst IsKey e (engine_key_for-IsKey env c n status h), λ h. ground arith)

-- What an address, and each refusal of one, says of the node.
abbrev pub Reached :
    Parsers → Config → NodeConfig → StatusResponse → Result EndpointError String → Type 0
Reached parsers c n status (ok url) =
    let a = overridden n.engine (reported n.host status.engine) in
    (url ≡ join_engine_url parsers a.host a.port (or_else a.path default_path))
    × ((eq_ℤ a.port (pos 0) ≡ false) ⊎ (has_scheme a.host ≡ true))
    × ((is_some n.engine ≡ true)
        ⊎ (binds_loopback status.engine ≡ false)
        ⊎ (host_is_loopback parsers n.host ≡ true))
Reached parsers c n status (err (no_endpoint name path)) =
    (name ≡ n.name) × (path ≡ c.path) × (is_some status.engine ≡ false)
Reached parsers c n status (err (no_port name)) =
    (name ≡ n.name)
    × (is_some status.engine ≡ true)
    × (eq_ℤ (overridden n.engine (reported n.host status.engine)).port (pos 0) ≡ true)
Reached parsers c n status (err (bound_to_loopback name path)) =
    (name ≡ n.name)
    × (path ≡ c.path)
    × (is_some n.engine ≡ false)
    × (binds_loopback status.engine ≡ true)
    × (host_is_loopback parsers n.host ≡ false)

pub engine_base_url-Reached :
    (parsers : Parsers) (c : Config) (n : NodeConfig) (status : StatusResponse)
    → Reached parsers c n status (engine_base_url parsers c n status)
unfolding engine_base_url
engine_base_url-Reached parsers c n status =
    elim (Bool-cases (eq_ℤ a.port (pos 0) && not (has_scheme a.host))) [
      | inl e ↦ elim (Bool-cases (is_some status.engine)) [
        | inl s ↦ rw (e, s) (refl, s, ground arith)
        | inr s ↦ rw (e, s) (refl, refl, s)
      ]
      | inr e ↦ elim (Bool-cases hidden) [
        | inl h ↦ rw (e, h) (refl, refl, ground arith, ground arith, ground arith)
        | inr h ↦ rw (e, h) (refl, ground arith, ground arith)
      ]
    ]
  where
    a : Address
    a = overridden n.engine (reported n.host status.engine)

    hidden : Bool
    hidden =
        not (is_some n.engine)
        && (binds_loopback status.engine && not (host_is_loopback parsers n.host))

-- The reply of a node that the file gives a host, a port and a path for plays no part in its address.
pub engine_base_url_overridden :
    (parsers : Parsers) (c : Config) (n : NodeConfig) (o : EngineOverride) (status : StatusResponse)
    → n.engine ≡ some o
    → is_empty o.host ≡ false
    → eq_ℤ o.port (pos 0) ≡ false
    → is_empty o.path ≡ false
    → engine_base_url parsers c n status ≡ ok (join_engine_url parsers o.host o.port o.path)
unfolding engine_base_url
engine_base_url_overridden parsers c n o status e h p q = rw (e, h, p, p, q, q) refl
