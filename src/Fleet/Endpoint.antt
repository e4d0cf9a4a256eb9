-- ===== src/Fleet/Endpoint.antt =====
-- Where a node's engine is reached, and with which key (internal/fleet/select.go).
pub mod Keys
use Prim.Native.String.{◌++◌, slice}
use text.Mathlib.Text.{starts_with}
use spinloop.Prelude.{
  ℕ, zero, suc, ◌/◌, ◌%◌, ◌+◌, Char, code, String, Bool, true, false, not, Option, none, some,
  if◌then◌else◌, str_eq, ltb, ◌==◌, ◌&&◌, ◌||◌, is_some,
}
use spinloop.Prelude.Int.{ℤ, pos, negsuc, eq_ℤ}
use spinloop.Prelude.Result.{Result, ok, err}
use spinloop.Fleet.Tags.{is_empty}
use spinloop.Fleet.Answer.{
  EndpointError, no_endpoint, no_port, bound_to_loopback, EngineEndpoint, StatusResponse,
}
use spinloop.Fleet.Config.{
  EngineOverride, NodeConfig, Config, Environment, TokenError, engine_key_unnamed, engine_token,
  cloud_engine_token,
}

abbrev pub default_path : String
default_path = "/v1"

-- What `url.Parse` makes of an origin, as far as it is read here.
pub record Url : Type 0 where
  pub scheme : String
  pub hostname : String
  pub port : String

-- The parsers of the standard library: `url.Parse`, and `net.ParseIP` with the loopback test of the
-- address that it gives.
pub record Parsers : Type 0 where
  pub parse_url : String → Option Url
  pub parse_ip : String → Option Bool

-- strings.TrimLeft and strings.TrimRight, with the characters as a test.
trim_left : (Char → Bool) → String → String
trim_left p String.[] = String.[]
trim_left p (String.◌∷◌ c s) = let rest = trim_left p s in if p c then rest else String.◌∷◌ c s

trim_right : (Char → Bool) → String → String
trim_right p String.[] = String.[]
trim_right p (String.◌∷◌ c s) =
    let rest = trim_right p s in if is_empty rest && p c then String.[] else String.◌∷◌ c rest

slash : Char → Bool
slash c = code c == b'/'

bracket : Char → Bool
bracket c = (code c == b'[') || (code c == b']')

-- strings.Contains(host, "://")
unfoldable pub has_scheme : String → Bool
has_scheme String.[] = false
has_scheme (String.◌∷◌ c s) = starts_with (String.◌∷◌ c s) "://" || has_scheme s

digit : ℕ → String
digit n = slice "0123456789" n (n + 1)

-- strconv.Itoa: a number has at most as many digits as it counts, and one more.
digits : ℕ → ℕ → String
unfolding digit
digits zero n = ""
digits (suc fuel) n =
    let front = digits fuel (n / 10) in if ltb n 10 then digit n else front ++ digit (n % 10)

itoa : ℤ → String
unfolding digits
itoa (pos n) = digits (n + 1) n
itoa (negsuc n) = "-" ++ digits (n + 2) (n + 1)

has_colon : String → Bool
has_colon String.[] = false
has_colon (String.◌∷◌ c s) = (code c == b':') || has_colon s

-- net.JoinHostPort
join_host_port : String → String → String
unfolding has_colon
join_host_port host port =
    if has_colon host then "[" ++ (host ++ ("]:" ++ port)) else host ++ (":" ++ port)

with_port : String → ℤ → Option Url → String
unfolding join_host_port itoa
with_port origin port none = origin
with_port origin port (some u) =
    if is_empty u.port && not (eq_ℤ port (pos 0))
    then u.scheme ++ ("://" ++ join_host_port u.hostname (itoa port))
    else origin

unfoldable pub join_engine_url : Parsers → String → ℤ → String → String
unfolding trim_left trim_right slash with_port join_host_port itoa
join_engine_url parsers host port path =
    let tail = "/" ++ trim_left slash path in
    let origin = trim_right slash host in
    if has_scheme host
    then with_port origin port (parsers.parse_url origin) ++ tail
    else ("http://" ++ join_host_port host (itoa port)) ++ tail

loopback_of : Option Bool → Bool
loopback_of none = false
loopback_of (some b) = b

unfoldable pub host_is_loopback : Parsers → String → Bool
unfolding trim_left trim_right bracket loopback_of
host_is_loopback parsers host =
    if str_eq host "localhost"
    then true
    else loopback_of (parsers.parse_ip (trim_left bracket (trim_right bracket host)))

-- The host, the port and the path of an address.
pub record Address : Type 0 where
  pub host : String
  pub port : ℤ
  pub path : String

abbrev pub or_else : String → String → String
or_else x y = if is_empty x then y else x

-- What the node reports of its engine, in place of what the file says of the node.
abbrev pub reported : String → Option EngineEndpoint → Address
reported host none = record { host = host; port = pos 0; path = "" }
reported host (some ep) = record { host = or_else ep.host host; port = ep.port; path = ep.path }

-- What the file says of the engine, in place of both.
abbrev pub overridden : Option EngineOverride → Address → Address
overridden none a = a
overridden (some o) a = record {
  host = or_else o.host a.host;
  port = if eq_ℤ o.port (pos 0) then a.port else o.port;
  path = or_else o.path a.path;
}

abbrev pub binds_loopback : Option EngineEndpoint → Bool
binds_loopback none = false
binds_loopback (some ep) = ep.loopback_only

unfoldable pub engine_base_url :
    Parsers → Config → NodeConfig → StatusResponse → Result EndpointError String
engine_base_url parsers c n status =
    let a = overridden n.engine (reported n.host status.engine) in
    if eq_ℤ a.port (pos 0) && not (has_scheme a.host)
    then (if is_some status.engine then err (no_port n.name) else err (no_endpoint n.name c.path))
    else if not (is_some n.engine)
        && (binds_loopback status.engine && not (host_is_loopback parsers n.host))
    then err (bound_to_loopback n.name c.path)
    else ok (join_engine_url parsers a.host a.port (or_else a.path default_path))

abbrev pub requires_key : Option EngineEndpoint → Bool
requires_key none = false
requires_key (some ep) = ep.requires_key

unfoldable pub engine_key_for :
    Environment → Config → NodeConfig → StatusResponse → Result TokenError String
engine_key_for env c n status =
    if str_eq n.kind "cloud"
    then cloud_engine_token env c n
    else if not (requires_key status.engine)
    then ok ""
    else if is_empty n.engine_token_env
    then err (engine_key_unnamed n.name)
    else engine_token env c n

-- The address that a dialler needs.
unfoldable pub host_port_of : Parsers → String → String
unfolding join_host_port
host_port_of parsers base_url = elim (parsers.parse_url base_url) [
  | none ↦ ""
  | some u ↦
      if is_empty u.hostname
      then ""
      else join_host_port u.hostname (
          if not (is_empty u.port) then u.port else if str_eq u.scheme "https" then "443" else "80")
]
