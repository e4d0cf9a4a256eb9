-- ===== src/Daemon/Control/Api/Exposed.antt =====
-- Who can drive a daemon that listens beyond its machine (internal/daemon/api.go).
use Prim.Native.String.{◌++◌}
use spinloop.Prelude.{
  String, Bool, false, ◌≡◌, refl, List, [], ◌∷◌, Option, arith, str_eq, keep_if, Bool-cases, inl,
  inr,
}
use spinloop.Prelude.Result.{ok}
use spinloop.Fleet.Tags.{is_empty}
use spinloop.Daemon.Control.{Daemon}
use spinloop.Daemon.Control.Api.{
  ApiWorld, ApiRequest, Reply, refuses, unauthorized, route, serve, Addresses, loopback_addr,
  listen,
}

-- A request with its header and what the host answers to it.
pub record Call : Type 0 where
  pub world : ApiWorld
  pub authorization : String
  pub request : ApiRequest

abbrev pub bears : String → Call → Bool
bears token c = str_eq c.authorization ("Bearer " ++ token)

module _ {F : Type 0} where
  -- The replies to a sequence of requests, and the daemon after it.
  unfoldable pub serve_all : String → List Call → Daemon F → List Reply × Daemon F
  serve_all token [] d = ([], d)
  serve_all token (c ∷ cs) d =
      let (r, d') = serve token c.world c.authorization c.request d in
      let (rs, e) = serve_all token cs d' in (r ∷ rs, e)

  -- The same of requests that nobody has to be let in for.
  unfoldable pub route_all : List Call → Daemon F → Daemon F
  route_all [] d = d
  route_all (c ∷ cs) d = route_all cs (route c.world c.request d).1

  serve_all-route_all :
      (token : String) (cs : List Call) (d : Daemon F)
      → is_empty token ≡ false
      → (serve_all token cs d).1 ≡ route_all (keep_if (bears token) cs) d
  unfolding serve_all route_all serve
  serve_all-route_all token [] d t = refl
  serve_all-route_all token (c ∷ cs) d t = elim (Bool-cases (bears token c)) [
    | inl e ↦ rw (t, e) (serve_all-route_all token cs (route c.world c.request d).1 t)
    | inr e ↦ rw (t, e) (serve_all-route_all token cs d t)
  ]

token_needed :
    (a : Addresses) (bind : Option String) (addr token : String)
    → loopback_addr a addr ≡ false
    → listen a bind addr token ≡ ok tt
    → is_empty token ≡ false
unfolding listen
token_needed a bind addr token l e = ground arith

-- A daemon that listens on an address that is not a loopback one has a token, and after any sequence
-- of requests it is what the requests that bear that token made of it: the others are refused with
-- 401 and change nothing.
pub serve_all-bears :
    {F : Type 0} (a : Addresses) (bind : Option String) (addr token : String) (cs : List Call)
    (d : Daemon F)
    → loopback_addr a addr ≡ false
    → listen a bind addr token ≡ ok tt
    → (is_empty token ≡ false)
      × ((serve_all token cs d).1 ≡ route_all (keep_if (bears token) cs) d)
      × ((c : Call)
          → bears token c ≡ false
          → serve token c.world c.authorization c.request d ≡ (refuses 401 unauthorized, d))
unfolding serve
serve_all-bears a bind addr token cs d l e =
    let t = token_needed a bind addr token l e in
    (t, serve_all-route_all token cs d t, λ c b. rw (t, b))
