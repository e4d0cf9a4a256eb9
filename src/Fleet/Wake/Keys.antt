-- ===== src/Fleet/Wake/Keys.antt =====
-- The keys of the cloud nodes that a wake starts (internal/fleet/wake.go, internal/fleet/select.go).
use spinloop.Prelude.{true, ◌≡◌, str_eq, All}
use spinloop.Prelude.Result.{ok, err}
use spinloop.Fleet.Tags.{is_empty}
use spinloop.Fleet.Config.{NodeConfig, Config}
use spinloop.Fleet.Wake.{Attempt, Woken}

-- A cloud node that names no variable of its own.
abbrev pub LeansOnFleet : NodeConfig → Type 0
LeansOnFleet entry = (str_eq entry.kind "cloud" ≡ true) × (is_empty entry.engine_token_env ≡ true)

abbrev pub HasNoKey : Attempt → Type 0
HasNoKey a = LeansOnFleet a.candidate.entry → a.key ≡ ""

-- The keys that a wake starts engines with, and the key of the choice that comes of it.
abbrev pub KeyLess : Woken → Type 0
KeyLess (trace, ok choice) = All HasNoKey trace × (LeansOnFleet choice.node → choice.api_key ≡ "")
KeyLess (trace, err e) = All HasNoKey trace
