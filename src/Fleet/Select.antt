-- ===== src/Fleet/Select.antt =====
-- Which node of the fleet serves a launch (internal/fleet/select.go).
pub mod Ranking
pub mod Chosen
pub mod Asked
use spinloop.Prelude.{
  ℕ, ◌+◌, String, Bool, true, false, not, List, [], ◌∷◌, Option, none, some, if◌then◌else◌, str_eq,
  ltb, ◌&&◌, ◌||◌, is_some, xor, map, any,
}
use spinloop.Prelude.Int.{ℤ, pos, eq_ℤ, lt_ℤ}
use spinloop.Prelude.Result.{Result, ok, err, ◌>>=◌, fail_as}
use spinloop.Prelude.Sort.{slice_stable}
use spinloop.Fleet.Tags.{is_empty}
use spinloop.Fleet.Answer.{EndpointError, StatusResponse, NodeResult, is_answered, is_up, ready_no}
use spinloop.Fleet.Config.{
  NodeConfig, Config, Environment, TokenError, UnknownNode, only, prefer_idle, prefer_active,
}
use spinloop.Fleet.Endpoint.{Parsers, engine_base_url, engine_key_for}

pub record Want : Type 0 where
  pub model : String
  pub alias : String
  pub model_id : String
  pub node : String
  pub prefer : String

abbrev pub preference_of : Want → String
preference_of w = if is_empty w.prefer then prefer_idle else w.prefer

-- The empty name is no name.
abbrev pub names_it : Want → String → Bool
names_it w s = not (is_empty s) && (str_eq s w.model || (str_eq s w.alias || str_eq s w.model_id))

unfoldable pub matches : Want → List String → Bool
matches w serving =
    if is_empty w.model && (is_empty w.alias && is_empty w.model_id)
    then true
    else any (names_it w) serving

unfoldable pub serving_names : StatusResponse → List String
serving_names s =
    let served =
      if not (is_empty s.served_name) && not (str_eq s.served_name s.model)
      then s.served_name ∷ []
      else [] in
    if not (is_empty s.model) then s.model ∷ served else served

unfoldable pub wanted : Want → String
wanted w =
    if not (is_empty w.model)
    then w.model
    else if not (is_empty w.alias)
    then w.alias
    else if not (is_empty w.model_id)
    then w.model_id
    else "any model"

pub record Candidate : Type 0 where
  pub entry : NodeConfig
  pub index : ℕ
  pub result : NodeResult

abbrev pub candidates_from : ℕ → List NodeConfig → List NodeResult → List Candidate
candidates_from i nodes [] = []
candidates_from i [] (r ∷ results) = []
candidates_from i (n ∷ nodes) (r ∷ results) =
    record { entry = n; index = i; result = r } ∷ candidates_from (i + 1) nodes results

abbrev pub candidates : Config → List NodeResult → List Candidate
candidates c results = candidates_from 0 c.nodes results

unfoldable pub running : Want → List Candidate → List Candidate
running w [] = []
running w (c ∷ cands) =
    let rest = running w cands in
    if not (is_answered c.result) || not (is_up c.result.status)
    then rest
    else if str_eq c.result.status.ready ready_no
    then rest
    else if matches w (serving_names c.result.status)
    then c ∷ rest
    else rest

unfoldable pub loading : Want → List Candidate → List Candidate
loading w [] = []
loading w (c ∷ cands) =
    let rest = loading w cands in
    if not (is_answered c.result) || not (is_up c.result.status)
    then rest
    else if not (str_eq c.result.status.ready ready_no)
    then rest
    else if matches w (serving_names c.result.status)
    then c ∷ rest
    else rest

abbrev pub loading_nodes : Config → List NodeResult → Want → List NodeConfig
loading_nodes c results w = map (λ cand. cand.entry) (loading w (candidates c results))

-- The seconds since the last activity, where there was any.
abbrev pub idle : Candidate → Option ℤ
idle c = if is_empty c.result.status.last_active_at then none else some c.result.status.idle_seconds

abbrev pub seconds : Option ℤ → ℤ
seconds none = pos 0
seconds (some n) = n

unfoldable pub goes_first : String → Option ℤ → ℕ → Option ℤ → ℕ → Bool
goes_first p a i b j =
    if xor (is_some a) (is_some b)
    then not (xor (str_eq p prefer_idle) (not (is_some a)))
    else if not (eq_ℤ (seconds a) (seconds b))
    then (if str_eq p prefer_active
        then lt_ℤ (seconds a) (seconds b)
        else lt_ℤ (seconds b) (seconds a))
    else ltb i j

abbrev pub before : String → Candidate → Candidate → Bool
before p x y = goes_first p (idle x) x.index (idle y) y.index

unfoldable pub rank : String → List Candidate → List Candidate
rank p cands = slice_stable (λ i x j y. before p x y) cands

-- Why a node is chosen, with what the message names.
pub data Reason : Type 0 where
  woken_for : String → Reason
  no_work_yet : String → String → Reason
  active_ago : String → ℤ → String → Reason

pub record Choice : Type 0 where
  pub node : NodeConfig
  pub base_url : String
  pub api_key : String
  pub reason : Reason
  pub woken : Bool
  pub gateway : Bool
  pub gateway_token_env : String
  pub label : String

-- Why there is none. The first of them carries what `ErrNoneServing` does: the answers of the
-- fleet, what was wanted and the file.
pub data SelectError : Type 0 where
  none_serving : List NodeResult → Want → String → SelectError
  unanswered : String → NodeResult → SelectError
  serves_other : String → String → String → SelectError
  still_starting : String → String → SelectError
  unreachable_engine : EndpointError → SelectError
  no_key : TokenError → SelectError
  unknown_node : UnknownNode → SelectError

unfoldable pub reason_for : Candidate → Want → Bool → Reason
reason_for c w true = woken_for (wanted w)
reason_for c w false =
    let status = c.result.status in
    let serving = if is_empty status.model then "an engine" else status.model in
    if is_empty status.last_active_at
    then no_work_yet serving (preference_of w)
    else active_ago serving status.idle_seconds (preference_of w)

-- What resolves addresses and keys, and the answers of the nodes that are asked.
pub record World : Type 0 where
  pub parsers : Parsers
  pub env : Environment
  pub fan_out : List NodeConfig → List NodeResult

unfoldable pub choice_for :
    World → Config → Candidate → Want → Bool → String → Result SelectError Choice
choice_for world c best w woken set_key = do
  base_url ←
      fail_as unreachable_engine (engine_base_url world.parsers c best.entry best.result.status)
  key ←
      (if woken
        then ok set_key
        else fail_as no_key (engine_key_for world.env c best.entry best.result.status))
  ok (record {
    node = best.entry;
    base_url = base_url;
    api_key = key;
    reason = reason_for best w woken;
    woken = woken;
    gateway = false;
    gateway_token_env = "";
    label = "";
  })

-- The refusals that are a pinned node's own.
unfoldable pub pinned_refusal : Want → Candidate → Option SelectError
pinned_refusal w only =
    let status = only.result.status in
    if not (is_answered only.result)
    then some (unanswered only.entry.name only.result)
    else if is_up status && not (matches w (serving_names status))
    then some (serves_other only.entry.name status.model (wanted w))
    else if is_up status && str_eq status.ready ready_no
    then some (still_starting only.entry.name (wanted w))
    else none

abbrev pub refusal_of_pin : Want → List Candidate → Option SelectError
refusal_of_pin w (only ∷ []) = if is_empty w.node then none else pinned_refusal w only
refusal_of_pin w _ = none

abbrev pub best_of :
    World → Config → List NodeResult → Want → List Candidate → Result SelectError Choice
best_of world c results w [] = err (none_serving results w c.path)
best_of world c results w (best ∷ _) = choice_for world c best w false ""

abbrev pub unless_refused :
    Option SelectError → Result SelectError Choice → Result SelectError Choice
unless_refused (some e) r = err e
unless_refused none r = r

unfoldable pub choose : World → Config → List NodeResult → Want → Result SelectError Choice
choose world c results w =
    let cands = candidates c results in
    unless_refused (refusal_of_pin w cands)
      (best_of world c results w (rank (preference_of w) (running w cands)))

unfoldable pub select : World → Config → Want → Result SelectError Choice
select world c w = do
  scope ← (if is_empty w.node then ok c else fail_as unknown_node (only c w.node))
  choose world scope (world.fan_out scope.nodes) w
