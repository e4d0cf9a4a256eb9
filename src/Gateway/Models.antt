-- ===== src/Gateway/Models.antt =====
-- The list of models that a request can name (`handleModels` of internal/gateway/gateway.go).
pub mod Listed
use spinloop.Prelude.{
  ℕ, String, Bool, true, false, not, List, [], ◌∷◌, ◌++◌, Option, none, some, if◌then◌else◌, ◌&&◌,
  ◌||◌, str_eq,
}
use spinloop.Prelude.Int.{pos}
use spinloop.Prelude.Map.{Map, lookup, put}
use spinloop.Prelude.Result.{Result, ok, err}
use spinloop.Fleet.Tags.{is_empty, contains}
use spinloop.Fleet.Answer.{StatusResponse, NodeResult, is_answered, is_up}
use spinloop.Fleet.Config.{NodeConfig, Config, node_wakes}
use spinloop.Fleet.Wakeable.{DeployConfig, Resolved}
use spinloop.Gateway.{Handler, is_fresh, sources_ttl}

-- `cloudConfigFor`: a cloud node would be started with what its figures name; `stats` stands for a
-- client for the node and a call of `Metrics`.
abbrev pub named_config : String × String → DeployConfig
named_config (model_id, served_name) = record {
  runner = "";
  model_id = model_id;
  quant = "";
  context_size = pos 0;
  parallel = pos 0;
  served_model_name = served_name;
  serve_args = [];
  companions = [];
  spinloop_version = "";
  instance_type = "";
}

abbrev pub cloud_config_for : Result String (String × String) → Resolved
cloud_config_for (err e) = err e
cloud_config_for (ok names) = ok (named_config names)

abbrev pub source_config_for : Option (NodeConfig → Resolved) → NodeConfig → Resolved
source_config_for none entry = err "this gateway can wake no node"
source_config_for (some cfg_for) entry = cfg_for entry

unfoldable pub combined_config_for :
    (NodeConfig → Result String (String × String)) → Handler → NodeConfig → Resolved
combined_config_for stats h entry =
    if str_eq entry.kind "cloud"
    then cloud_config_for (stats entry)
    else source_config_for h.cfg_for entry

abbrev pub name_of : Resolved → String
name_of (err e) = ""
name_of (ok dc) = if is_empty dc.served_model_name then dc.model_id else dc.served_model_name

-- The loop of `wakeableModels`.
unfoldable pub wakeable_from :
    Config → (NodeConfig → Resolved) → Map String → List NodeConfig → Map String
wakeable_from c cfg_for m [] = m
wakeable_from c cfg_for m (entry ∷ entries) =
    let name = name_of (cfg_for entry) in
    let skipped = wakeable_from c cfg_for m entries in
    let named = wakeable_from c cfg_for (put entry.name name m) entries in
    if not (node_wakes c entry) then skipped else if is_empty name then skipped else named

abbrev pub fresh_models : ℕ → Handler → Option (Map String)
fresh_models now h = if is_fresh now h.wakeable_at sources_ttl then h.wakeable else none

models_when :
    (NodeConfig → Result String (String × String))
    → ℕ
    → Handler
    → Option (Map String)
    → Map String × Handler
models_when stats done h (some m) = (m, h)
models_when stats done h none =
    let m = wakeable_from h.cfg (combined_config_for stats h) [] h.cfg.nodes in
    (m, record h { wakeable = some m; wakeable_at = done })

unfoldable pub wakeable_models :
    (NodeConfig → Result String (String × String)) → ℕ → ℕ → Handler → Map String × Handler
unfolding models_when
wakeable_models stats now done h = models_when stats done h (fresh_models now h)

-- A name is listed once, and the empty name never.
unfoldable pub add_name : String → List String → List String
add_name name names = if is_empty name || contains name names then names else names ++ name ∷ []

abbrev pub running_name : StatusResponse → String
running_name s = if is_empty s.served_name then s.model else s.served_name

unfoldable pub list_running : List NodeResult → List String → List String
list_running [] names = names
list_running (r ∷ results) names =
    let listed = list_running results (add_name (running_name r.status) names) in
    let passed = list_running results names in
    if not (is_answered r) || not (is_up r.status) then passed else listed

abbrev pub text_of : Option String → String
text_of none = ""
text_of (some s) = s

unfoldable pub list_wakeable : Map String → List NodeResult → List String → List String
list_wakeable wakeable [] names = names
list_wakeable wakeable (r ∷ results) names =
    let listed =
      list_wakeable wakeable results (add_name (text_of (lookup r.name wakeable)) names) in
    let passed = list_wakeable wakeable results names in
    if not (is_answered r) || is_up r.status then passed else listed

unfoldable pub models : List NodeResult → Map String → List String
models results wakeable = list_wakeable wakeable results (list_running results [])
