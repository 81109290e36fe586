-- ===== src/Mqtt/CommandList.antt =====
-- `handle_commands_message` of web/mqtt_bridge/services.py, and the reading of a list of commands
-- that `handle_capabilities_message` shares.
use sensor_server.Prelude.{
  ℕ, String, Bool, ◌||◌, Option, none, some, List, [], ◌∷◌, ◌==◌, if◌then◌else◌,
}
use sensor_server.Text.{safe_identifier_re}
use sensor_server.Value.{Json, Dict, get_or, put, entries, elements}
use sensor_server.Store.{Device, Param}
use sensor_server.World.{World, Run, save}
use sensor_server.Mqtt.Payload.{Outcome, handled, Handler, decode, with_device}

-- [c for c in commands if isinstance(c, str) and SAFE_IDENTIFIER_RE.match(c)]
unfoldable pub safe_texts : List Json → List String
unfolding safe_identifier_re
safe_texts [] = []
safe_texts (Json.str c ∷ cs) =
    let rest = safe_texts cs in if safe_identifier_re c then c ∷ rest else rest
safe_texts (_ ∷ cs) = safe_texts cs

-- t in {"number", "string", "boolean"}
unfoldable pub valid_param_type : String → Bool
valid_param_type t = (t == "number") || (t == "string") || (t == "boolean")

abbrev param_of_texts : Json → Json → Option Param
param_of_texts (Json.str n) (Json.str t) =
    if valid_param_type t then some (record { name = n; type = t }) else none
param_of_texts _ _ = none

-- One entry `{"n": ..., "t": ...}` of a parameter list.
unfoldable pub param_of : Json → Option Param
unfolding entries get_or valid_param_type
param_of (Json.dict fs) =
    param_of_texts (get_or "n" Json.null (entries fs)) (get_or "t" Json.null (entries fs))
param_of _ = none

abbrev push_param : Option Param → List Param → List Param
push_param none ps = ps
push_param (some p) ps = p ∷ ps

unfoldable pub valid_params : List Json → List Param
unfolding param_of
valid_params [] = []
valid_params (p ∷ ps) = push_param (param_of p) (valid_params ps)

abbrev put_params : String → Json → Dict (List Param) → Dict (List Param)
put_params name (Json.list params) d = put name (valid_params (elements params)) d
put_params name _ d = d

-- The loop over `command_params.items()`; `acc` is the dictionary so far.
unfoldable pub read_params : Dict Json → Dict (List Param) → Dict (List Param)
unfolding safe_identifier_re put valid_params elements
read_params [] acc = acc
read_params ((name, params) ∷ rest) acc =
    read_params rest (if safe_identifier_re name then put_params name params acc else acc)

abbrev pub command_names : Json → List String
command_names (Json.list commands) = safe_texts (elements commands)
command_names _ = []

abbrev pub params_of : Json → Dict (List Param)
params_of (Json.dict fs) = read_params (entries fs) []
params_of _ = []

abbrev pub copy_capabilities_and_last_seen : Device → Device → Device
copy_capabilities_and_last_seen d row = record row {
  capabilities = d.capabilities;
  last_seen = d.last_seen;
}

unfoldable pub commands_body : ℕ → Dict Json → Run → Outcome × World
unfolding safe_texts elements entries read_params get_or save
commands_body now fields r =
    let c = record r.device.capabilities {
      commands = some (command_names (get_or "commands" Json.null fields));
      command_params = some (params_of (get_or "command_params" Json.null fields));
    } in
    let d = record r.device { capabilities = c; last_seen = some now } in
    (handled, save copy_capabilities_and_last_seen d r.world)

-- handle_commands_message
unfoldable pub handle_commands_message : Handler
unfolding decode with_device commands_body
handle_commands_message py now device_type device_id payload w =
    with_device (decode py payload) device_id (commands_body now) w
