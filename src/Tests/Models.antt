-- ===== src/Tests/Models.antt =====
-- The theorems of the models' limits at concrete inputs.
use pool_gate.Common.{none, some, ◌≡◌, str_eq, if◌then◌else◌}
use pool_gate.Int.{pos, negsuc}
use pool_gate.Dict.{has}
use pool_gate.Registry.{model_capabilities}
use pool_gate.Models.{Env}
use pool_gate.Models.Table.{model_registry}
use pool_gate.Models.Load.{get_model_config}
use pool_gate.Models.Limits.{Loaded, get_model_config-Loaded}
use pool_gate.Models.Agree.{has-model_registry}

-- One limit is set to 45, and another to what is no limit.
abbrev settings : Env
settings var =
    if str_eq var "GROQ_MODEL_COMPOUND_REQUESTS_PER_MINUTE"
    then some (some (pos 45))
    else if str_eq var "GROQ_MODEL_COMPOUND_TOKENS_PER_DAY"
    then some (some (negsuc 0))
    else none

get_model_config-Loaded_example :
    Loaded settings "groq/compound" (get_model_config settings "groq/compound")
get_model_config-Loaded_example = get_model_config-Loaded settings "groq/compound"

has-model_registry_example :
    has model_registry "groq/compound" ≡ has model_capabilities "groq/compound"
has-model_registry_example = has-model_registry "groq/compound"
