-- ===== src/Registry.antt =====
-- The table of models of poolgate/providers/registry.py, with `assert_capability`, and that of
-- poolgate/providers/gemini/models.py, with `assert_gemini_capability`.
use pool_gate.Common.{String, Bool, true, false, none, some, List, [], ◌∷◌, if◌then◌else◌, ◌||◌}
use pool_gate.Dict.{Dict, get}
use pool_gate.Result.{Result, ok, err, capability_error}

-- `Capability`
pub data Capability : Type 0 where
  chat structured tools moderation transcription synthesis : Capability

unfoldable pub same_capability : Capability → Capability → Bool
same_capability chat chat = true
same_capability structured structured = true
same_capability tools tools = true
same_capability moderation moderation = true
same_capability transcription transcription = true
same_capability synthesis synthesis = true
same_capability _ _ = false

-- `capability in caps`
unfoldable pub supports : List Capability → Capability → Bool
supports [] capability = false
supports (c ∷ caps) capability = same_capability c capability || supports caps capability

abbrev pub full : List Capability
full = chat ∷ structured ∷ tools ∷ []

-- `MODEL_CAPABILITIES`
unfoldable pub model_capabilities : Dict (List Capability)
model_capabilities =
    ("allam-2-7b", chat ∷ [])
    ∷ ("llama-3.1-8b-instant", full)
    ∷ ("llama-3.3-70b-versatile", full)
    ∷ ("meta-llama/llama-4-scout-17b-16e-instruct", full)
    ∷ ("openai/gpt-oss-20b", full)
    ∷ ("openai/gpt-oss-120b", full)
    ∷ ("qwen/qwen3-32b", full)
    ∷ ("qwen/qwen3.6-27b", full)
    ∷ ("groq/compound", chat ∷ tools ∷ [])
    ∷ ("groq/compound-mini", chat ∷ tools ∷ [])
    ∷ ("meta-llama/llama-prompt-guard-2-22m", moderation ∷ [])
    ∷ ("meta-llama/llama-prompt-guard-2-86m", moderation ∷ [])
    ∷ ("openai/gpt-oss-safeguard-20b", moderation ∷ [])
    ∷ ("whisper-large-v3", transcription ∷ [])
    ∷ ("whisper-large-v3-turbo", transcription ∷ [])
    ∷ ("canopylabs/orpheus-arabic-saudi", synthesis ∷ [])
    ∷ ("canopylabs/orpheus-v1-english", synthesis ∷ [])
    ∷ []

-- `assert_capability`, over a table: an unknown model and a capability that a model lacks raise the
-- same exception, with different texts.
unfoldable pub assert_in : Dict (List Capability) → String → Capability → Result (Unit {0})
assert_in table model capability = elim (get table model) [
  | none ↦ err (capability_error model)
  | some caps ↦ if supports caps capability then ok tt else err (capability_error model)
]

unfoldable pub assert_capability : String → Capability → Result (Unit {0})
assert_capability model capability = assert_in model_capabilities model capability

-- `GEMINI_MODEL_CAPABILITIES`
unfoldable pub gemini_model_capabilities : Dict (List Capability)
gemini_model_capabilities = ("gemini-2.5-flash", full) ∷ ("gemini-3.5-flash", full) ∷ []

unfoldable pub assert_gemini_capability : String → Capability → Result (Unit {0})
assert_gemini_capability model capability = assert_in gemini_model_capabilities model capability
