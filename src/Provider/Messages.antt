-- ===== src/Provider/Messages.antt =====
-- The helpers on prompts and answers of poolgate/services/provider.py and gemini_provider.py, and the
-- check of roles of `RuntimeChatMessage` in poolgate/schemas/common/runtime.py.
pub mod Errors
pub mod Fences
use pool_gate.Common.{
  ℕ, String, Bool, false, not, ◌||◌, ◌==◌, ltb, Option, none, some, List, [], ◌∷◌, ◌++◌, map,
  if◌then◌else◌, str_eq, keep_if, drop, take, length,
}
use pool_gate.Result.{Result, ok, err, invalid_message_role}
use pool_gate.Text.{Text, rstrip, strip, split_lines, join_lines, starts_with, text_eq}

pub record Message : Type 0 where
  pub role : String
  pub content : Text

-- `_prompt_to_messages`: an empty system prompt counts as none.
unfoldable pub prompt_to_messages : Text → Option Text → List Message
prompt_to_messages prompt none = record { role = "user"; content = prompt } ∷ []
prompt_to_messages prompt (some []) = record { role = "user"; content = prompt } ∷ []
prompt_to_messages prompt (some (c ∷ cs)) =
    record { role = "system"; content = c ∷ cs } ∷ record { role = "user"; content = prompt } ∷ []

-- `validate_role`
unfoldable pub is_allowed : String → Bool
is_allowed role =
    str_eq role "system" || str_eq role "user" || str_eq role "assistant" || str_eq role "tool"

-- `_validate_messages`
unfoldable pub validate_messages : List Message → Result (Unit {0})
validate_messages [] = ok tt
validate_messages (m ∷ ms) =
    let rest = validate_messages ms in
    if is_allowed m.role then rest else err (invalid_message_role m.role)

abbrev pub fence : Text
fence = b'`' ∷ b'`' ∷ b'`' ∷ []

-- The branch on a fence at the start of a stripped answer.
unfoldable pub without_fence : Text → Text
without_fence t =
    if starts_with fence t
    then strip
        (join_lines (keep_if (λ l. not (text_eq (strip l) fence)) (drop 1 (split_lines false t))))
    else t

-- `_extract_json`
unfoldable pub extract_json : Text → Text
extract_json text = without_fence (strip text)

abbrev pub ellipsis : ℕ
ellipsis = 0x2026

-- `replace("\n", " ").replace("\r", " ")`
abbrev pub unbroken : ℕ → ℕ
unbroken c = if c == 10 then 32 else if c == 13 then 32 else c

-- `_sanitize_parse_error`, of the exception's text.
unfoldable pub sanitize_parse_error : Text → ℕ → Text
sanitize_parse_error exc max_len =
    let message = strip (map unbroken exc) in
    if ltb max_len (length message) then rstrip (take max_len message) ++ ellipsis ∷ [] else message
