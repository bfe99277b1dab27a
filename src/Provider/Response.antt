-- ===== src/Provider/Response.antt =====
-- The responses of the chat methods: `TokenUsage` and `GroqResponse` of
-- poolgate/schemas/common/runtime.py, with the fields that the services read.
use pool_gate.Common.{ℕ}
use pool_gate.Text.{Text}

pub record TokenUsage : Type 0 where
  pub prompt_tokens : ℕ
  pub completion_tokens : ℕ
  pub total_tokens : ℕ

pub record GroqResponse : Type 0 where
  pub text : Text
  pub usage : TokenUsage
  pub latency : ℕ
