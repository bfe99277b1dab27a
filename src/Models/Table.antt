-- ===== src/Models/Table.antt =====
-- The models of poolgate/providers/groq/models.py: one class for each, with its limits, and the table of
-- them. A class is its prefix for the environment and the defaults of its fields.
use pool_gate.Common.{some, [], ◌∷◌}
use pool_gate.Int.{pos}
use pool_gate.Dict.{Dict}
use pool_gate.Models.{ModelClass, no_limits}

unfoldable pub allam27b_config : ModelClass
allam27b_config = record {
  env_prefix = "GROQ_MODEL_ALLAM_2_7B";
  defaults = record no_limits {
    model_id = "allam-2-7b";
    requests_per_minute = some (pos 30);
    requests_per_day = some (pos 7000);
    tokens_per_minute = some (pos 6000);
    tokens_per_day = some (pos 500000);
    context_window = some (pos 4096);
    max_output_tokens = some (pos 4096);
  };
}

unfoldable pub orpheus_arabic_saudi_config : ModelClass
orpheus_arabic_saudi_config = record {
  env_prefix = "GROQ_MODEL_ORPHEUS_ARABIC_SAUDI";
  defaults = record no_limits {
    model_id = "canopylabs/orpheus-arabic-saudi";
    requests_per_minute = some (pos 10);
    requests_per_day = some (pos 100);
    tokens_per_minute = some (pos 1200);
    tokens_per_day = some (pos 3600);
  };
}

unfoldable pub orpheus_v1_english_config : ModelClass
orpheus_v1_english_config = record {
  env_prefix = "GROQ_MODEL_ORPHEUS_V1_ENGLISH";
  defaults = record no_limits {
    model_id = "canopylabs/orpheus-v1-english";
    requests_per_minute = some (pos 10);
    requests_per_day = some (pos 100);
    tokens_per_minute = some (pos 1200);
    tokens_per_day = some (pos 3600);
  };
}

unfoldable pub compound_config : ModelClass
compound_config = record {
  env_prefix = "GROQ_MODEL_COMPOUND";
  defaults = record no_limits {
    model_id = "groq/compound";
    requests_per_minute = some (pos 30);
    requests_per_day = some (pos 250);
    tokens_per_minute = some (pos 70000);
  };
}

unfoldable pub compound_mini_config : ModelClass
compound_mini_config = record {
  env_prefix = "GROQ_MODEL_COMPOUND_MINI";
  defaults = record no_limits {
    model_id = "groq/compound-mini";
    requests_per_minute = some (pos 30);
    requests_per_day = some (pos 250);
    tokens_per_minute = some (pos 70000);
  };
}

unfoldable pub llama318b_instant_config : ModelClass
llama318b_instant_config = record {
  env_prefix = "GROQ_MODEL_LLAMA_31_8B_INSTANT";
  defaults = record no_limits {
    model_id = "llama-3.1-8b-instant";
    requests_per_minute = some (pos 30);
    requests_per_day = some (pos 14400);
    tokens_per_minute = some (pos 6000);
    tokens_per_day = some (pos 500000);
    context_window = some (pos 131072);
    max_output_tokens = some (pos 8192);
  };
}

unfoldable pub llama3370b_versatile_config : ModelClass
llama3370b_versatile_config = record {
  env_prefix = "GROQ_MODEL_LLAMA_33_70B_VERSATILE";
  defaults = record no_limits {
    model_id = "llama-3.3-70b-versatile";
    requests_per_minute = some (pos 30);
    requests_per_day = some (pos 1000);
    tokens_per_minute = some (pos 12000);
    tokens_per_day = some (pos 100000);
    context_window = some (pos 131072);
    max_output_tokens = some (pos 32768);
  };
}

unfoldable pub llama4_scout17b_config : ModelClass
llama4_scout17b_config = record {
  env_prefix = "GROQ_MODEL_LLAMA4_SCOUT_17B";
  defaults = record no_limits {
    model_id = "meta-llama/llama-4-scout-17b-16e-instruct";
    requests_per_minute = some (pos 30);
    requests_per_day = some (pos 1000);
    tokens_per_minute = some (pos 30000);
    tokens_per_day = some (pos 500000);
    context_window = some (pos 10000000);
    max_output_tokens = some (pos 8192);
  };
}

unfoldable pub llama_prompt_guard222m_config : ModelClass
llama_prompt_guard222m_config = record {
  env_prefix = "GROQ_MODEL_PROMPT_GUARD_22M";
  defaults = record no_limits {
    model_id = "meta-llama/llama-prompt-guard-2-22m";
    requests_per_minute = some (pos 30);
    requests_per_day = some (pos 14400);
    tokens_per_minute = some (pos 15000);
    tokens_per_day = some (pos 500000);
    context_window = some (pos 8192);
    max_output_tokens = some (pos 1024);
  };
}

unfoldable pub llama_prompt_guard286m_config : ModelClass
llama_prompt_guard286m_config = record {
  env_prefix = "GROQ_MODEL_PROMPT_GUARD_86M";
  defaults = record no_limits {
    model_id = "meta-llama/llama-prompt-guard-2-86m";
    requests_per_minute = some (pos 30);
    requests_per_day = some (pos 14400);
    tokens_per_minute = some (pos 15000);
    tokens_per_day = some (pos 500000);
    context_window = some (pos 8192);
    max_output_tokens = some (pos 1024);
  };
}

unfoldable pub gpt_oss120b_config : ModelClass
gpt_oss120b_config = record {
  env_prefix = "GROQ_MODEL_GPT_OSS_120B";
  defaults = record no_limits {
    model_id = "openai/gpt-oss-120b";
    requests_per_minute = some (pos 30);
    requests_per_day = some (pos 1000);
    tokens_per_minute = some (pos 8000);
    tokens_per_day = some (pos 200000);
    context_window = some (pos 131072);
    max_output_tokens = some (pos 8192);
  };
}

unfoldable pub gpt_oss20b_config : ModelClass
gpt_oss20b_config = record {
  env_prefix = "GROQ_MODEL_GPT_OSS_20B";
  defaults = record no_limits {
    model_id = "openai/gpt-oss-20b";
    requests_per_minute = some (pos 30);
    requests_per_day = some (pos 1000);
    tokens_per_minute = some (pos 8000);
    tokens_per_day = some (pos 200000);
    context_window = some (pos 131072);
    max_output_tokens = some (pos 8192);
  };
}

unfoldable pub gpt_oss_safeguard20b_config : ModelClass
gpt_oss_safeguard20b_config = record {
  env_prefix = "GROQ_MODEL_GPT_OSS_SAFEGUARD_20B";
  defaults = record no_limits {
    model_id = "openai/gpt-oss-safeguard-20b";
    requests_per_minute = some (pos 30);
    requests_per_day = some (pos 1000);
    tokens_per_minute = some (pos 8000);
    tokens_per_day = some (pos 200000);
    context_window = some (pos 131072);
    max_output_tokens = some (pos 8192);
  };
}

unfoldable pub qwen332b_config : ModelClass
qwen332b_config = record {
  env_prefix = "GROQ_MODEL_QWEN3_32B";
  defaults = record no_limits {
    model_id = "qwen/qwen3-32b";
    requests_per_minute = some (pos 60);
    requests_per_day = some (pos 1000);
    tokens_per_minute = some (pos 6000);
    tokens_per_day = some (pos 500000);
    context_window = some (pos 131072);
    max_output_tokens = some (pos 8192);
  };
}

unfoldable pub qwen3627b_config : ModelClass
qwen3627b_config = record {
  env_prefix = "GROQ_MODEL_QWEN3_6_27B";
  defaults = record no_limits {
    model_id = "qwen/qwen3.6-27b";
    requests_per_minute = some (pos 30);
    requests_per_day = some (pos 1000);
    tokens_per_minute = some (pos 8000);
    tokens_per_day = some (pos 200000);
    context_window = some (pos 131072);
    max_output_tokens = some (pos 8192);
  };
}

unfoldable pub whisper_large_v3_config : ModelClass
whisper_large_v3_config = record {
  env_prefix = "GROQ_MODEL_WHISPER_V3";
  defaults = record no_limits {
    model_id = "whisper-large-v3";
    requests_per_minute = some (pos 20);
    requests_per_day = some (pos 2000);
    audio_seconds_per_hour = some (pos 7200);
    audio_seconds_per_day = some (pos 28800);
  };
}

unfoldable pub whisper_large_v3_turbo_config : ModelClass
whisper_large_v3_turbo_config = record {
  env_prefix = "GROQ_MODEL_WHISPER_V3_TURBO";
  defaults = record no_limits {
    model_id = "whisper-large-v3-turbo";
    requests_per_minute = some (pos 20);
    requests_per_day = some (pos 2000);
    audio_seconds_per_hour = some (pos 7200);
    audio_seconds_per_day = some (pos 28800);
  };
}

-- `MODEL_REGISTRY`
unfoldable pub model_registry : Dict ModelClass
model_registry =
    ("allam-2-7b", allam27b_config)
    ∷ ("canopylabs/orpheus-arabic-saudi", orpheus_arabic_saudi_config)
    ∷ ("canopylabs/orpheus-v1-english", orpheus_v1_english_config)
    ∷ ("groq/compound", compound_config)
    ∷ ("groq/compound-mini", compound_mini_config)
    ∷ ("llama-3.1-8b-instant", llama318b_instant_config)
    ∷ ("llama-3.3-70b-versatile", llama3370b_versatile_config)
    ∷ ("meta-llama/llama-4-scout-17b-16e-instruct", llama4_scout17b_config)
    ∷ ("meta-llama/llama-prompt-guard-2-22m", llama_prompt_guard222m_config)
    ∷ ("meta-llama/llama-prompt-guard-2-86m", llama_prompt_guard286m_config)
    ∷ ("openai/gpt-oss-120b", gpt_oss120b_config)
    ∷ ("openai/gpt-oss-20b", gpt_oss20b_config)
    ∷ ("openai/gpt-oss-safeguard-20b", gpt_oss_safeguard20b_config)
    ∷ ("qwen/qwen3-32b", qwen332b_config)
    ∷ ("qwen/qwen3.6-27b", qwen3627b_config)
    ∷ ("whisper-large-v3", whisper_large_v3_config)
    ∷ ("whisper-large-v3-turbo", whisper_large_v3_turbo_config)
    ∷ []
