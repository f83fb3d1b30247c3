-- ===== src/Tests/Serializers.antt =====
-- The theorems on node states at a node with three runners of two models.
use ollama_herd.Common.{◌≡◌, refl, arith, some, text_eq, length}
use ollama_herd.Dict
use ollama_herd.Serializers.{
  model_meta, ollama_of, models_loaded_of, distinct_resident_models, distinct_runners,
  resident_context_for, contexts_of, free_slots, models_loaded_count, hot_model_cap_for,
  distinct_resident_model_names, name_set,
}
use ollama_herd.Models.Request.{normalize_model_name}
use ollama_herd.Serializers.Residency.{AllHave, resident_context_for-AllHave}
use ollama_herd.Tests.Samples.{llama, mini_node}

program : Unit {0}
unfolding text_eq model_meta distinct_runners distinct_resident_models resident_context_for
    contexts_of free_slots models_loaded_count hot_model_cap_for distinct_resident_model_names
    name_set normalize_model_name Dict.get
program = tt

-- Two runners, and one slot of three that is free.
runners : (length (distinct_resident_models (some mini_node)) ≡ 2) × (free_slots mini_node ≡ 1)
unfolding program
runners = (refl, refl)

resident_context_for-AllHave_example :
    AllHave llama
      (resident_context_for llama (some mini_node))
      (models_loaded_of (ollama_of (some mini_node)))
unfolding program
resident_context_for-AllHave_example =
    resident_context_for-AllHave llama (some mini_node) (λ e. absurd (omega arith))
