-- ===== src/Serializers.antt =====
-- What the read APIs, the scorer and the queues ask of a node state
-- (src/fleet_manager/server/serializers.py).
pub mod Residency
pub mod Parallelism
use ollama_herd.Common.{
  ℕ, ◌-◌, Bool, true, false, not, ◌&&◌, ◌||◌, Option, none, some, List, [], ◌∷◌, map, Text, text,
  text_eq, mem, is_empty, ltb, ◌==◌, if◌then◌else◌, any, length, strip_prefix, starts_with, drop,
}
use ollama_herd.Dict.{Dict}
use ollama_herd.Dict
use ollama_herd.Models.Metrics.{OllamaMetrics, LoadedModel, ModelTagMeta, MlxServerInfo}
use ollama_herd.Models.Node.{NodeState, loaded_names}
use ollama_herd.Models.Request.{normalize_model_name}

abbrev pub ollama_hot_model_cap : ℕ
ollama_hot_model_cap = 3

abbrev pub ollama_default_num_parallel : ℕ
ollama_default_num_parallel = 1

abbrev pub ollama_serial_families : List Text
ollama_serial_families =
    text "mllama"
    ∷ text "qwen3vl"
    ∷ text "qwen3vlmoe"
    ∷ text "qwen35"
    ∷ text "qwen35moe"
    ∷ text "qwen3next"
    ∷ text "lfm2"
    ∷ text "lfm2moe"
    ∷ text "nemotron_h"
    ∷ text "nemotron_h_moe"
    ∷ text "nemotron_h_omni"
    ∷ []

-- `server/mlx_proxy.py`: `is_mlx_model` and `strip_mlx_prefix`.
abbrev pub is_mlx_model : Text → Bool
is_mlx_model model = starts_with (text "mlx:") model

abbrev pub strip_mlx_prefix : Text → Text
strip_mlx_prefix model = if is_mlx_model model then drop 4 model else model

-- `getattr(node, "ollama", None) if node is not None else None`
abbrev pub ollama_of : Option NodeState → Option OllamaMetrics
ollama_of none = none
ollama_of (some n) = n.ollama

-- `x if x > 0 else d`
abbrev pub or_default : ℕ → ℕ → ℕ
or_default x d = if ltb 0 x then x else d

-- The part of `_model_meta` below the lookup of the node's Ollama state.
abbrev meta_in : Option OllamaMetrics → Text → Option ModelTagMeta
meta_in none model = none
meta_in (some o) model = elim o.models_available_meta [
  | none ↦ none
  | some m ↦ Dict.get (normalize_model_name model) m
]

unfoldable pub model_meta : Option NodeState → Text → Option ModelTagMeta
model_meta node model = if is_empty model then none else meta_in (ollama_of node) model

-- Ollama serves one request at a time for these.
unfoldable pub is_serial : ModelTagMeta → Bool
is_serial meta =
    text_eq meta.format (text "safetensors")
    || mem meta.family ollama_serial_families
    || (mem (text "embedding") meta.capabilities && not (mem (text "completion") meta.capabilities))

abbrev pub reported_parallel : Option OllamaMetrics → ℕ
reported_parallel none = 0
reported_parallel (some o) = o.num_parallel

unfoldable pub decode_parallelism_for : Option NodeState → Option Text → ℕ
decode_parallelism_for node model =
    let node_limit = or_default (reported_parallel (ollama_of node)) ollama_default_num_parallel in
    elim model [
      | none ↦ node_limit
      | some name ↦ elim (model_meta node name) [
        | none ↦ node_limit
        | some meta ↦ if is_serial meta then 1 else node_limit
      ]
    ]

unfoldable pub model_has_capability : Option NodeState → Text → Text → Bool
model_has_capability node model capability = elim (model_meta node model) [
  | none ↦ false
  | some meta ↦ mem capability meta.capabilities
]

abbrev reported_cap : Option OllamaMetrics → ℕ
reported_cap none = 0
reported_cap (some o) = o.max_loaded_models

unfoldable pub hot_model_cap_for : Option NodeState → ℕ
hot_model_cap_for node = or_default (reported_cap (ollama_of node)) ollama_hot_model_cap

-- `getattr(loaded, "digest", "") or loaded.name`
abbrev pub runner_key : LoadedModel → Text
runner_key m = if is_empty m.digest then m.name else m.digest

-- The loop of `distinct_resident_models`, with the keys seen so far.
unfoldable pub distinct_runners : List Text → List LoadedModel → List LoadedModel
distinct_runners seen [] = []
distinct_runners seen (m ∷ ms) =
    let kept = m ∷ distinct_runners (runner_key m ∷ seen) ms in
    let skipped = distinct_runners seen ms in if mem (runner_key m) seen then skipped else kept

abbrev pub models_loaded_of : Option OllamaMetrics → List LoadedModel
models_loaded_of none = []
models_loaded_of (some o) = o.models_loaded

unfoldable pub distinct_resident_models : Option NodeState → List LoadedModel
distinct_resident_models node = distinct_runners [] (models_loaded_of (ollama_of node))

-- A set of texts, as the list of its members.
abbrev pub add_name : Text → List Text → List Text
add_name x xs = if mem x xs then xs else x ∷ xs

unfoldable pub name_set : List LoadedModel → List Text
name_set [] = []
name_set (m ∷ ms) = add_name m.name (name_set ms)

unfoldable pub distinct_resident_model_names : Option NodeState → List Text
distinct_resident_model_names node = name_set (distinct_resident_models node)

-- `models_loaded_count` and `free_slots` of `serialize_node`.
unfoldable pub models_loaded_count : NodeState → ℕ
models_loaded_count n = length (distinct_resident_model_names (some n))

unfoldable pub free_slots : NodeState → ℕ
free_slots n = hot_model_cap_for (some n) - models_loaded_count n

abbrev pub mem_ℕ : ℕ → List ℕ → Bool
mem_ℕ c cs = any (λ d. c == d) cs

-- The set of the contexts that the runners of a name have.
unfoldable pub contexts_of : Text → List LoadedModel → List ℕ
contexts_of model [] = []
contexts_of model (m ∷ ms) =
    let rest = contexts_of model ms in
    if not (text_eq m.name model)
    then rest
    else if mem_ℕ m.context_length rest
    then rest
    else m.context_length ∷ rest

abbrev pub only_context : List ℕ → ℕ
only_context [] = 0
only_context (c ∷ []) = c
only_context (c ∷ d ∷ cs) = 0

unfoldable pub resident_context_for : Text → Option NodeState → ℕ
resident_context_for model node =
    only_context (contexts_of model (models_loaded_of (ollama_of node)))

unfoldable pub model_resident_on_node : Text → NodeState → Bool
model_resident_on_node model n =
    if is_mlx_model model
    then any (λ s. text_eq s.model (strip_mlx_prefix model) && text_eq s.status (text "healthy"))
        n.mlx_servers
    else elim n.ollama [ none ↦ false | some o ↦ mem model (loaded_names o) ]
