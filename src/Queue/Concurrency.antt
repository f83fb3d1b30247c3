-- ===== src/Queue/Concurrency.antt =====
-- How many requests of a queue may be in flight at once.
use ollama_herd.Common.{
  ℕ, ◌+◌, ◌-◌, ◌*◌, ◌/◌, ◌≤◌, ◌<◌, ◌≡◌, Option, none, some, List, [], ◌∷◌, Text, text_eq, ltb, ◌==◌,
  if◌then◌else◌, arith, min, max, inl, inr, Option-cases,
}
use ollama_herd.Models.Metrics.{LoadedModel, OllamaMetrics, MemoryMetrics, CapacityMetrics}
use ollama_herd.Models.Node.{NodeState}
use ollama_herd.Registry.{NodeRegistry, get_node}
use ollama_herd.Serializers.{decode_parallelism_for}
use ollama_herd.Serializers.Parallelism.{decode_parallelism_for_bounds}

-- Sizes are thousandths of a GB.
abbrev pub kv_cache_per_request_gb : ℕ
kv_cache_per_request_gb = 2000

abbrev pub min_concurrency : ℕ
min_concurrency = 1

abbrev pub max_concurrency : ℕ
max_concurrency = 8

unfoldable pub compute_concurrency : ℕ → ℕ → ℕ
compute_concurrency available_memory_gb model_size_gb =
    let headroom = available_memory_gb - model_size_gb in
    if headroom == 0
    then min_concurrency
    else max min_concurrency (min max_concurrency (headroom / kv_cache_per_request_gb))

-- `max((m.size_gb for m in models if m.name == model), default=0.0)`
unfoldable pub largest_size : Text → List LoadedModel → ℕ
largest_size model [] = 0
largest_size model (m ∷ ms) =
    if text_eq m.name model then max m.size_gb (largest_size model ms) else largest_size model ms

abbrev pub with_ceiling : Option CapacityMetrics → ℕ → ℕ
with_ceiling none available = available
with_ceiling (some c) available =
    if ltb 0 c.ceiling_gb then min available c.ceiling_gb else available

-- The part below the lookups of the node, its memory and its Ollama state.
abbrev pub node_concurrency : NodeState → Text → Option MemoryMetrics → Option OllamaMetrics → ℕ
node_concurrency n model none o = min_concurrency
node_concurrency n model (some m) none = min_concurrency
node_concurrency n model (some m) (some o) =
    let concurrency =
      compute_concurrency (with_ceiling n.capacity m.available_gb)
        (largest_size model o.models_loaded) in
    let backend_limit = decode_parallelism_for (some n) (some model) in
    max min_concurrency (if ltb 0 backend_limit then min concurrency backend_limit else concurrency)

abbrev lookup_concurrency : Option NodeState → Text → ℕ
lookup_concurrency none model = min_concurrency
lookup_concurrency (some n) model = node_concurrency n model n.memory n.ollama

unfoldable pub compute_queue_concurrency : Option NodeRegistry → Text → Text → ℕ
compute_queue_concurrency none node_id model = min_concurrency
compute_queue_concurrency (some r) node_id model = lookup_concurrency (get_node node_id r) model

-- The concurrency lies between 1 and 8.
pub compute_concurrency_bounds :
    (available size : ℕ)
    → (1 ≤ compute_concurrency available size) × (compute_concurrency available size ≤ 8)
unfolding compute_concurrency
compute_concurrency_bounds available size = (ground arith, ground arith)

-- Where more than one request is let run, the KV cache of every one of them fits beside the model.
pub compute_concurrency-fits :
    (available size : ℕ)
    → 1 < compute_concurrency available size
    → size + kv_cache_per_request_gb * compute_concurrency available size ≤ available
unfolding compute_concurrency
compute_concurrency-fits available size many = ground arith

node_concurrency_bounds :
    (n : NodeState) (model : Text) (m : Option MemoryMetrics) (o : Option OllamaMetrics)
    → (1 ≤ node_concurrency n model m o)
      × (node_concurrency n model m o ≤ 8)
      × (node_concurrency n model m o ≤ decode_parallelism_for (some n) (some model))
node_concurrency_bounds n model none o =
    let d = decode_parallelism_for_bounds (some n) (some model) in (omega arith, omega arith, d.0)
node_concurrency_bounds n model (some m) none =
    let d = decode_parallelism_for_bounds (some n) (some model) in (omega arith, omega arith, d.0)
node_concurrency_bounds n model (some m) (some o) =
    let d = decode_parallelism_for_bounds (some n) (some model) in
    let b =
      compute_concurrency_bounds (with_ceiling n.capacity m.available_gb)
        (largest_size model o.models_loaded) in
    (ground arith, ground (arith, b.1), ground (arith, d.0, b.0))

-- The limit of a queue lies between 1 and 8, also where there is no registry or the registry does
-- not know the node.
compute_queue_concurrency_bounds :
    (r : Option NodeRegistry) (node_id model : Text)
    → (1 ≤ compute_queue_concurrency r node_id model)
      × (compute_queue_concurrency r node_id model ≤ 8)
unfolding compute_queue_concurrency
compute_queue_concurrency_bounds none node_id model = (omega arith, omega arith)
compute_queue_concurrency_bounds (some r) node_id model = elim (Option-cases (get_node node_id r)) [
  | inl unknown ↦ rw (unknown, compute_queue_concurrency) (omega arith, omega arith)
  | inr (n, known) ↦
      let b = node_concurrency_bounds n model n.memory n.ollama in
      rw (known, compute_queue_concurrency) (b.0, b.1)
]

-- For a node that the registry knows, the limit of a queue is at most what the node's Ollama
-- decodes at once for the model.
pub compute_queue_concurrency-le :
    (r : NodeRegistry) (node_id model : Text) (n : NodeState)
    → get_node node_id r ≡ some n
    → compute_queue_concurrency (some r) node_id model
      ≤ decode_parallelism_for (some n) (some model)
unfolding compute_queue_concurrency
compute_queue_concurrency-le r node_id model n known =
    rw known ((node_concurrency_bounds n model n.memory n.ollama).2)
