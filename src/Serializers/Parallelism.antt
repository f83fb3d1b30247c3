-- ===== src/Serializers/Parallelism.antt =====
-- How many requests a node's Ollama decodes at once.
use ollama_herd.Common.{
  ◌≤◌, ◌≡◌, true, false, Option, none, some, Text, arith, max, ◌⊎◌, text, text_eq, mem,
}
use ollama_herd.Models.Metrics.{ModelTagMeta}
use ollama_herd.Models.Node.{NodeState}
use ollama_herd.Serializers.{
  decode_parallelism_for, reported_parallel, ollama_of, model_meta, is_serial,
  ollama_serial_families,
}

-- The limit is at least one, and at most what the node reports, or one if it reports nothing.
pub decode_parallelism_for_bounds :
    (node : Option NodeState) (model : Option Text)
    → (1 ≤ decode_parallelism_for node model)
      × (decode_parallelism_for node model ≤ max 1 (reported_parallel (ollama_of node)))
unfolding decode_parallelism_for
decode_parallelism_for_bounds owner none = (ground arith, ground arith)
decode_parallelism_for_bounds owner (some n) = (ground arith, ground arith)

-- The limit is exactly one for a model that Ollama is known to serve one request at a time: a
-- safetensors model, one of a serial family, or one that embeds and does not complete.
decode_parallelism_for_serial :
    (node : Option NodeState) (name : Text) (meta : ModelTagMeta)
    → model_meta node name ≡ some meta
    → (text_eq meta.format (text "safetensors") ≡ true)
      ⊎ (mem meta.family ollama_serial_families ≡ true)
      ⊎ ((mem (text "embedding") meta.capabilities ≡ true)
          × (mem (text "completion") meta.capabilities ≡ false))
    → decode_parallelism_for node (some name) ≡ 1
unfolding decode_parallelism_for is_serial
decode_parallelism_for_serial owner name meta known serial = ground arith
