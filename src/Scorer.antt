-- ===== src/Scorer.antt =====
-- Which nodes may serve a request (`_eliminate` of src/fleet_manager/server/scorer.py). What it
-- costs to load a model on a node is an argument, `fit_cost`. An availability score is in
-- thousandths.
pub mod Elimination
pub mod Floats
pub mod Signals
pub mod Load
pub mod Ranking
pub mod Order
use ollama_herd.Common.{
  ℕ, Bool, true, false, not, ◌&&◌, ◌||◌, Option, none, some, List, Text, text, text_eq, mem,
  if◌then◌else◌, ltb, filter, min,
}
use ollama_herd.Models.Metrics.{MemoryMetrics, MemoryPressure, CapacityMetrics, OllamaMetrics}
use ollama_herd.Models.Node.{NodeState, is_offline, loaded_names}
use ollama_herd.Registry.{NodeRegistry, get_all_nodes}
use ollama_herd.Serializers.{model_resident_on_node}

abbrev pub is_critical : Option MemoryMetrics → Bool
is_critical none = false
is_critical (some m) = elim m.pressure [
  | MemoryPressure.normal ↦ false
  | MemoryPressure.warn ↦ false
  | MemoryPressure.critical ↦ true
]

-- The capacity of the node keeps requests away.
unfoldable pub is_barred : Option CapacityMetrics → Bool
is_barred none = false
is_barred (some c) =
    if text_eq c.mode (text "paused")
    then true
    else if text_eq c.mode (text "bootstrap")
    then true
    else ltb c.availability_score 200

abbrev pub free_gb : Option MemoryMetrics → ℕ
free_gb none = 0
free_gb (some m) = m.available_gb

abbrev pub under_ceiling : Option CapacityMetrics → ℕ → ℕ
under_ceiling none available = available
under_ceiling (some c) available =
    if ltb 0 c.ceiling_gb then min available c.ceiling_gb else available

-- The checks after the one of the node's Ollama state.
abbrev pub survives_with : (Text → NodeState → ℕ) → Text → NodeState → OllamaMetrics → Bool
survives_with fit_cost model n o =
    if is_critical n.memory && not (model_resident_on_node model n)
    then false
    else if is_barred n.capacity
    then false
    else if not (mem model (loaded_names o)) && not (mem model o.models_available)
    then false
    else if not (mem model (loaded_names o))
    then not (ltb (under_ceiling n.capacity (free_gb n.memory)) (fit_cost model n))
    else true

-- A round of the loop of `_eliminate`.
unfoldable pub survives : (Text → NodeState → ℕ) → Text → NodeState → Bool
survives fit_cost model n =
    if is_offline n.status
    then false
    else elim n.ollama [ none ↦ false | some o ↦ survives_with fit_cost model n o ]

unfoldable pub eliminate : (Text → NodeState → ℕ) → Text → NodeRegistry → List NodeState
eliminate fit_cost model r = filter (survives fit_cost model) (get_all_nodes r)
