-- ===== src/Scorer/Elimination.antt =====
-- What elimination keeps and what it does not.
use ollama_herd.Common.{
  ℕ, ◌≡◌, refl, Bool, true, false, not, ◌&&◌, ◌||◌, Option, none, some, List, [], ◌∷◌, arith, Text,
  mem, leb, filter, Option-cases, inl, inr,
}
use ollama_herd.Models.Metrics.{OllamaMetrics}
use ollama_herd.Models.Node.{NodeState, is_offline, loaded_names}
use ollama_herd.Registry.{NodeRegistry, get_all_nodes, has_model, get_nodes_with_model}
use ollama_herd.Serializers.{model_resident_on_node, is_mlx_model}
use ollama_herd.Scorer.{is_critical, is_barred, free_gb, under_ceiling, survives, eliminate}

-- The names of the models in memory.
abbrev pub loaded_on : Option OllamaMetrics → List Text
loaded_on none = []
loaded_on (some o) = loaded_names o

-- What a node that has the model must fulfil besides: its capacity lets requests in, and the model
-- is in memory, or there is room for it and memory is not critical.
abbrev pub is_admissible : (Text → NodeState → ℕ) → Text → NodeState → Bool
is_admissible fit_cost model n =
    not (is_barred n.capacity)
    && (not (is_critical n.memory) || model_resident_on_node model n)
    && (mem model (loaded_on n.ollama)
        || leb (fit_cost model n) (under_ceiling n.capacity (free_gb n.memory)))

survives-has_model :
    (fit_cost : Text → NodeState → ℕ) (model : Text) (n : NodeState)
    → survives fit_cost model n ≡ (has_model model n && is_admissible fit_cost model n)
unfolding survives
survives-has_model fit_cost model n = elim (Option-cases n.ollama) [
  | inl e ↦ rw (e, survives) (ground arith)
  | inr (o, e) ↦ rw (e, survives) (ground arith)
]

filter-filter :
    (p q : NodeState → Bool) (ns : List NodeState)
    → filter q (filter p ns) ≡ filter (λ n. p n && q n) ns
filter-filter p q [] = refl
filter-filter p q (n ∷ ns) = ground (arith, filter-filter p q ns)

filter_eq :
    (p q : NodeState → Bool) (ns : List NodeState)
    → ((n : NodeState) → p n ≡ q n)
    → filter p ns ≡ filter q ns
filter_eq p q [] h = refl
filter_eq p q (n ∷ ns) h = rw (h n, filter_eq p q ns h) refl

-- The nodes that survive elimination are exactly those nodes with the model, in the registry's
-- order, whose capacity lets requests in and that hold the model in memory already or have room for
-- it; under critical memory pressure the model must be resident.
eliminate-get_nodes_with_model :
    (fit_cost : Text → NodeState → ℕ) (model : Text) (r : NodeRegistry)
    → eliminate fit_cost model r
      ≡ filter (is_admissible fit_cost model) (get_nodes_with_model model r)
unfolding eliminate get_nodes_with_model
eliminate-get_nodes_with_model fit_cost model r =
    rw (filter-filter (has_model model) (is_admissible fit_cost model) (get_all_nodes r)) (
      filter_eq (survives fit_cost model) (λ n. has_model model n && is_admissible fit_cost model n)
        (get_all_nodes r) (survives-has_model fit_cost model))

-- A node that is in service, whose capacity lets requests in and that holds the model in memory,
-- survives whatever its memory is: a node short of memory still serves what it has loaded.
pub survives_loaded :
    (fit_cost : Text → NodeState → ℕ) (model : Text) (n : NodeState) (o : OllamaMetrics)
    → is_offline n.status ≡ false
    → n.ollama ≡ some o
    → is_barred n.capacity ≡ false
    → is_mlx_model model ≡ false
    → mem model (loaded_names o) ≡ true
    → survives fit_cost model n ≡ true
unfolding survives model_resident_on_node
survives_loaded fit_cost model n o on e free plain loaded = ground arith
