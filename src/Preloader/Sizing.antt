-- ===== src/Preloader/Sizing.antt =====
-- What a model costs in memory (src/fleet_manager/server/model_preloader.py, and the two estimates
-- of src/fleet_manager/server/scorer.py that use it). Sizes are thousandths of a GB; a cost that is
-- not whole is rounded up, which leaves its comparison with a whole number as it is.
use ollama_herd.Common.{
  ℕ, ◌+◌, ◌-◌, ◌*◌, ◌/◌, Bool, not, ◌&&◌, ◌||◌, Option, none, some, List, [], ◌∷◌, Text, text,
  text_eq, if◌then◌else◌, ltb, ◌==◌, starts_with,
}
use ollama_herd.Dict.{Dict}
use ollama_herd.Dict
use ollama_herd.Models.Metrics.{LoadedModel, OllamaMetrics}
use ollama_herd.Models.Node.{NodeState}
use ollama_herd.Preloader.Catalog.{ModelSpec, lookup_model}
use ollama_herd.Registry.{NodeRegistry, get_all_nodes}
use ollama_herd.Serializers.{ollama_of, models_loaded_of}
use ollama_herd.Url.Parse.{lower}

-- `mb_per_token`, a measured cost, as the quotient of `mb`, in thousandths of a MB, and `tokens`.
pub record KvCost : Type 0 where
  pub mb : ℕ
  pub tokens : ℕ

-- `_kv_cost_mb_per_token` and `_observed_ctx`.
pub record Learned : Type 0 where
  pub kv_cost : Dict KvCost
  pub observed_ctx : Dict ℕ

-- The settings that the preloader reads.
pub record PreloaderSettings : Type 0 where
  pub dynamic_num_ctx : Bool
  pub num_ctx_overrides : Dict ℕ
  pub pinned_models : Text
  pub model_preload_max_count : ℕ
  pub disable_model_preloader : Bool

abbrev pub unknown_model_size_gb : ℕ
unknown_model_size_gb = 100000

unfoldable pub sizes_of : Option OllamaMetrics → Dict ℕ
sizes_of none = []
sizes_of (some o) = o.models_available_sizes

-- `_observed_ctx[m.name] = ctx` where there is a context
unfoldable pub observe_context : LoadedModel → Learned → Learned
observe_context m l =
    if ltb 0 m.context_length
    then record l { observed_ctx = Dict.set m.name m.context_length l.observed_ctx }
    else l

-- The cost that a loaded model shows, where the three numbers are there and it is not below zero.
unfoldable pub kv_measure : ℕ → LoadedModel → Option KvCost
kv_measure weight m =
    if m.context_length == 0 || m.size_gb == 0 || weight == 0
    then none
    else if ltb m.size_gb weight
    then none
    else some (record { mb = (m.size_gb - weight) * 1024; tokens = m.context_length })

abbrev pub learn_cost : Text → Option KvCost → Learned → Learned
learn_cost name none l = l
learn_cost name (some cost) l = record l { kv_cost = Dict.set name cost l.kv_cost }

unfoldable pub observe_model : Dict ℕ → LoadedModel → Learned → Learned
observe_model sizes m l =
    learn_cost m.name (kv_measure (Dict.get_or m.name 0 sizes) m) (observe_context m l)

unfoldable pub observe_models : Dict ℕ → List LoadedModel → Learned → Learned
observe_models sizes [] l = l
observe_models sizes (m ∷ ms) l = observe_models sizes ms (observe_model sizes m l)

-- `_observe_kv_cost`
unfoldable pub observe_kv_cost : NodeState → Learned → Learned
observe_kv_cost node l =
    observe_models (sizes_of (ollama_of (some node))) (models_loaded_of (ollama_of (some node))) l

-- The size of the first runner of the name that has one.
unfoldable pub loaded_size : Text → List LoadedModel → Option ℕ
loaded_size model [] = none
loaded_size model (m ∷ ms) =
    if text_eq m.name model && ltb 0 m.size_gb then some m.size_gb else loaded_size model ms

-- `a / b`, rounded up
abbrev pub div_up : ℕ → ℕ → ℕ
div_up a b = (a + (b - 1)) / b

-- `weights + (kv_mb * num_ctx) / 1024.0`, where `kv_mb` is a quotient itself
unfoldable pub predicted_gb : ℕ → KvCost → ℕ → ℕ
predicted_gb weights cost num_ctx = weights + div_up (cost.mb * num_ctx) (cost.tokens * 1024)

-- `sub in s`
unfoldable pub has_sub : Text → Text → Bool
has_sub sub [] = starts_with sub []
has_sub sub (c ∷ s) = starts_with sub (c ∷ s) || has_sub sub s

-- The tokens of a name and the sizes they stand for, in the order of the tests.
abbrev pub size_tokens : Dict ℕ
size_tokens =
    (text "671b", 400000)
    ∷ (text "480b", 290000)
    ∷ (text "405b", 230000)
    ∷ (text "235b", 140000)
    ∷ (text "122b", 75000)
    ∷ (text "120b", 72000)
    ∷ (text "70b", 45000)
    ∷ (text "72b", 45000)
    ∷ (text "32b", 20000)
    ∷ (text "30b", 19000)
    ∷ (text "27b", 19000)
    ∷ (text "22b", 14000)
    ∷ (text "14b", 10000)
    ∷ (text "13b", 10000)
    ∷ (text "8b", 5000)
    ∷ (text "7b", 5000)
    ∷ (text "4b", 3000)
    ∷ (text "3b", 3000)
    ∷ (text "1b", 1000)
    ∷ (text "0.6b", 1000)
    ∷ (text "0.5b", 1000)
    ∷ []

unfoldable pub size_by_token : Dict ℕ → Text → ℕ
size_by_token [] name = unknown_model_size_gb
size_by_token ((token, gb) ∷ tokens) name =
    if has_sub token name then gb else size_by_token tokens name

unfoldable pub size_by_name : Text → ℕ
unfolding has_sub
size_by_name model =
    let name = lower model in
    if has_sub (text "embed") name || has_sub (text "nomic") name
    then 500
    else size_by_token size_tokens name

unfoldable pub model_size_from_node : Text → Option NodeState → Option ℕ
model_size_from_node model node =
    let real = Dict.get_or model 0 (sizes_of (ollama_of node)) in
    if ltb 0 real then some real else loaded_size model (models_loaded_of (ollama_of node))

abbrev predict : Text → ℕ → ℕ → Learned → Option ℕ
predict model weights n l = elim (Dict.get model l.kv_cost) [
  | none ↦ none
  | some cost ↦ some (predicted_gb weights cost n)
]

-- The cost from what has been learned, for a context that is given and not zero.
unfoldable pub learned_gb : Text → ℕ → Option ℕ → Learned → Option ℕ
learned_gb model weights none l = none
learned_gb model weights (some n) l = if ltb 0 n then predict model weights n l else none

abbrev pub first_known : Option ℕ → Option ℕ → Option ℕ
first_known none other = other
first_known (some gb) other = some gb

-- `weights * _RESIDENT_OVERHEAD`, where nothing is measured
abbrev pub or_guess : ℕ → Option ℕ → ℕ
or_guess weights none = div_up (weights * 12) 10
or_guess weights (some gb) = gb

module _ (catalog : List ModelSpec) where
  unfoldable pub estimate_model_size : Text → Option NodeState → ℕ
  estimate_model_size model node = elim (model_size_from_node model node) [
    | some real ↦ real
    | none ↦ elim (lookup_model catalog model) [
      | some spec ↦ spec.ram_gb
      | none ↦ size_by_name model
    ]
  ]

  abbrev pub weights_of : Text → NodeState → Option ℕ → ℕ
  weights_of model node weights_gb = elim weights_gb [
    | some w ↦ w
    | none ↦ estimate_model_size model (some node)
  ]

  -- The cost, where there is evidence, and what has been learned from the node.
  unfoldable pub measured_resident_gb :
      Text → NodeState → Option ℕ → Option ℕ → Learned → Option ℕ × Learned
  measured_resident_gb model node num_ctx weights_gb l =
      let l' = observe_kv_cost node l in
      let loaded = loaded_size model (models_loaded_of (ollama_of (some node))) in
      (first_known loaded (learned_gb model (weights_of model node weights_gb) num_ctx l'), l')

  unfoldable pub estimate_resident_gb :
      Text → NodeState → Option ℕ → Option ℕ → Learned → ℕ × Learned
  estimate_resident_gb model node num_ctx weights_gb l =
      let measured = measured_resident_gb model node num_ctx weights_gb l in
      (or_guess (weights_of model node weights_gb) measured.0, measured.1)

  -- `_estimate_model_size` of the scorer: a peer may know the size.
  unfoldable pub peer_size : Text → NodeState → List NodeState → ℕ → ℕ
  peer_size model node [] size = size
  peer_size model node (other ∷ others) size =
      let rest = peer_size model node others size in
      let peer = estimate_model_size model (some other) in
      if text_eq other.node_id node.node_id then rest else elim other.ollama [
        | none ↦ rest
        | some o ↦ if peer == unknown_model_size_gb then rest else peer
      ]

  unfoldable pub scorer_model_size : NodeRegistry → Text → NodeState → ℕ
  scorer_model_size r model node =
      let size = estimate_model_size model (some node) in
      let peer = peer_size model node (get_all_nodes r) size in
      if size == unknown_model_size_gb then peer else size

unfoldable pub num_ctx_override : Text → Option PreloaderSettings → Option ℕ
num_ctx_override model none = none
num_ctx_override model (some s) =
    let override = Dict.get_or model 0 s.num_ctx_overrides in
    if not s.dynamic_num_ctx then none else if ltb 0 override then some override else none

unfoldable pub expected_num_ctx : Text → Option PreloaderSettings → Learned → Option ℕ
expected_num_ctx model settings l = elim (num_ctx_override model settings) [
  | some n ↦ some n
  | none ↦ Dict.get model l.observed_ctx
]

-- `_model_fit_cost_gb` of the scorer.
unfoldable pub model_fit_cost_gb :
    List ModelSpec
    → NodeRegistry
    → Option PreloaderSettings
    → Text
    → NodeState
    → Learned
    → ℕ × Learned
model_fit_cost_gb catalog r settings model node l =
    let weights = scorer_model_size catalog r model node in
    let measured =
      measured_resident_gb catalog model node (expected_num_ctx model settings l) (some weights)
        l in
    elim measured.0 [ some gb ↦ (gb, measured.1) | none ↦ (weights, measured.1) ]
