-- ===== src/Preloader/Load.antt =====
-- Loading a model on the best node, and waiting until it is resident
-- (src/fleet_manager/server/model_preloader.py).
use ollama_herd.Common.{
  ℕ, zero, suc, ◌+◌, ◌-◌, ◌*◌, Bool, true, false, not, ◌&&◌, Option, none, some, List, [], ◌∷◌,
  ◌++◌, Text, text, text_eq, is_empty, mem, if◌then◌else◌, ltb, leb, length, drop, filter, any,
}
use ollama_herd.Models.Node.{NodeState}
use ollama_herd.Preloader.Catalog.{ModelSpec}
use ollama_herd.Preloader.Sizing.{
  Learned, PreloaderSettings, has_sub, num_ctx_override, expected_num_ctx, estimate_resident_gb,
}
use ollama_herd.Registry.{NodeRegistry, get_node, get_online_nodes}
use ollama_herd.Scorer.{free_gb}
use ollama_herd.Serializers.{model_resident_on_node}

-- A model and its score, in thousandths.
pub record Priority : Type 0 where
  pub model : Text
  pub priority_score : ℕ

pub record PinFitFailure : Type 0 where
  pub timestamp : ℕ
  pub model : Text
  pub node_id : Text
  pub needed_gb : ℕ
  pub available_gb : ℕ

-- The globals of the module.
pub record Preloader : Type 0 where
  pub learned : Learned
  pub pin_fit_failures : List PinFitFailure
  pub priority_cache : List Priority
  pub priority_cache_time : ℕ

-- What the preloader sees of the fleet, whose state is `W`: the clock in milliseconds, the
-- registry, the proxy's list of models that cannot generate, its `pre_warm`,
-- which says whether it returned, the queries of the trace store, and the passing of time.
pub record Fleet (W : Type 0) : Type 0 where
  pub clock : W → ℕ
  pub registry : W → NodeRegistry
  pub is_non_generatable : W → Text → Bool
  pub pre_warm : Text → Text → Option ℕ → W → Bool × W
  pub model_priority_scores : W → List Priority
  pub recently_used_models : W → List Text
  pub sleep : ℕ → W → W

-- The last 200 failures are kept.
unfoldable pub record_pin_fit_failure : PinFitFailure → Preloader → Preloader
record_pin_fit_failure e p =
    let es = p.pin_fit_failures ++ e ∷ [] in
    record p { pin_fit_failures = if ltb 200 (length es) then drop 1 es else es }

-- `get_pin_fit_failures(hours)`; a cutoff before the clock's start takes all.
unfoldable pub get_pin_fit_failures : ℕ → ℕ → Preloader → List PinFitFailure
get_pin_fit_failures now hours p =
    filter (λ e. leb now (e.timestamp + hours * 3600000)) p.pin_fit_failures

unfoldable pub get_model_priority : Text → List Priority → ℕ
get_model_priority model [] = 0
get_model_priority model (e ∷ es) =
    if text_eq e.model model then e.priority_score else get_model_priority model es

abbrev pub is_nil {ℓ} : {A : Type ℓ} → List A → Bool
is_nil [] = true
is_nil (x ∷ xs) = false

unfoldable pub model_is_loaded_anywhere : Text → List NodeState → Bool
model_is_loaded_anywhere model nodes = any (model_resident_on_node model) nodes

abbrev pub has_on_disk : Text → NodeState → Bool
has_on_disk model n = elim n.ollama [ none ↦ false | some o ↦ mem model o.models_available ]

unfoldable pub nodes_with_model_on_disk : Text → List NodeState → List NodeState
nodes_with_model_on_disk model nodes = filter (has_on_disk model) nodes

unfoldable pub find_node : Text → List NodeState → Option NodeState
find_node node_id [] = none
find_node node_id (n ∷ ns) = if text_eq n.node_id node_id then some n else find_node node_id ns

-- `max(nodes, key=available)`: the first of those with the most memory.
unfoldable pub most_free : NodeState → List NodeState → NodeState
most_free best [] = best
most_free best (n ∷ ns) =
    let better = most_free n ns in
    let same = most_free best ns in
    if ltb (free_gb best.memory) (free_gb n.memory) then better else same

abbrev pub targeted : Option Text → List NodeState → Option NodeState
targeted none ns = none
targeted (some node_id) ns = if is_empty node_id then none else find_node node_id ns

-- The node to load on, among those with the model on disk.
unfoldable pub best_node : Option Text → List NodeState → Option NodeState
best_node target [] = none
best_node target (n ∷ ns) = elim (targeted target (n ∷ ns)) [
  | some t ↦ some t
  | none ↦ some (most_free n ns)
]

-- What the model is expected to cost on the node, and what has been learned by asking.
abbrev pub resident_gb :
    List ModelSpec → Text → NodeState → Option PreloaderSettings → Preloader → ℕ × Learned
resident_gb catalog model best settings p =
    estimate_resident_gb catalog model best (expected_num_ctx model settings p.learned) none
      p.learned

-- The gate: a model that is resident is never too big.
unfoldable pub is_too_big : Text → NodeState → ℕ → Bool
is_too_big model best cost =
    not (model_resident_on_node model best) && ltb (free_gb best.memory) cost

abbrev pub failure_of : ℕ → Text → NodeState → ℕ → PinFitFailure
failure_of now model best cost = record {
  timestamp = now;
  model = model;
  node_id = best.node_id;
  needed_gb = cost;
  available_gb = free_gb best.memory;
}

-- Of the loads that do not fit, those of pinned models are recorded.
unfoldable pub refuse : Text → PinFitFailure → Preloader → Preloader
refuse why e p = if has_sub (text "pinned") why then record_pin_fit_failure e p else p

abbrev pub residency_poll_interval : ℕ
residency_poll_interval = 1000

module _ {W : Type 0} (fleet : Fleet W) where
  unfoldable pub get_cached_priorities : Preloader → W → List Priority × Preloader
  get_cached_priorities p w =
      let now = fleet.clock w in
      let scores = fleet.model_priority_scores w in
      if ltb (now - p.priority_cache_time) 300000 && not (is_nil p.priority_cache)
      then (p.priority_cache, p)
      else (scores, record p { priority_cache = scores; priority_cache_time = now })

  -- The gate, and the load on the node that was chosen.
  unfoldable pub load_on :
      List ModelSpec
      → Text
      → NodeState
      → Text
      → Option PreloaderSettings
      → Preloader
      → W
      → Bool × Preloader × W
  load_on catalog model best why settings p w =
      let sized = resident_gb catalog model best settings p in
      let p' : Preloader = record p { learned = sized.1 } in
      let warmed = fleet.pre_warm best.node_id model (num_ctx_override model settings) w in
      if is_too_big model best sized.0
      then (false, refuse why (failure_of (fleet.clock w) model best sized.0) p', w)
      else (warmed.0, p', warmed.1)

  unfoldable pub load_model_on_best_node :
      List ModelSpec
      → Text
      → List NodeState
      → Text
      → Option Text
      → Option PreloaderSettings
      → Preloader
      → W
      → Bool × Preloader × W
  load_model_on_best_node catalog model nodes why target settings p w =
      if fleet.is_non_generatable w model
      then (false, p, w)
      else elim (best_node target (nodes_with_model_on_disk model nodes)) [
        | none ↦ (false, p, w)
        | some best ↦ load_on catalog model best why settings p w
      ]

  -- One look at the registry: any node that is online, or the node that is named.
  unfoldable pub is_resident : Option Text → Text → W → Bool
  is_resident none model w = model_is_loaded_anywhere model (get_online_nodes (fleet.registry w))
  is_resident (some node_id) model w = elim (get_node node_id (fleet.registry w)) [
    | none ↦ false
    | some n ↦ model_resident_on_node model n
  ]

  -- The loop of `_wait_until_resident`: whether the model is resident, the milliseconds since
  -- `start`, and the fleet; nothing where the fuel runs out.
  unfoldable pub poll : ℕ → Option Text → Text → ℕ → ℕ → W → Option (Bool × ℕ × W)
  poll zero node_id model start deadline w = none
  poll (suc fuel) node_id model start deadline w =
      let later = poll fuel node_id model start deadline (fleet.sleep residency_poll_interval w) in
      let elapsed = fleet.clock w - start in
      if is_resident node_id model w
      then some (true, elapsed, w)
      else if leb deadline (fleet.clock w)
      then some (false, elapsed, w)
      else later

  unfoldable pub wait_until_resident : Option Text → Text → ℕ → W → Option (Bool × ℕ × W)
  wait_until_resident node_id model timeout_ms w =
      let start = fleet.clock w in poll (suc timeout_ms) node_id model start (start + timeout_ms) w
