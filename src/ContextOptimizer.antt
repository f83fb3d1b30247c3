-- ===== src/ContextOptimizer.antt =====
-- The choice of context lengths (src/fleet_manager/server/context_optimizer.py).
pub mod Recommend
pub mod Operator
use ollama_herd.Common.{
  ℕ, zero, suc, ◌+◌, ◌-◌, ◌*◌, ◌/◌, Bool, true, false, not, ◌&&◌, ◌||◌, none, some, List, [], ◌∷◌,
  ◌++◌, map, Text, text_eq, mem, if◌then◌else◌, ltb, leb, ◌==◌, filter, max,
}
use ollama_herd.Dict.{Dict}
use ollama_herd.Dict
use ollama_herd.Models.Metrics.{LoadedModel}
use ollama_herd.Models.Node.{NodeState, loaded_names}
use ollama_herd.Serializers.{ollama_of, models_loaded_of}

abbrev pub restart_cooldown_s : ℕ
restart_cooldown_s = 1800

-- The first of `p`, `2 * p`, `4 * p`, ... that is at least `n`, within `fuel` doublings.
unfoldable pub double_until : ℕ → ℕ → ℕ → ℕ
double_until zero p n = p
double_until (suc fuel) p n = let more = double_until fuel (2 * p) n in if leb n p then p else more

-- `2 ** math.ceil(math.log2(n))`: from 1, `n` doublings are enough.
unfoldable pub next_power_of_2 : ℕ → ℕ
next_power_of_2 zero = 2048
next_power_of_2 (suc n) = double_until (suc n) 1 (suc n)

unfoldable pub compute_recommended_ctx : ℕ → ℕ → ℕ → ℕ
compute_recommended_ctx total_p99 max_total_24h min_ctx =
    let baseline = max total_p99 max_total_24h in
    let recommended = max min_ctx (next_power_of_2 (baseline * 3 / 2)) in
    if total_p99 == 0 && max_total_24h == 0 then min_ctx else recommended

-- A row of `get_prompt_token_stats`.
pub record TokenStats : Type 0 where
  pub model : Text
  pub total_p99 : ℕ
  pub max_total_24h : ℕ
  pub request_count : ℕ

-- A restart, with `OLLAMA_NUM_CTX` in its environment.
pub record RestartCommand : Type 0 where
  pub ollama_num_ctx : ℕ

-- The state of the optimizer, with the overrides of the settings, which it writes.
pub record ContextOptimizer : Type 0 where
  pub num_ctx_overrides : Dict ℕ
  pub auto_set : List Text
  pub last_restart : Dict ℕ
  pub pending_commands : Dict (List RestartCommand)

-- `get_pending_commands`
unfoldable pub get_pending_commands :
    Text → ContextOptimizer → List RestartCommand × ContextOptimizer
get_pending_commands node_id c = (
  Dict.get_or node_id [] c.pending_commands,
  record c { pending_commands = Dict.pop node_id c.pending_commands },
)

abbrev pub set_override : Text → ℕ → ContextOptimizer → ContextOptimizer
set_override model recommended c = record c {
  num_ctx_overrides = Dict.set model recommended c.num_ctx_overrides;
  auto_set = model ∷ c.auto_set;
}

-- The settings route of the dashboard: the overrides are replaced by those that are positive, and
-- `_auto_set` is left as it is.
unfoldable pub edit_overrides : Dict ℕ → ContextOptimizer → ContextOptimizer
edit_overrides overrides c = record c { num_ctx_overrides = filter (λ e. ltb 0 e.1) overrides }

-- `_auto_initialize_overrides`
unfoldable pub auto_initialize_overrides : List TokenStats → ContextOptimizer → ContextOptimizer
auto_initialize_overrides [] c = c
auto_initialize_overrides (s ∷ ss) c =
    let skipped = auto_initialize_overrides ss c in
    let recommended = compute_recommended_ctx s.total_p99 s.max_total_24h 4096 in
    let added = auto_initialize_overrides ss (set_override s.model recommended c) in
    if s.total_p99 == 0 || ltb s.request_count 50 || Dict.contains s.model c.num_ctx_overrides
    then skipped
    else added

-- `allocated_ctx.get(model, 0)`: the largest context of a runner of the name.
unfoldable pub allocated : Text → List LoadedModel → ℕ
allocated model [] = 0
allocated model (m ∷ ms) =
    let rest = allocated model ms in
    if text_eq m.name model then max m.context_length rest else rest

unfoldable pub allocated_ctx : Text → List NodeState → ℕ
allocated_ctx model [] = 0
allocated_ctx model (n ∷ ns) =
    max (allocated model (models_loaded_of (ollama_of (some n)))) (allocated_ctx model ns)

abbrev pub has_loaded : Text → NodeState → Bool
has_loaded model n = elim n.ollama [ none ↦ false | some o ↦ mem model (loaded_names o) ]

-- `model_nodes.get(model, [])`
unfoldable pub model_nodes : Text → List NodeState → List Text
model_nodes model ns = map (λ n. n.node_id) (filter (has_loaded model) ns)

-- Whether an operator set the override: it is there, not zero, and not one of ours.
unfoldable pub is_operators : Text → ContextOptimizer → Bool
is_operators model c = ltb 0 (Dict.get_or model 0 c.num_ctx_overrides) && not (mem model c.auto_set)

-- Whether the context of a model is reduced.
unfoldable pub is_reduced : List NodeState → TokenStats → ContextOptimizer → Bool
is_reduced nodes s c =
    let alloc = allocated_ctx s.model nodes in
    let recommended = compute_recommended_ctx s.total_p99 s.max_total_24h 4096 in
    let current = Dict.get_or s.model 0 c.num_ctx_overrides in
    not (alloc == 0 || s.total_p99 == 0 || ltb s.request_count 20)
    && not (is_operators s.model c)
    && ltb (recommended * 4) alloc
    && (current == 0 || ltb (recommended * 2) current)

-- The loop over the rows. The overrides are written after it, and each model has one row, so that
-- they can be written here.
unfoldable pub optimize :
    List NodeState → List TokenStats → ContextOptimizer → ContextOptimizer × List Text
optimize nodes [] c = (c, [])
optimize nodes (s ∷ ss) c =
    let recommended = compute_recommended_ctx s.total_p99 s.max_total_24h 4096 in
    let skipped = optimize nodes ss c in
    let changed = optimize nodes ss (set_override s.model recommended c) in
    if is_reduced nodes s c then (changed.0, model_nodes s.model nodes ++ changed.1) else skipped

-- The overrides of the models that a node has loaded.
unfoldable pub node_overrides : Text → List NodeState → Dict ℕ → List ℕ
node_overrides node_id nodes [] = []
node_overrides node_id nodes ((model, ctx) ∷ d) =
    let rest = node_overrides node_id nodes d in
    let here = filter (λ n. text_eq n.node_id node_id && has_loaded model n) nodes in
    elim here [ [] ↦ rest | n ∷ ns ↦ ctx ∷ rest ]

-- What becomes of a restart: nothing to do, a command, or a TypeError, since from the second model
-- on `max` is asked of a text and a number.
pub data Restart : Type 0 where
  idle : Restart
  command : RestartCommand → Restart
  type_error : Restart

unfoldable pub restart_for : List ℕ → Restart
restart_for [] = idle
restart_for (ctx ∷ []) = command (record { ollama_num_ctx = ctx })
restart_for (ctx ∷ (d ∷ ds)) = type_error

abbrev pub queue_restart : ℕ → Text → RestartCommand → ContextOptimizer → ContextOptimizer
queue_restart now node_id r c = record c {
  pending_commands =
      Dict.set node_id (Dict.get_or node_id [] c.pending_commands ++ r ∷ []) c.pending_commands;
  last_restart = Dict.set node_id now c.last_restart;
}

abbrev pub is_cooling : ℕ → Text → ContextOptimizer → Bool
is_cooling now node_id c = ltb (now - Dict.get_or node_id 0 c.last_restart) restart_cooldown_s

-- The restarts of the nodes, in some order; whether an error ended the loop.
unfoldable pub queue_restarts :
    ℕ → List NodeState → List Text → ContextOptimizer → ContextOptimizer × Bool
queue_restarts now nodes [] c = (c, false)
queue_restarts now nodes (n ∷ ns) c =
    if is_cooling now n c
    then queue_restarts now nodes ns c
    else elim (restart_for (node_overrides n nodes c.num_ctx_overrides)) [
      | idle ↦ queue_restarts now nodes ns c
      | command r ↦ queue_restarts now nodes ns (queue_restart now n r c)
      | type_error ↦ (c, true)
    ]

-- A set of names, each once.
unfoldable pub each_once : List Text → List Text
each_once [] = []
each_once (t ∷ ts) = let rest = each_once ts in if mem t rest then rest else t ∷ rest

-- `_check_and_optimize`, where the setting asks for it; whether it raised.
unfoldable pub check_and_optimize :
    ℕ → Bool → List NodeState → List TokenStats → ContextOptimizer → ContextOptimizer × Bool
check_and_optimize now auto_calculate nodes stats c =
    let optimized = optimize nodes stats c in
    if auto_calculate
    then queue_restarts now nodes (each_once optimized.1) optimized.0
    else (c, false)
