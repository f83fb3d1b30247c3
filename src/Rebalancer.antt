-- ===== src/Rebalancer.antt =====
-- The rebalancer's moves (`_check_rebalance` of src/fleet_manager/server/rebalancer.py). The score of
-- a request has no session here, so that the sessions stay as they are.
pub mod Targets
use ollama_herd.Common.{
  ℕ, ◌/◌, Bool, true, false, not, ◌||◌, Option, none, some, List, [], ◌∷◌, Text, text_eq, mem,
  if◌then◌else◌, ltb, leb, ◌==◌, length, min,
}
use ollama_herd.Dict.{Dict}
use ollama_herd.Dict
use ollama_herd.Models.Node.{NodeState, loaded_names}
use ollama_herd.Models.Settings.{ServerSettings}
use ollama_herd.Registry.{NodeRegistry, get_node}
use ollama_herd.Affinity.{SessionAffinityTracker}
use ollama_herd.Queue.State.{DeviceModelQueue}
use ollama_herd.Queue.Manager.{QueueManager, get_queue_depths, move_pending}
use ollama_herd.Scorer.Floats.{Float}
use ollama_herd.Scorer.Signals.{ScoreSettings, ScoreInputs}
use ollama_herd.Scorer.Ranking.{RoutingResult, ScoreRequest, score_request}

-- `target_node and target_node.ollama` with the model loaded.
abbrev pub is_hot_at : Text → Option NodeState → Bool
is_hot_at model none = false
is_hot_at model (some n) = elim n.ollama [ none ↦ false | some o ↦ mem model (loaded_names o) ]

abbrev pub move_count : ServerSettings → ℕ → ℕ
move_count s pending = min (pending / 2) s.rebalance_max_per_cycle

module _ (f : Float) where
  -- The inner loop up to its `break`: where the requests of a queue go, and how many.
  unfoldable pub pick_target :
      ServerSettings
      → NodeRegistry
      → Text
      → Text
      → ℕ
      → Dict ℕ
      → List (RoutingResult f)
      → Option (Text × ℕ)
  pick_target s r model source_node pending depths [] = none
  pick_target s r model source_node pending depths (result ∷ results) =
      let later = pick_target s r model source_node pending depths results in
      if text_eq result.node_id source_node
      then later
      else if leb s.rebalance_threshold (Dict.get_or result.queue_key 0 depths)
      then later
      else if not (is_hot_at model (get_node result.node_id r))
      then later
      else if move_count s pending == 0
      then later
      else some (result.queue_key, move_count s pending)

  abbrev pub plain_request : Text → Dict ℕ → ScoreRequest
  plain_request model depths = record {
    model = model;
    queue_depths = depths;
    estimated_tokens = 0;
    session_key = [];
    prefix_key = [];
  }

  abbrev pub carry_out : NodeRegistry → Text → Option (Text × ℕ) → QueueManager → QueueManager
  carry_out r key none m = m
  carry_out r key (some (target, count)) m = (move_pending (some r) key target count m).0

  -- A round of the outer loop, for a queue as it was when the loop began.
  unfoldable pub rebalance_queue :
      ServerSettings
      → ScoreSettings f
      → ScoreInputs f
      → NodeRegistry
      → Option SessionAffinityTracker
      → ℕ
      → Text
      → DeviceModelQueue
      → QueueManager
      → QueueManager
  rebalance_queue s w i r sessions now key q m =
      let pending = length q.pending in
      let depths = get_queue_depths m in
      let results = (score_request f w i r now (plain_request q.model depths) sessions).1 in
      let target = pick_target s r q.model q.node_id pending depths results in
      if ltb pending s.rebalance_threshold then m else carry_out r key target m

  unfoldable pub rebalance_queues :
      ServerSettings
      → ScoreSettings f
      → ScoreInputs f
      → NodeRegistry
      → Option SessionAffinityTracker
      → ℕ
      → Dict DeviceModelQueue
      → QueueManager
      → QueueManager
  rebalance_queues s w i r sessions now [] m = m
  rebalance_queues s w i r sessions now ((key, q) ∷ qs) m =
      rebalance_queues s w i r sessions now qs (rebalance_queue s w i r sessions now key q m)

  unfoldable pub check_rebalance :
      ServerSettings
      → ScoreSettings f
      → ScoreInputs f
      → NodeRegistry
      → Option SessionAffinityTracker
      → ℕ
      → QueueManager
      → QueueManager
  check_rebalance s w i r sessions now m = rebalance_queues s w i r sessions now m.queues m
