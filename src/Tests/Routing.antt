-- ===== src/Tests/Routing.antt =====
-- The theorems on requests, sessions and elimination at concrete inputs.
use mathlib.Core.List.{Permᴰ}
use ollama_herd.Common.{
  any, ◌++◌, List, false, none, ◌+◌, ◌*◌, ◌/◌, ◌==◌, ltb, if◌then◌else◌, map, All, ℕ, ◌-◌, ◌≡◌, ◌≤◌,
  ◌<◌, ◌⊎◌, refl, arith, true, some, [], ◌∷◌, Text, text, text_eq, length,
}
use ollama_herd.Dict
use ollama_herd.Dict.Unique.{Unique}
use ollama_herd.Models.Metrics.{MemoryPressure}
use ollama_herd.Models.Node.{NodeState}
use ollama_herd.Registry.{get_node}
use ollama_herd.Affinity.{
  SessionAffinityTracker, remember, preferred_node, session_key_for, session_tag, is_assistant,
  evict, drop_expired, drop_oldest, pop_all, sort_seen, insert_seen,
}
use ollama_herd.Affinity.Eviction.{length-remember-le}
use ollama_herd.Affinity.Order.{remember_evicts}
use ollama_herd.Affinity.Memory.{preferred_node-remember}
use ollama_herd.Scorer.{eliminate, survives, is_barred}
use ollama_herd.Queue.Manager.{queue_key}
use ollama_herd.Rebalancer.{pick_target}
use ollama_herd.Rebalancer.Targets.{is_target, pick_target_lem}
use ollama_herd.Scorer.Floats.{Float}
use ollama_herd.Scorer.Signals.{
  ScoreSettings, ScoreInputs, score_thermal, score_memory_fit, score_availability_trend,
  score_context_fit, pin_bonus,
}
use ollama_herd.Scorer.Load.{score_queue_depth, score_wait_time, score_role_affinity}
use ollama_herd.Scorer.Ranking.{
  RoutingResult, ScoreRequest, score_request, score_node, score_nodes, insert_result, sort_results,
}
use ollama_herd.Scorer.Order.{HasKey, score_request-eliminate}
use ollama_herd.Tests.Samples.{settings, llama, mini, studio, memory, mini_node, fleet}

program : Unit {0}
unfolding pick_target get_node score_thermal score_memory_fit score_queue_depth score_wait_time
    score_role_affinity score_availability_trend score_context_fit pin_bonus score_node score_nodes
    insert_result sort_results score_request eliminate text_eq Dict.get Dict.set Dict.pop remember
    preferred_node session_key_for session_tag is_assistant survives is_barred evict drop_expired
    drop_oldest pop_all sort_seen insert_seen
program = tt

-- A full table of two sessions, the second of which is older.
abbrev pub sessions : SessionAffinityTracker
sessions = record {
  ttl_s = 900;
  max_sessions = 2;
  seen = (text "s1", (mini, 50)) ∷ (text "s2", (studio, 40)) ∷ [];
}

length-remember-le_example :
    (length (remember (text "s3") mini 60 sessions).seen ≤ 2)
    × Unique (remember (text "s3") mini 60 sessions).seen
unfolding program
length-remember-le_example =
    length-remember-le (text "s3") mini 60 sessions (refl, (refl, tt)) (omega arith)

remember_evicts_example : (60 - 50 ≤ 900) × ((900 < 60 - 40) ⊎ (40 ≤ 50))
unfolding program
remember_evicts_example =
    remember_evicts (text "s3") mini 60 sessions (text "s2") (text "s1") (studio, 40) (mini, 50)
      (refl, (refl, tt)) refl refl (omega arith) refl refl refl

-- The older session goes.
oldest_goes :
    (remember (text "s3") mini 60 sessions).seen
    ≡ (text "s1", (mini, 50)) ∷ (text "s3", (mini, 60)) ∷ []
unfolding program
oldest_goes = refl

preferred_node-remember_example :
    (preferred_node (text "s3") 60 (remember (text "s3") mini 60 sessions)).1 ≡ some mini
preferred_node-remember_example =
    preferred_node-remember (text "s3") mini 60 sessions refl refl (omega arith) (omega arith)
      (omega arith, (omega arith, tt))

-- Loading any model costs 20 GB.
abbrev pub cost : Text → NodeState → ℕ
cost model n = 20000

-- `mini` with no memory left.
abbrev tight : NodeState
tight = record mini_node {
  memory = some (record memory { available_gb = 0; pressure = MemoryPressure.critical });
}

-- Floats as natural numbers of thousandths, for scores that stay above zero.
abbrev pub thousandths : Float
thousandths = record {
  Value = ℕ;
  ratio = λ n d. if d == 0 then 0 else 1000 * n / d;
  neg = λ x. 0;
  add = λ x y. x + y;
  sub = λ x y. x - y;
  mul = λ x y. x * y / 1000;
  div = λ x y. if y == 0 then 0 else 1000 * x / y;
  ltb = ltb;
}

abbrev weights : ScoreSettings thousandths
weights = record {
  score_model_hot = 50000;
  score_model_warm = 30000;
  score_model_cold = 10000;
  score_memory_fit_max = 20000;
  score_queue_depth_max_penalty = 30000;
  score_queue_depth_penalty_per = 6000;
  score_wait_time_max_penalty = 25000;
  score_role_large_threshold_gb = 20000;
  score_role_small_threshold_gb = 8000;
  score_availability_trend_max = 10000;
  score_context_fit_max = 15000;
  queue_penalty_bandwidth_normalize = true;
  bandwidth_aware_scoring = true;
}

abbrev inputs : ScoreInputs thousandths
inputs = record { fit_cost = cost; model_size = λ model n. 5000; latency_store = none }

-- The session of the request was served by `mini`.
abbrev pub question : ScoreRequest
question = record {
  model = llama;
  queue_depths = [];
  estimated_tokens = 1000;
  session_key = text "s1";
  prefix_key = [];
}

score_request-eliminate_example :
    Permᴰ
      (map
        (λ x. x.node_id)
        (score_request thousandths weights inputs fleet 60 question (some sessions)).1)
      (map (λ n. n.node_id) (eliminate cost llama fleet))
    × All
        (HasKey thousandths llama)
        (score_request thousandths weights inputs fleet 60 question (some sessions)).1
score_request-eliminate_example =
    score_request-eliminate thousandths weights inputs fleet 60 question (some sessions)

-- The conversation stays on its node.
winner :
    map
      (λ x. x.node_id)
      (score_request thousandths weights inputs fleet 60 question (some sessions)).1
    ≡ mini ∷ studio ∷ []
unfolding program
winner = refl

-- Eight requests wait on `studio`, and `mini` has the model in memory.
abbrev ranking : List (RoutingResult thousandths)
ranking =
    record {
      node_id = mini;
      queue_key = queue_key mini llama;
      score = 90000;
      scores_breakdown = [];
    }
    ∷ []

pick_target_lem_example :
    ((before after : List (RoutingResult thousandths)) × (x : RoutingResult thousandths) × (ranking
        ≡ before ++ x ∷ after)
      × (x.queue_key ≡ queue_key mini llama)
      × (is_target thousandths settings fleet llama studio [] x ≡ true)
      × (any (is_target thousandths settings fleet llama studio []) before ≡ false))
    × (1 ≤ 3)
    × (2 * 3 ≤ 8)
    × (3 ≤ 3)
unfolding program
pick_target_lem_example =
    pick_target_lem thousandths settings fleet llama studio 8 [] ranking (queue_key mini llama) 3
      refl
