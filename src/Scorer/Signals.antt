-- ===== src/Scorer/Signals.antt =====
-- The scoring signals (src/fleet_manager/server/scorer.py). Sizes are thousandths of a GB, as
-- everywhere, and are made floats where the source divides.
use ollama_herd.Common.{
  ℕ, zero, suc, ◌-◌, Bool, false, not, ◌&&◌, Option, none, some, List, [], ◌∷◌, Text, text_eq, mem,
  is_empty, if◌then◌else◌, ltb, ◌==◌,
}
use ollama_herd.Dict.{Dict}
use ollama_herd.Dict
use ollama_herd.Models.Metrics.{LoadedModel}
use ollama_herd.Models.Node.{NodeState, loaded_names}
use ollama_herd.Affinity.{SessionAffinityTracker, preferred_node}
use ollama_herd.Scorer.{under_ceiling}
use ollama_herd.Scorer.Floats.{Float}

-- The settings of the signals.
pub record ScoreSettings (f : Float) : Type 0 where
  pub score_model_hot : f.Value
  pub score_model_warm : f.Value
  pub score_model_cold : f.Value
  pub score_memory_fit_max : f.Value
  pub score_queue_depth_max_penalty : f.Value
  pub score_queue_depth_penalty_per : f.Value
  pub score_wait_time_max_penalty : f.Value
  pub score_role_large_threshold_gb : ℕ
  pub score_role_small_threshold_gb : ℕ
  pub score_availability_trend_max : f.Value
  pub score_context_fit_max : f.Value
  pub queue_penalty_bandwidth_normalize : Bool
  pub bandwidth_aware_scoring : Bool

-- What the scorer asks of other parts: the cost of loading a model, its size, and the latency store
-- where there is one.
pub record ScoreInputs (f : Float) : Type 0 where
  pub fit_cost : Text → NodeState → ℕ
  pub model_size : Text → NodeState → ℕ
  pub latency_store : Option (Text → Text → Option f.Value)

abbrev pub warm_window : ℕ
warm_window = 1800

module _ (f : Float) where
  open f use {Value, ratio, neg, add, sub, mul, div}

  abbrev pub nat : ℕ → Value
  nat n = ratio n 1

  abbrev pub lt : Value → Value → Bool
  lt = f.ltb

  -- `min(a, b)` and `max(a, b)`, which give the first of equals.
  abbrev pub min_of : Value → Value → Value
  min_of a b = if lt b a then b else a

  abbrev pub max_of : Value → Value → Value
  max_of a b = if lt a b then b else a

  abbrev pub hot_on : Text → NodeState → Bool
  hot_on model n = elim n.ollama [ none ↦ false | some o ↦ mem model (loaded_names o) ]

  abbrev pub on_disk : Text → NodeState → Bool
  on_disk model n = elim n.ollama [ none ↦ false | some o ↦ mem model o.models_available ]

  -- `unloaded_at and (time.time() - unloaded_at) < WARM_WINDOW_SECONDS`
  abbrev pub is_warm : ℕ → Option ℕ → Bool
  is_warm now none = false
  is_warm now (some zero) = false
  is_warm now (some (suc t)) = ltb (now - suc t) warm_window

  unfoldable pub score_thermal : ScoreSettings f → ℕ → NodeState → Text → Value
  score_thermal s now n model =
      if hot_on model n
      then s.score_model_hot
      else if is_warm now (Dict.get model n.model_unloaded_at)
      then s.score_model_warm
      else if on_disk model n
      then s.score_model_cold
      else nat 0

  abbrev pub fit_tier : Value → Value
  fit_tier fit_ratio =
      if lt (nat 2) fit_ratio
      then nat 20
      else if lt (ratio 3 2) fit_ratio
      then nat 15
      else if lt (ratio 6 5) fit_ratio
      then nat 8
      else if not (lt fit_ratio (nat 1))
      then nat 3
      else nat 0

  unfoldable pub score_memory_fit : ScoreSettings f → ScoreInputs f → NodeState → Text → Value
  score_memory_fit s i n model =
      let cost = i.fit_cost model n in
      if hot_on model n
      then s.score_memory_fit_max
      else if cost == 0
      then nat 0
      else elim n.memory [
        | none ↦ nat 0
        | some m ↦
            fit_tier (div (ratio (under_ceiling n.capacity m.available_gb) 1000) (ratio cost 1000))
      ]

  unfoldable pub score_availability_trend : ScoreSettings f → NodeState → Value
  score_availability_trend s n = elim n.capacity [
    | none ↦ nat 0
    | some c ↦
        min_of s.score_availability_trend_max
          (mul (ratio c.availability_score 1000) s.score_availability_trend_max)
  ]

  -- The context of the first runner of the name that has one, or 0.
  abbrev pub first_context : Text → List LoadedModel → ℕ
  first_context model [] = 0
  first_context model (m ∷ ms) =
      if text_eq m.name model && ltb 0 m.context_length
      then m.context_length
      else first_context model ms

  abbrev pub context_tier : Value → Value → Value
  context_tier max_score headroom =
      if lt headroom (nat 1)
      then neg max_score
      else if lt headroom (ratio 3 2)
      then mul max_score (ratio 1 5)
      else if lt headroom (nat 3)
      then mul max_score (ratio 1 2)
      else if lt headroom (nat 8)
      then mul max_score (ratio 4 5)
      else max_score

  abbrev pub context_of : Text → NodeState → ℕ
  context_of model n = elim n.ollama [ none ↦ 0 | some o ↦ first_context model o.models_loaded ]

  unfoldable pub score_context_fit : ScoreSettings f → NodeState → Text → ℕ → Value
  score_context_fit s n model estimated_tokens =
      if estimated_tokens == 0
      then nat 0
      else if context_of model n == 0
      then nat 0
      else context_tier s.score_context_fit_max
          (div (nat (context_of model n)) (nat estimated_tokens))

  -- `_pin_bonus`: the tracker may forget a pin that has expired.
  unfoldable pub pin_bonus :
      Option SessionAffinityTracker
      → ℕ
      → NodeState
      → Text
      → Value
      → ℕ
      → Option SessionAffinityTracker × Value
  pin_bonus none now n key bonus depth = (none, nat 0)
  pin_bonus (some t) now n key bonus depth =
      if is_empty key
      then (some t, nat 0)
      else (let (t', preferred) = preferred_node key now t in
          (
            some t',
            elim preferred [
              | none ↦ nat 0
              | some node_id ↦
                  if text_eq node_id n.node_id
                  then mul bonus (div (nat 1) (add (nat 1) (div (nat depth) (nat 2))))
                  else nat 0
            ],
          ))
