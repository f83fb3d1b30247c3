-- ===== src/Tests/Ranking.antt =====
-- A ranking by floats among which there is NaN.
use ollama_herd.Common.{
  ℕ, ◌+◌, ◌-◌, ◌*◌, ◌/◌, ◌==◌, ◌≡◌, refl, Bool, true, false, ltb, Option, none, some, arith,
  if◌then◌else◌, text_eq,
}
use ollama_herd.Dict
use ollama_herd.Scorer.{eliminate, survives, is_barred}
use ollama_herd.Scorer.Floats.{Float, FloatLaws}
use ollama_herd.Scorer.Load.{score_queue_depth, score_wait_time, score_role_affinity}
use ollama_herd.Scorer.Order.{IsRanked, score_request-IsRanked}
use ollama_herd.Scorer.Ranking.{score_request, score_node, score_nodes}
use ollama_herd.Scorer.Signals.{
  ScoreSettings, ScoreInputs, score_thermal, score_memory_fit, score_availability_trend,
  score_context_fit, pin_bonus,
}
use ollama_herd.Affinity.{preferred_node}
use ollama_herd.Tests.Samples.{fleet}
use ollama_herd.Tests.Routing.{question, sessions, cost}

program : Unit {0}
unfolding score_thermal score_memory_fit score_queue_depth score_wait_time score_role_affinity
    score_availability_trend score_context_fit pin_bonus score_node score_nodes eliminate text_eq
    Dict.get Dict.pop preferred_node survives is_barred
program = tt

-- An operation on numbers of thousandths, with NaN where a side is NaN.
abbrev lift : (ℕ → ℕ → Option ℕ) → Option ℕ → Option ℕ → Option ℕ
lift op none y = none
lift op (some x) none = none
lift op (some x) (some y) = op x y

-- NaN is below nothing and above nothing.
abbrev below : Option ℕ → Option ℕ → Bool
below none y = false
below (some x) none = false
below (some x) (some y) = ltb x y

abbrev with_nan : Float
with_nan = record {
  Value = Option ℕ;
  ratio = λ n d. if d == 0 then none else some (1000 * n / d);
  neg = λ x. elim x [ none ↦ none | some n ↦ some 0 ];
  add = lift (λ x y. some (x + y));
  sub = lift (λ x y. some (x - y));
  mul = lift (λ x y. some (x * y / 1000));
  div = lift (λ x y. if y == 0 then none else some (1000 * x / y));
  ltb = below;
}

abbrev nan : Option ℕ → Bool
nan none = true
nan (some n) = false

asymmetric_below : (x y : Option ℕ) → below x y ≡ true → below y x ≡ false
asymmetric_below none y h = cc
asymmetric_below (some x) none h = cc
asymmetric_below (some x) (some y) h = ground arith

transitive_below :
    (x y z : Option ℕ) → nan y ≡ false → below x y ≡ false → below y z ≡ false → below x z ≡ false
transitive_below none y z n h k = refl
transitive_below (some x) none z n h k = cc
transitive_below (some x) (some y) none n h k = refl
transitive_below (some x) (some y) (some z) n h k = ground arith

abbrev laws : FloatLaws with_nan
laws = record {
  is_nan = nan;
  asymmetric = asymmetric_below;
  negatively_transitive = transitive_below;
}

abbrev weights : ScoreSettings with_nan
weights = record {
  score_model_hot = some 50000;
  score_model_warm = some 30000;
  score_model_cold = some 10000;
  score_memory_fit_max = some 20000;
  score_queue_depth_max_penalty = some 30000;
  score_queue_depth_penalty_per = some 6000;
  score_wait_time_max_penalty = some 25000;
  score_role_large_threshold_gb = 20000;
  score_role_small_threshold_gb = 8000;
  score_availability_trend_max = some 10000;
  score_context_fit_max = some 15000;
  queue_penalty_bandwidth_normalize = true;
  bandwidth_aware_scoring = true;
}

abbrev inputs : ScoreInputs with_nan
inputs = record { fit_cost = cost; model_size = λ model n. 5000; latency_store = none }

score_request-IsRanked_example :
    IsRanked with_nan (score_request with_nan weights inputs fleet 60 question (some sessions)).1
unfolding program
score_request-IsRanked_example =
    score_request-IsRanked with_nan laws weights inputs fleet 60 question (some sessions)
      (refl, (refl, tt))
