-- ===== src/Scorer/Ranking.antt =====
-- The ranking (`score_request` of src/fleet_manager/server/scorer.py).
use ollama_herd.Common.{ℕ, Bool, ◌||◌, Option, List, [], ◌∷◌, Text, text, if◌then◌else◌}
use ollama_herd.Dict.{Dict}
use ollama_herd.Dict
use ollama_herd.Models.Node.{NodeState}
use ollama_herd.Registry.{NodeRegistry}
use ollama_herd.Affinity.{SessionAffinityTracker}
use ollama_herd.Queue.Manager.{queue_key}
use ollama_herd.Scorer.{eliminate}
use ollama_herd.Scorer.Floats.{Float}
use ollama_herd.Scorer.Signals.{
  ScoreSettings, ScoreInputs, nat, lt, score_thermal, score_memory_fit, score_availability_trend,
  score_context_fit, pin_bonus,
}
use ollama_herd.Scorer.Load.{score_queue_depth, score_wait_time, score_role_affinity}

pub record RoutingResult (f : Float) : Type 0 where
  pub node_id : Text
  pub queue_key : Text
  pub score : f.Value
  pub scores_breakdown : Dict f.Value

-- The arguments of `score_request`, apart from the registry and the sessions.
pub record ScoreRequest : Type 0 where
  pub model : Text
  pub queue_depths : Dict ℕ
  pub estimated_tokens : ℕ
  pub session_key : Text
  pub prefix_key : Text

module _ (f : Float) where
  open f use {Value, add}

  -- `bool(x)`
  abbrev pub is_nonzero : Value → Bool
  is_nonzero x = lt f x (nat f 0) || lt f (nat f 0) x

  abbrev pub prefix_bonus :
      Value
      → Option SessionAffinityTracker
      → ℕ
      → NodeState
      → Text
      → ℕ
      → Option SessionAffinityTracker × Value
  prefix_bonus s8 sessions now n prefix_key depth =
      if is_nonzero s8
      then (sessions, nat f 0)
      else pin_bonus f sessions now n prefix_key (nat f 10) depth

  -- A round of the loop over the candidates.
  unfoldable pub score_node :
      ScoreSettings f
      → ScoreInputs f
      → NodeRegistry
      → ℕ
      → ScoreRequest
      → Option SessionAffinityTracker
      → NodeState
      → Option SessionAffinityTracker × RoutingResult f
  score_node s i r now q sessions n =
      let key = queue_key n.node_id q.model in
      let depth = Dict.get_or key 0 q.queue_depths in
      let s1 = score_thermal f s now n q.model in
      let s2 = score_memory_fit f s i n q.model in
      let s3 = score_queue_depth f s r depth n in
      let s4 = score_wait_time f s i n q.model depth in
      let s5 = score_role_affinity f s i n q.model in
      let s6 = score_availability_trend f s n in
      let s7 = score_context_fit f s n q.model q.estimated_tokens in
      let own = pin_bonus f sessions now n q.session_key (nat f 20) depth in
      let s8 = own.1 in
      let shared = prefix_bonus s8 own.0 now n q.prefix_key depth in
      let s8p = shared.1 in
      let total = add (add (add (add (add (add (add (add s1 s2) s3) s4) s5) s6) s7) s8) s8p in
      (
        shared.0,
        record {
          node_id = n.node_id;
          queue_key = key;
          score = total;
          scores_breakdown =
              (text "thermal", s1)
              ∷ (text "memory_fit", s2)
              ∷ (text "queue_depth", s3)
              ∷ (text "wait_time", s4)
              ∷ (text "role_affinity", s5)
              ∷ (text "availability_trend", s6)
              ∷ (text "context_fit", s7)
              ∷ (text "session_affinity", s8)
              ∷ (text "prefix_affinity", s8p)
              ∷ (text "total", total)
              ∷ [];
        },
      )

  unfoldable pub score_nodes :
      ScoreSettings f
      → ScoreInputs f
      → NodeRegistry
      → ℕ
      → ScoreRequest
      → Option SessionAffinityTracker
      → List NodeState
      → Option SessionAffinityTracker × List (RoutingResult f)
  score_nodes s i r now q sessions [] = (sessions, [])
  score_nodes s i r now q sessions (n ∷ ns) =
      let (sessions', result) = score_node s i r now q sessions n in
      let rest = score_nodes s i r now q sessions' ns in (rest.0, result ∷ rest.1)

  -- `results.sort(key=lambda r: r.score, reverse=True)`, which keeps the order of equal scores.
  unfoldable pub insert_result : RoutingResult f → List (RoutingResult f) → List (RoutingResult f)
  insert_result x [] = x ∷ []
  insert_result x (y ∷ ys) =
      let rest = insert_result x ys in if lt f x.score y.score then y ∷ rest else x ∷ y ∷ ys

  unfoldable pub sort_results : List (RoutingResult f) → List (RoutingResult f)
  sort_results [] = []
  sort_results (x ∷ xs) = insert_result x (sort_results xs)

  -- The sessions afterwards, and the ranking.
  unfoldable pub score_request :
      ScoreSettings f
      → ScoreInputs f
      → NodeRegistry
      → ℕ
      → ScoreRequest
      → Option SessionAffinityTracker
      → Option SessionAffinityTracker × List (RoutingResult f)
  score_request s i r now q sessions =
      let scored = score_nodes s i r now q sessions (eliminate i.fit_cost q.model r) in
      (scored.0, sort_results scored.1)
