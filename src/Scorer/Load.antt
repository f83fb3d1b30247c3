-- ===== src/Scorer/Load.antt =====
-- The signals that depend on the load and the speed of a node: the depth of its queue, the time to
-- wait, and the role of its hardware.
use ollama_herd.Common.{
  ℕ, ◌-◌, ◌/◌, ◌%◌, Bool, not, ◌&&◌, Option, none, some, List, [], ◌∷◌, Text, if◌then◌else◌, ltb,
  leb, ◌==◌, filter, map, length, get_elem?,
}
use ollama_herd.Models.Node.{NodeState, is_offline}
use ollama_herd.Registry.{NodeRegistry, get_all_nodes}
use ollama_herd.Scorer.Floats.{Float}
use ollama_herd.Scorer.Signals.{ScoreSettings, ScoreInputs, nat, lt, min_of, max_of}

module _ (f : Float) where
  open f use {Value, ratio, neg, add, sub, mul, div}

  -- `bws.sort()`
  abbrev pub insert_bandwidth : ℕ → List ℕ → List ℕ
  insert_bandwidth b [] = b ∷ []
  insert_bandwidth b (c ∷ cs) =
      let rest = insert_bandwidth b cs in if ltb c b then c ∷ rest else b ∷ c ∷ cs

  abbrev pub sort_bandwidths : List ℕ → List ℕ
  sort_bandwidths [] = []
  sort_bandwidths (b ∷ bs) = insert_bandwidth b (sort_bandwidths bs)

  abbrev pub at_index : List ℕ → ℕ → ℕ
  at_index bs i = elim (get_elem? bs i) [ none ↦ 0 | some b ↦ b ]

  abbrev pub has_bandwidth : NodeState → Bool
  has_bandwidth n = ltb 0 n.hardware.memory_bandwidth_gbps && not (is_offline n.status)

  unfoldable pub fleet_median_bandwidth : NodeRegistry → Value
  fleet_median_bandwidth r =
      let bws =
        sort_bandwidths
          (map (λ n. n.hardware.memory_bandwidth_gbps) (filter has_bandwidth (get_all_nodes r))) in
      let mid = length bws / 2 in
      if length bws == 0
      then nat f 0
      else if length bws % 2 == 1
      then nat f (at_index bws mid)
      else div (add (nat f (at_index bws (mid - 1))) (nat f (at_index bws mid))) (nat f 2)

  abbrev pub effective_depth : ScoreSettings f → NodeRegistry → ℕ → NodeState → Value
  effective_depth s r depth n =
      let bandwidth = n.hardware.memory_bandwidth_gbps in
      let median = fleet_median_bandwidth r in
      let relative = max_of f (ratio 1 4) (min_of f (nat f 4) (div (nat f bandwidth) median)) in
      if s.queue_penalty_bandwidth_normalize && ltb 0 bandwidth && lt f (nat f 0) median
      then div (nat f depth) relative
      else nat f depth

  unfoldable pub score_queue_depth : ScoreSettings f → NodeRegistry → ℕ → NodeState → Value
  score_queue_depth s r depth n =
      if depth == 0
      then nat f 0
      else neg (
          min_of f s.score_queue_depth_max_penalty
            (mul (effective_depth s r depth n) s.score_queue_depth_penalty_per))

  -- The estimate of the tokens a second where no latency is known.
  abbrev pub tokens_per_sec : ℕ → ℕ → Value
  tokens_per_sec bandwidth size =
      let size_gb = ratio size 1000 in
      if ltb 0 bandwidth
      then max_of f (nat f 10)
          (div (mul (nat f bandwidth) (ratio 6 5)) (max_of f (nat f 1) (div size_gb (nat f 10))))
      else max_of f (nat f 1) (div (nat f 100) (max_of f (nat f 1) size_gb))

  abbrev pub p75_or_guess : Option Value → ℕ → ℕ → Value
  p75_or_guess none bandwidth size =
      mul (div (nat f 100) (tokens_per_sec bandwidth size)) (nat f 1000)
  p75_or_guess (some p75_ms) bandwidth size = p75_ms

  unfoldable pub score_wait_time : ScoreSettings f → ScoreInputs f → NodeState → Text → ℕ → Value
  score_wait_time s i n model depth = elim i.latency_store [
    | none ↦ nat f 0
    | some get_cached_percentile ↦
        let p75_ms =
          p75_or_guess (get_cached_percentile n.node_id model) n.hardware.memory_bandwidth_gbps
            (i.model_size model n) in
        let est_wait_s = div (mul (nat f depth) p75_ms) (nat f 1000) in
        if depth == 0
        then nat f 0
        else neg (min_of f s.score_wait_time_max_penalty (div est_wait_s (nat f 10)))
  ]

  abbrev pub bandwidth_role : Bool → Bool → ℕ → Value
  bandwidth_role is_large is_small bandwidth =
      let bw_bonus = min_of f (nat f 25) (add (nat f 5) (div (nat f bandwidth) (nat f 40))) in
      if is_large
      then bw_bonus
      else if is_small
      then max_of f (nat f 3) (sub (nat f 18) (mul bw_bonus (ratio 3 5)))
      else mul bw_bonus (ratio 3 5)

  -- The memory is in thousandths of a GB.
  abbrev pub memory_role : Bool → Bool → ℕ → Value
  memory_role is_large is_small memory =
      if is_large
      then if leb 128000 memory then nat f 15 else if leb 32000 memory then nat f 5 else nat f 0
      else if is_small
      then if leb memory 32000 then nat f 15 else if leb memory 128000 then nat f 8 else nat f 3
      else nat f 5

  unfoldable pub score_role_affinity : ScoreSettings f → ScoreInputs f → NodeState → Text → Value
  score_role_affinity s i n model =
      let size = i.model_size model n in
      let is_large = ltb s.score_role_large_threshold_gb size in
      let is_small = ltb size s.score_role_small_threshold_gb in
      let bandwidth = n.hardware.memory_bandwidth_gbps in
      if s.bandwidth_aware_scoring && ltb 0 bandwidth
      then bandwidth_role is_large is_small bandwidth
      else memory_role is_large is_small n.hardware.memory_total_gb
