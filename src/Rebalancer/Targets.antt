-- ===== src/Rebalancer/Targets.antt =====
-- Where the rebalancer moves requests.
use ollama_herd.Common.{
  ℕ, ◌&&◌, ◌++◌, ◌*◌, ◌≤◌, ◌≡◌, refl, Bool, true, false, not, none, some, List, [], ◌∷◌, arith,
  Text, text_eq, ltb, Bool-cases, inl, inr, any,
}
use ollama_herd.Dict.{Dict}
use ollama_herd.Dict
use ollama_herd.Models.Settings.{ServerSettings}
use ollama_herd.Registry.{NodeRegistry, get_node}
use ollama_herd.Scorer.Floats.{Float}
use ollama_herd.Scorer.Ranking.{RoutingResult}
use ollama_herd.Rebalancer.{is_hot_at, move_count, pick_target}

-- A result that may be a target.
abbrev pub is_target :
    (f : Float) → ServerSettings → NodeRegistry → Text → Text → Dict ℕ → RoutingResult f → Bool
is_target f s r model source_node depths x =
    not (text_eq x.node_id source_node)
    && ltb (Dict.get_or x.queue_key 0 depths) s.rebalance_threshold
    && is_hot_at model (get_node x.node_id r)

module _ (f : Float) (s : ServerSettings) (r : NodeRegistry) where
  pick_target-none :
      (model source_node : Text) (pending : ℕ) (depths : Dict ℕ) (results : List (RoutingResult f))
      → move_count s pending ≡ 0
      → pick_target f s r model source_node pending depths results ≡ none
  unfolding pick_target
  pick_target-none model source_node pending depths [] h = refl
  pick_target-none model source_node pending depths (y ∷ ys) h =
      ground (arith, pick_target-none model source_node pending depths ys h)

  -- A move that the rebalancer chooses goes to the first result, in the order of the ranking, of
  -- another node that has the model in memory and whose queue is below the threshold; it moves at
  -- least one request, at most half of those that wait, and at most the limit of a cycle.
  pub pick_target_lem :
      (model source_node : Text) (pending : ℕ) (depths : Dict ℕ) (results : List (RoutingResult f))
      (target : Text) (count : ℕ)
      → pick_target f s r model source_node pending depths results ≡ some (target, count)
      → ((before after : List (RoutingResult f)) × (x : RoutingResult f) × (results
            ≡ before ++ x ∷ after)
          × (x.queue_key ≡ target)
          × (is_target f s r model source_node depths x ≡ true)
          × (any (is_target f s r model source_node depths) before ≡ false))
        × (1 ≤ count)
        × (2 * count ≤ pending)
        × (count ≤ s.rebalance_max_per_cycle)
  unfolding pick_target
  pick_target_lem model source_node pending depths [] target count e = cc
  pick_target_lem model source_node pending depths (y ∷ ys) target count e =
      let stuck = pick_target-none model source_node pending depths ys in
      elim (Bool-cases (is_target f s r model source_node depths y)) [
        | inl fits ↦ (
          ([], ys, y, refl, ground (arith, stuck), fits, refl),
          ground (arith, stuck),
          ground (arith, stuck),
          ground (arith, stuck),
        )
        | inr unfit ↦
            let rest =
              pick_target_lem model source_node pending depths ys target count (ground arith) in
            let (before, after, x, split, key, good, none_before) = rest.0 in
            (
              (y ∷ before, after, x, rw split refl, key, good, rw (unfit, none_before) refl),
              rest.1,
              rest.2,
              rest.3,
            )
      ]
