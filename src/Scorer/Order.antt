-- ===== src/Scorer/Order.antt =====
-- The ranking is by score, and has one result for each node that survives elimination.
use mathlib.Core.List.{Permᴰ}
use mathlib.Core.List.Permᴰ
use ollama_herd.Common.{
  ℕ, ◌≡◌, refl, subst, false, Option, List, [], ◌∷◌, Text, map, All, Bool-cases, inl, inr,
}
use ollama_herd.Models.Node.{NodeState}
use ollama_herd.Registry.{NodeRegistry}
use ollama_herd.Affinity.{SessionAffinityTracker}
use ollama_herd.Queue.Manager.{queue_key}
use ollama_herd.Scorer.{eliminate}
use ollama_herd.Scorer.Floats.{Float, FloatLaws}
use ollama_herd.Scorer.Signals.{ScoreSettings, ScoreInputs}
use ollama_herd.Scorer.Ranking.{
  RoutingResult, ScoreRequest, score_node, score_nodes, insert_result, sort_results, score_request,
}

-- No result is followed by one with a higher score.
abbrev pub IsRanked : (f : Float) → List (RoutingResult f) → Type 0
IsRanked f [] = Unit
IsRanked f (x ∷ xs) = All (λ y. f.ltb x.score y.score ≡ false) xs × IsRanked f xs

module _ (f : Float) where
  All-insert_result :
      (P : RoutingResult f → Type 0) (x : RoutingResult f) (ys : List (RoutingResult f))
      → P x
      → All P ys
      → All P (insert_result f x ys)
  unfolding insert_result
  All-insert_result P x [] px h = (px, tt)
  All-insert_result P x (y ∷ ys) px h = elim (Bool-cases (f.ltb x.score y.score)) [
    | inl below ↦ rw (below, insert_result) (h.0, All-insert_result P x ys px h.1)
    | inr above ↦ rw (above, insert_result) (px, h)
  ]

  module _ (laws : FloatLaws f) where
    -- No score is NaN.
    abbrev pub AreNumbers : List (RoutingResult f) → Type 0
    AreNumbers xs = All (λ x. laws.is_nan x.score ≡ false) xs

    above-All :
        (x y : RoutingResult f) (ys : List (RoutingResult f))
        → laws.is_nan y.score ≡ false
        → f.ltb x.score y.score ≡ false
        → All (λ z. f.ltb y.score z.score ≡ false) ys
        → All (λ z. f.ltb x.score z.score ≡ false) ys
    above-All x y [] number h all = tt
    above-All x y (z ∷ zs) number h all = (
      laws.negatively_transitive x.score y.score z.score number h all.0,
      above-All x y zs number h all.1,
    )

    insert_result-IsRanked :
        (x : RoutingResult f) (ys : List (RoutingResult f))
        → AreNumbers ys
        → IsRanked f ys
        → IsRanked f (insert_result f x ys)
    unfolding insert_result
    insert_result-IsRanked x [] numbers h = (tt, tt)
    insert_result-IsRanked x (y ∷ ys) numbers h = elim (Bool-cases (f.ltb x.score y.score)) [
      | inl below ↦
          rw (below, insert_result)
            (
              All-insert_result (λ z. f.ltb y.score z.score ≡ false) x ys
                  (laws.asymmetric x.score y.score below) h.0,
              insert_result-IsRanked x ys numbers.1 h.1,
            )
      | inr above ↦ rw (above, insert_result) ((above, above-All x y ys numbers.0 above h.0), h)
    ]

    sort_results-IsRanked :
        (xs : List (RoutingResult f))
        → AreNumbers xs
        → IsRanked f (sort_results f xs) × AreNumbers (sort_results f xs)
    unfolding sort_results
    sort_results-IsRanked [] numbers = (tt, tt)
    sort_results-IsRanked (x ∷ xs) numbers =
        let rest = sort_results-IsRanked xs numbers.1 in
        (
          insert_result-IsRanked x (sort_results f xs) rest.1 rest.0,
          All-insert_result (λ y. laws.is_nan y.score ≡ false) x (sort_results f xs) numbers.0
              rest.1,
        )

    -- The ranking is by score: no result is followed by one with a higher score, so the first has the
    -- highest, provided no score that a surviving node gets is NaN.
    pub score_request-IsRanked :
        (s : ScoreSettings f) (i : ScoreInputs f) (r : NodeRegistry) (now : ℕ) (q : ScoreRequest)
        (sessions : Option SessionAffinityTracker)
        → AreNumbers (score_nodes f s i r now q sessions (eliminate i.fit_cost q.model r)).1
        → IsRanked f (score_request f s i r now q sessions).1
    unfolding score_request
    score_request-IsRanked s i r now q sessions numbers =
        (sort_results-IsRanked
          (score_nodes f s i r now q sessions (eliminate i.fit_cost q.model r)).1 numbers).0

  abbrev ids : List (RoutingResult f) → List Text
  ids xs = map (λ x. x.node_id) xs

  insert_result-Perm :
      (x : RoutingResult f) (ys : List (RoutingResult f))
      → Permᴰ (ids (insert_result f x ys)) (x.node_id ∷ ids ys)
  unfolding insert_result
  insert_result-Perm x [] = Permᴰ.refl (x.node_id ∷ [])
  insert_result-Perm x (y ∷ ys) = elim (Bool-cases (f.ltb x.score y.score)) [
    | inl below ↦
        rw (below, insert_result)
          (Permᴰ.trans (Permᴰ.cons refl (insert_result-Perm x ys)) (Permᴰ.swap refl refl))
    | inr above ↦ rw (above, insert_result) (Permᴰ.refl (x.node_id ∷ y.node_id ∷ ids ys))
  ]

  sort_results-Perm : (xs : List (RoutingResult f)) → Permᴰ (ids (sort_results f xs)) (ids xs)
  unfolding sort_results
  sort_results-Perm [] = Permᴰ.nil
  sort_results-Perm (x ∷ xs) =
      Permᴰ.trans (insert_result-Perm x (sort_results f xs))
        (Permᴰ.cons refl (sort_results-Perm xs))

  -- The key of the queue that a result names.
  abbrev pub HasKey : Text → RoutingResult f → Type 0
  HasKey model x = x.queue_key ≡ queue_key x.node_id model

  sort_results-All :
      (P : RoutingResult f → Type 0) (xs : List (RoutingResult f))
      → All P xs
      → All P (sort_results f xs)
  unfolding sort_results
  sort_results-All P [] h = tt
  sort_results-All P (x ∷ xs) h =
      All-insert_result P x (sort_results f xs) h.0 (sort_results-All P xs h.1)

  module _ (s : ScoreSettings f) (i : ScoreInputs f) (r : NodeRegistry) (now : ℕ)
      (q : ScoreRequest) where
    score_nodes-ids :
        (sessions : Option SessionAffinityTracker) (ns : List NodeState)
        → (ids (score_nodes f s i r now q sessions ns).1 ≡ map (λ n. n.node_id) ns)
          × All (HasKey q.model) (score_nodes f s i r now q sessions ns).1
    unfolding score_nodes score_node
    score_nodes-ids sessions [] = (refl, tt)
    score_nodes-ids sessions (n ∷ ns) =
        let rest = score_nodes-ids (score_node f s i r now q sessions n).0 ns in
        (rw rest.0 refl, (refl, rest.1))

    -- The ranking has one result for each node that survives elimination and no other, and each
    -- result names the queue of its node and the model.
    pub score_request-eliminate :
        (sessions : Option SessionAffinityTracker)
        → Permᴰ
            (map (λ x. x.node_id) (score_request f s i r now q sessions).1)
            (map (λ n. n.node_id) (eliminate i.fit_cost q.model r))
          × All (HasKey q.model) (score_request f s i r now q sessions).1
    unfolding score_request
    score_request-eliminate sessions =
        let ns = eliminate i.fit_cost q.model r in
        let scored = score_nodes f s i r now q sessions ns in
        let facts = score_nodes-ids sessions ns in
        (
          subst (Permᴰ (ids (sort_results f scored.1))) facts.0 (sort_results-Perm scored.1),
          sort_results-All (HasKey q.model) scored.1 facts.1,
        )
