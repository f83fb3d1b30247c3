-- ===== src/ContextOptimizer/Operator.antt =====
-- What the optimizer leaves to the operator (src/fleet_manager/server/context_optimizer.py).
use ollama_herd.Common.{
  filter, ℕ, ◌<◌, ◌≡◌, refl, ◌∙◌, ap, Bool, true, false, ◌||◌, some, List, [], ◌∷◌, Text, text_eq,
  text_eq_iff, mem, ltb, ◌==◌, arith, Bool-cases, inl, inr, if_cases,
}
use ollama_herd.Dict.{Dict}
use ollama_herd.Dict
use ollama_herd.Models.Node.{NodeState}
use ollama_herd.ContextOptimizer.{
  TokenStats, ContextOptimizer, set_override, auto_initialize_overrides, check_and_optimize,
  get_pending_commands, edit_overrides,
}

-- An override of a model that is in the settings, is not zero, and is of a model that the optimizer
-- has not marked as set by itself.
abbrev pub IsOperators : Text → ℕ → ContextOptimizer → Type 0
IsOperators model v c =
    (Dict.get model c.num_ctx_overrides ≡ some v) × (0 < v) × (mem model c.auto_set ≡ false)

IsOperators-set_override :
    (model : Text) (v : ℕ) (other : Text) (recommended : ℕ) (c : ContextOptimizer)
    → text_eq other model ≡ false
    → IsOperators model v c
    → IsOperators model v (set_override other recommended c)
IsOperators-set_override model v other recommended c apart (there, positive, ours) = (
  Dict.get-set other model recommended c.num_ctx_overrides ∙ rw apart there,
  positive,
  ground (arith, text_eq_iff other model, text_eq_iff model other),
)

-- A name of which a test says otherwise than of another is not the other.
apart_by :
    (test : Text → Bool) (other model : Text)
    → test other ≡ false
    → test model ≡ true
    → text_eq other model ≡ false
apart_by test other model fails holds = elim (Bool-cases (text_eq other model)) [
  | inl same ↦ let both : test other ≡ test model = ap test ((text_eq_iff other model).0 same) in cc
  | inr different ↦ different
]

or_false : (a b c : Bool) → a || b || c ≡ false → c ≡ false
or_false a b c h = ground arith

-- Filling in the overrides at the start leaves an operator's override as it is.
pub IsOperators-auto_initialize_overrides :
    (model : Text) (v : ℕ) (stats : List TokenStats) (c : ContextOptimizer)
    → IsOperators model v c
    → IsOperators model v (auto_initialize_overrides stats c)
unfolding auto_initialize_overrides
IsOperators-auto_initialize_overrides model v [] c h = h
IsOperators-auto_initialize_overrides model v (s ∷ ss) c h =
    if_cases (IsOperators model v)
      (s.total_p99 == 0 || ltb s.request_count 50 || Dict.contains s.model c.num_ctx_overrides)
      (λ _. IsOperators-auto_initialize_overrides model v ss c h)
      (λ added. IsOperators-auto_initialize_overrides model v ss (set_override s.model _ c) (
        IsOperators-set_override model v s.model _ c
          (apart_by (λ m. Dict.contains m c.num_ctx_overrides) s.model model
            (or_false (s.total_p99 == 0) (ltb s.request_count 50) _ added) (rw h.0 refl))
          h))

-- What the server does with the optimizer and the overrides, in any order; an edit of the overrides
-- gives the model the value `v` again.
pub data Steps (model : Text) (v : ℕ) : ContextOptimizer → ContextOptimizer → Type 0 where
  done : (c : ContextOptimizer) → Steps model v c c
  initialized :
      (stats : List TokenStats) {c d : ContextOptimizer}
      → Steps model v c d
      → Steps model v c (auto_initialize_overrides stats d)
  checked :
      (now : ℕ) (auto_calculate : Bool) (nodes : List NodeState) (stats : List TokenStats)
      {c d : ContextOptimizer}
      → Steps model v c d
      → Steps model v c (check_and_optimize now auto_calculate nodes stats d).0
  edited :
      (overrides : Dict ℕ) {c d : ContextOptimizer}
      → Dict.get model (filter (λ e. ltb 0 e.1) overrides) ≡ some v
      → Steps model v c d
      → Steps model v c (edit_overrides overrides d)
  taken :
      (node_id : Text) {c d : ContextOptimizer}
      → Steps model v c d
      → Steps model v c (get_pending_commands node_id d).1
