-- ===== src/Serializers/Residency.antt =====
-- Runners, logical models and the context that a model is resident at.
use ollama_herd.Common.{
  ℕ, ◌≡◌, refl, ◌≢◌, Bool, true, false, ◌||◌, Option, List, [], ◌∷◌, map, Text, text_eq,
  text_eq_iff, mem, arith, if◌then◌else◌, Bool-cases, inl, inr, any, All, filter,
}
use ollama_herd.Models.Metrics.{LoadedModel}
use ollama_herd.Models.Node.{NodeState}
use ollama_herd.Serializers.{
  runner_key, distinct_runners, distinct_resident_models, models_loaded_of, ollama_of, contexts_of,
  only_context, resident_context_for,
}

-- No two entries have the same key, and none has a key of `seen`.
abbrev pub Distinct : List Text → List LoadedModel → Type 0
Distinct seen [] = Unit
Distinct seen (m ∷ ms) = (mem (runner_key m) seen ≡ false) × Distinct (runner_key m ∷ seen) ms

distinct_runners-Distinct :
    (seen : List Text) (ms : List LoadedModel) → Distinct seen (distinct_runners seen ms)
unfolding distinct_runners
distinct_runners-Distinct seen [] = tt
distinct_runners-Distinct seen (m ∷ ms) = elim (Bool-cases (mem (runner_key m) seen)) [
  | inl old ↦ rw old (distinct_runners-Distinct seen ms)
  | inr new ↦ rw new (new, distinct_runners-Distinct (runner_key m ∷ seen) ms)
]

abbrev pub runner_keys : List LoadedModel → List Text
runner_keys = map runner_key

keys-distinct_runners :
    (k : Text) (seen : List Text) (ms : List LoadedModel)
    → (mem k (runner_keys (distinct_runners seen ms)) || mem k seen)
      ≡ (mem k (runner_keys ms) || mem k seen)
unfolding distinct_runners
keys-distinct_runners k seen [] = refl
keys-distinct_runners k seen (m ∷ ms) = ground (
  arith,
  keys-distinct_runners k seen ms,
  keys-distinct_runners k (runner_key m ∷ seen) ms,
  text_eq_iff k (runner_key m),
)

-- The runners that are counted have distinct keys, and exactly the keys of the runners that the
-- node reports.
distinct_resident_models-keys :
    (node : Option NodeState)
    → Distinct [] (distinct_resident_models node)
      × ((k : Text)
          → mem k (runner_keys (distinct_resident_models node))
            ≡ mem k (runner_keys (models_loaded_of (ollama_of node))))
unfolding distinct_resident_models
distinct_resident_models-keys node =
    let ms = models_loaded_of (ollama_of node) in
    (distinct_runners-Distinct [] ms, λ k. ground (arith, keys-distinct_runners k [] ms))

abbrev pub is_named : Text → LoadedModel → Bool
is_named model m = text_eq m.name model

-- Every runner of the name has the context.
abbrev pub AllHave : Text → ℕ → List LoadedModel → Type 0
AllHave model c ms = All (λ m. m.context_length ≡ c) (filter (is_named model) ms)

contexts_of-nil :
    (model : Text) (c : ℕ) (ms : List LoadedModel) → contexts_of model ms ≡ [] → AllHave model c ms
unfolding contexts_of
contexts_of-nil model c [] e = tt
contexts_of-nil model c (m ∷ ms) e = ground (arith, contexts_of-nil model c ms)

contexts_of-one :
    (model : Text) (c : ℕ) (ms : List LoadedModel)
    → contexts_of model ms ≡ c ∷ []
    → AllHave model c ms
unfolding contexts_of
contexts_of-one model c [] e = tt
contexts_of-one model c (m ∷ ms) e =
    ground (arith, contexts_of-nil model c ms, contexts_of-one model c ms)

contexts_of-all :
    (model : Text) (c : ℕ) (ms : List LoadedModel)
    → AllHave model c ms
    → contexts_of model ms ≡ (if any (is_named model) ms then c ∷ [] else [])
unfolding contexts_of
contexts_of-all model c [] h = refl
contexts_of-all model c (m ∷ ms) h = ground (arith, contexts_of-all model c ms)

only_context-nonzero : (cs : List ℕ) → only_context cs ≢ 0 → cs ≡ only_context cs ∷ []
only_context-nonzero [] h = absurd (h refl)
only_context-nonzero (c ∷ []) h = refl
only_context-nonzero (c ∷ d ∷ cs) h = absurd (h refl)

-- A context that is not 0 is the context of every runner of the model on the node, so two runners
-- of the model that disagree give 0.
pub resident_context_for-AllHave :
    (model : Text) (node : Option NodeState)
    → resident_context_for model node ≢ 0
    → AllHave model (resident_context_for model node) (models_loaded_of (ollama_of node))
unfolding resident_context_for
resident_context_for-AllHave model node h =
    let ms = models_loaded_of (ollama_of node) in
    contexts_of-one model _ ms (only_context-nonzero (contexts_of model ms) h)

-- Where the node has a runner of the model and all of them have one context, that context is given.
pub resident_context_for_common :
    (model : Text) (node : Option NodeState) (c : ℕ)
    → any (is_named model) (models_loaded_of (ollama_of node)) ≡ true
    → AllHave model c (models_loaded_of (ollama_of node))
    → resident_context_for model node ≡ c
unfolding resident_context_for
resident_context_for_common model node c named all =
    ground (arith, contexts_of-all model c (models_loaded_of (ollama_of node)) all)
