-- ===== src/Preloader/Evidence.antt =====
-- What the preloader learns from a loaded model, and how its estimates follow from it.
use ollama_herd.Common.{
  ℕ, ◌+◌, ◌-◌, ◌*◌, ◌≤◌, ◌<◌, ◌≡◌, refl, sym, ◌∙◌, ap, subst, false, ◌&&◌, Option, none, some, List,
  [], ◌∷◌, ◌++◌, Text, text_eq, text_eq_refl, if◌then◌else◌, ltb, arith, Option-cases, inl, inr,
}
use ollama_herd.Dict
use ollama_herd.Dict.{Dict}
use ollama_herd.Models.Metrics.{LoadedModel}
use ollama_herd.Models.Node.{NodeState}
use ollama_herd.Preloader.Catalog.{ModelSpec}
use ollama_herd.Preloader.Rounding.{div_up_exact, converted, div_up-1024}
use ollama_herd.Preloader.Sizing.{
  KvCost, Learned, observe_context, kv_measure, observe_model, observe_models, observe_kv_cost,
  sizes_of, learn_cost, loaded_size, div_up, predicted_gb, weights_of, learned_gb, or_guess,
  measured_resident_gb, estimate_resident_gb,
}
use ollama_herd.Serializers.{ollama_of, models_loaded_of}

abbrev or_else {ℓ} : {A : Type ℓ} → Option A → Option A → Option A
or_else none b = b
or_else (some x) b = some x

-- The measure and the context of a model, where it has the name.
abbrev cost_for : Dict ℕ → Text → LoadedModel → Option KvCost
cost_for sizes k m = if text_eq m.name k then kv_measure (Dict.get_or m.name 0 sizes) m else none

abbrev context_for : Text → LoadedModel → Option ℕ
context_for k m = if text_eq m.name k && ltb 0 m.context_length then some m.context_length else none

-- The last of them.
last_cost : Dict ℕ → Text → List LoadedModel → Option KvCost
last_cost sizes k [] = none
last_cost sizes k (m ∷ ms) = or_else (last_cost sizes k ms) (cost_for sizes k m)

last_context : Text → List LoadedModel → Option ℕ
last_context k [] = none
last_context k (m ∷ ms) = or_else (last_context k ms) (context_for k m)

or_else_assoc {ℓ} :
    {A : Type ℓ} (a b c : Option A) → or_else (or_else a b) c ≡ or_else a (or_else b c)
or_else_assoc none b c = refl
or_else_assoc (some x) b c = refl

kv_cost-learn_cost :
    (k name : Text) (o : Option KvCost) (l : Learned)
    → Dict.get k (learn_cost name o l).kv_cost
      ≡ or_else (if text_eq name k then o else none) (Dict.get k l.kv_cost)
kv_cost-learn_cost k name none l = ground arith
kv_cost-learn_cost k name (some c) l = ground (arith, Dict.get-set name k c l.kv_cost)

observed_ctx-learn_cost :
    (name : Text) (o : Option KvCost) (l : Learned)
    → (learn_cost name o l).observed_ctx ≡ l.observed_ctx
observed_ctx-learn_cost name none l = refl
observed_ctx-learn_cost name (some c) l = refl

kv_cost-observe_context :
    (m : LoadedModel) (l : Learned) → (observe_context m l).kv_cost ≡ l.kv_cost
unfolding observe_context
kv_cost-observe_context m l = ground arith

kv_cost-observe_model :
    (sizes : Dict ℕ) (k : Text) (m : LoadedModel) (l : Learned)
    → Dict.get k (observe_model sizes m l).kv_cost
      ≡ or_else (cost_for sizes k m) (Dict.get k l.kv_cost)
unfolding observe_model
kv_cost-observe_model sizes k m l =
    kv_cost-learn_cost k m.name (kv_measure (Dict.get_or m.name 0 sizes) m) (observe_context m l)
    ∙ rw (kv_cost-observe_context m l) refl

observed_ctx-observe_model :
    (sizes : Dict ℕ) (k : Text) (m : LoadedModel) (l : Learned)
    → Dict.get k (observe_model sizes m l).observed_ctx
      ≡ or_else (context_for k m) (Dict.get k l.observed_ctx)
unfolding observe_model observe_context
observed_ctx-observe_model sizes k m l =
    rw
      (observed_ctx-learn_cost m.name (kv_measure (Dict.get_or m.name 0 sizes) m)
        (observe_context m l))
      (ground (arith, Dict.get-set m.name k m.context_length l.observed_ctx))

kv_cost-observe_models :
    (sizes : Dict ℕ) (k : Text) (ms : List LoadedModel) (l : Learned)
    → Dict.get k (observe_models sizes ms l).kv_cost
      ≡ or_else (last_cost sizes k ms) (Dict.get k l.kv_cost)
unfolding observe_models last_cost
kv_cost-observe_models sizes k [] l = refl
kv_cost-observe_models sizes k (m ∷ ms) l =
    kv_cost-observe_models sizes k ms (observe_model sizes m l)
    ∙ (ap (or_else (last_cost sizes k ms)) (kv_cost-observe_model sizes k m l)
        ∙ sym (or_else_assoc (last_cost sizes k ms) (cost_for sizes k m) (Dict.get k l.kv_cost)))

observed_ctx-observe_models :
    (sizes : Dict ℕ) (k : Text) (ms : List LoadedModel) (l : Learned)
    → Dict.get k (observe_models sizes ms l).observed_ctx
      ≡ or_else (last_context k ms) (Dict.get k l.observed_ctx)
unfolding observe_models last_context
observed_ctx-observe_models sizes k [] l = refl
observed_ctx-observe_models sizes k (m ∷ ms) l =
    observed_ctx-observe_models sizes k ms (observe_model sizes m l)
    ∙ (ap (or_else (last_context k ms)) (observed_ctx-observe_model sizes k m l)
        ∙ sym (or_else_assoc (last_context k ms) (context_for k m) (Dict.get k l.observed_ctx)))

or_else_twice {ℓ} : {A : Type ℓ} (a b : Option A) → or_else a (or_else a b) ≡ or_else a b
or_else_twice none b = refl
or_else_twice (some x) b = refl

-- To learn from a node a second time changes nothing that can be looked up.
pub observe_kv_cost_twice :
    (node : NodeState) (l : Learned) (k : Text)
    → (Dict.get k (observe_kv_cost node (observe_kv_cost node l)).kv_cost
        ≡ Dict.get k (observe_kv_cost node l).kv_cost)
      × (Dict.get k (observe_kv_cost node (observe_kv_cost node l)).observed_ctx
          ≡ Dict.get k (observe_kv_cost node l).observed_ctx)
unfolding observe_kv_cost
observe_kv_cost_twice node l k =
    let sizes = sizes_of (ollama_of (some node)) in
    let ms = models_loaded_of (ollama_of (some node)) in
    let l' = observe_models sizes ms l in
    let cost = kv_cost-observe_models sizes k ms l in
    let context = observed_ctx-observe_models sizes k ms l in
    (
      kv_cost-observe_models sizes k ms l'
          ∙ (ap (or_else (last_cost sizes k ms)) cost
              ∙ (or_else_twice (last_cost sizes k ms) (Dict.get k l.kv_cost) ∙ sym cost)),
      observed_ctx-observe_models sizes k ms l'
          ∙ (ap (or_else (last_context k ms)) context
              ∙ (or_else_twice (last_context k ms) (Dict.get k l.observed_ctx) ∙ sym context)),
    )

measure_facts :
    (weight : ℕ) (m : LoadedModel) (cost : KvCost)
    → kv_measure weight m ≡ some cost
    → (0 < m.context_length)
      × (weight ≤ m.size_gb)
      × (cost ≡ record { mb = (m.size_gb - weight) * 1024; tokens = m.context_length })
unfolding kv_measure
measure_facts weight m cost h = (ground arith, ground arith, ground arith)

-- A measure predicts the size it was made from, for the context it was made at.
predicted_gb-kv_measure :
    (weight : ℕ) (m : LoadedModel) (cost : KvCost)
    → kv_measure weight m ≡ some cost
    → predicted_gb weight cost m.context_length ≡ m.size_gb
unfolding predicted_gb
predicted_gb-kv_measure weight m cost h =
    let facts = measure_facts weight m cost h in
    let many : 0 < m.context_length * 1024 = omega (arith, facts.0) in
    let exact =
      ap (λ x. div_up x (m.context_length * 1024)) (converted (m.size_gb - weight) m.context_length)
      ∙ div_up_exact (m.size_gb - weight) (m.context_length * 1024) many in
    ap (λ c. predicted_gb weight c m.context_length) facts.2
    ∙ (ap (λ x. weight + x) exact ∙ omega (arith, facts.1))

-- A measure predicts, for any context, the weights and the share of the context, rounded up.
predicted_gb_share :
    (weight : ℕ) (m : LoadedModel) (cost : KvCost) (n : ℕ)
    → kv_measure weight m ≡ some cost
    → predicted_gb weight cost n ≡ weight + div_up ((m.size_gb - weight) * n) m.context_length
unfolding predicted_gb
predicted_gb_share weight m cost n h =
    let facts = measure_facts weight m cost h in
    let kv = m.size_gb - weight in
    let swap : kv * 1024 * n ≡ kv * n * 1024 = omega arith in
    ap (λ c. predicted_gb weight c n) facts.2
    ∙ ap (λ x. weight + div_up x (m.context_length * 1024)) swap
    ∙ ap (λ x. weight + x) (div_up-1024 (kv * n) m.context_length facts.0)

-- No runner of the name.
abbrev pub Unnamed : Text → List LoadedModel → Type 0
Unnamed k [] = Unit
Unnamed k (m ∷ ms) = (text_eq m.name k ≡ false) × Unnamed k ms

last_cost-Unnamed :
    (sizes : Dict ℕ) (k : Text) (ms : List LoadedModel) → Unnamed k ms → last_cost sizes k ms ≡ none
unfolding last_cost
last_cost-Unnamed sizes k [] u = refl
last_cost-Unnamed sizes k (m ∷ ms) u = rw (last_cost-Unnamed sizes k ms u.1, u.0) refl

last_cost-append :
    (sizes : Dict ℕ) (k : Text) (before ms : List LoadedModel) (cost : KvCost)
    → last_cost sizes k ms ≡ some cost
    → last_cost sizes k (before ++ ms) ≡ some cost
unfolding last_cost
last_cost-append sizes k [] ms cost h = h
last_cost-append sizes k (m ∷ before) ms cost h =
    rw (last_cost-append sizes k before ms cost h) refl

last_cost_here :
    (sizes : Dict ℕ) (m : LoadedModel) (after : List LoadedModel) (cost : KvCost)
    → Unnamed m.name after
    → kv_measure (Dict.get_or m.name 0 sizes) m ≡ some cost
    → last_cost sizes m.name (m ∷ after) ≡ some cost
unfolding last_cost
last_cost_here sizes m after cost u h =
    rw (last_cost-Unnamed sizes m.name after u, text_eq_refl m.name) h

-- What a node shows is what is predicted elsewhere: the cost learned from a node's last runner of a
-- name predicts, for the context it was loaded with and the same weights, its size; and for any other
-- context the weights and the share of its cache that falls to that context, rounded up.
pub learned_gb-observe_kv_cost :
    (node : NodeState) (m : LoadedModel) (before after : List LoadedModel) (cost : KvCost)
    (l : Learned) (n : ℕ)
    → 0 < n
    → models_loaded_of (ollama_of (some node)) ≡ before ++ (m ∷ after)
    → Unnamed m.name after
    → kv_measure (Dict.get_or m.name 0 (sizes_of (ollama_of (some node)))) m ≡ some cost
    → (learned_gb m.name
          (Dict.get_or m.name 0 (sizes_of (ollama_of (some node))))
          (some m.context_length)
          (observe_kv_cost node l)
        ≡ some m.size_gb)
      × (learned_gb m.name
            (Dict.get_or m.name 0 (sizes_of (ollama_of (some node))))
            (some n)
            (observe_kv_cost node l)
          ≡ some (
              Dict.get_or m.name 0 (sizes_of (ollama_of (some node)))
              + div_up
                  ((m.size_gb - Dict.get_or m.name 0 (sizes_of (ollama_of (some node)))) * n)
                  m.context_length))
unfolding observe_kv_cost learned_gb
learned_gb-observe_kv_cost node m before after cost l n positive e u h =
    let sizes = sizes_of (ollama_of (some node)) in
    let weight = Dict.get_or m.name 0 sizes in
    let last =
      last_cost-append sizes m.name before (m ∷ after) cost
        (last_cost_here sizes m after cost u h) in
    let seen : Dict.get m.name (observe_models sizes (before ++ (m ∷ after)) l).kv_cost
        ≡ some cost =
      kv_cost-observe_models sizes m.name (before ++ (m ∷ after)) l
      ∙ ap (λ o. or_else o (Dict.get m.name l.kv_cost)) last in
    let got : Dict.get m.name
          (observe_models sizes (models_loaded_of (ollama_of (some node))) l).kv_cost
        ≡ some cost =
      subst (λ ms. Dict.get m.name (observe_models sizes ms l).kv_cost ≡ some cost) (sym e) seen in
    let facts = measure_facts weight m cost h in
    let exact = predicted_gb-kv_measure weight m cost h in
    let share = predicted_gb_share weight m cost n h in
    (ground (arith, got, exact, facts.0), ground (arith, got, share, positive))

predicted_gb_above : (weights : ℕ) (cost : KvCost) (n : ℕ) → weights ≤ predicted_gb weights cost n
unfolding predicted_gb
predicted_gb_above weights cost n = omega arith

learned_gb_above :
    (model : Text) (weights : ℕ) (num_ctx : Option ℕ) (l : Learned)
    → weights ≤ or_guess weights (learned_gb model weights num_ctx l)
unfolding learned_gb
learned_gb_above model weights none l = omega arith
learned_gb_above model weights (some n) l = elim (Option-cases (Dict.get model l.kv_cost)) [
  | inl e ↦ ground arith
  | inr (cost, e) ↦ ground (arith, predicted_gb_above weights cost n)
]

-- A model that is not loaded on the node is never sized below its weights.
pub estimate_resident_gb_above :
    (catalog : List ModelSpec) (model : Text) (node : NodeState) (num_ctx weights_gb : Option ℕ)
    (l : Learned)
    → loaded_size model (models_loaded_of (ollama_of (some node))) ≡ none
    → weights_of catalog model node weights_gb
      ≤ (estimate_resident_gb catalog model node num_ctx weights_gb l).0
unfolding estimate_resident_gb measured_resident_gb
estimate_resident_gb_above catalog model node num_ctx weights_gb l h = rw h (
    learned_gb_above model (weights_of catalog model node weights_gb) num_ctx
      (observe_kv_cost node l))
