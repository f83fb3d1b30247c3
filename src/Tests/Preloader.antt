-- ===== src/Tests/Preloader.antt =====
-- The preloader at the two nodes of the sample fleet.
use ollama_herd.Common.{
  ℕ, ◌+◌, ◌≡◌, ◌≤◌, refl, arith, Bool, true, false, some, none, [], ◌∷◌, text, text_eq,
}
use ollama_herd.Dict
use ollama_herd.Models.Metrics.{LoadedModel}
use ollama_herd.Models.Node.{NodeState}
use ollama_herd.Preloader.Budget.{Counts, preload_startup_le, refresh_priority_models_le}
use ollama_herd.Preloader.Choice.{LoadFits, load_model_on_best_node_fits}
use ollama_herd.Preloader.Evidence.{learned_gb-observe_kv_cost}
use ollama_herd.Preloader.Load.{Fleet, Preloader, load_model_on_best_node, wait_until_resident}
use ollama_herd.Preloader.Plan.{preload_startup, refresh_priority_models}
use ollama_herd.Preloader.Sizing.{
  Learned, PreloaderSettings, kv_measure, observe_kv_cost, learned_gb, loaded_size, sizes_of,
  size_by_name, size_by_token, has_sub,
}
use ollama_herd.Preloader.Wait.{Answered, wait_until_resident_answers}
use ollama_herd.Serializers.{ollama_of}
use ollama_herd.Tests.Samples.{llama, qwen, mini, mini_node, fleet, loaded, ollama_with}

program : Unit {0}
unfolding text_eq Dict.get Dict.set kv_measure loaded_size sizes_of size_by_name size_by_token
    has_sub
program = tt

-- A name whose size stands inside a larger number.
inner_number : size_by_name (text "deepseek-llm:67b") ≡ 5000
unfolding program
inner_number = refl

-- The clock is the state of the fleet; a load always succeeds.
abbrev clocked : Fleet ℕ
clocked = record {
  clock = λ w. w;
  registry = λ w. fleet;
  is_non_generatable = λ w model. false;
  pre_warm = λ node_id model num_ctx w. (true, w + 5000);
  model_priority_scores = λ w. record { model = qwen; priority_score = 12000 } ∷ [];
  recently_used_models = λ w. qwen ∷ [];
  sleep = λ ms w. w + ms;
}

abbrev untaught : Learned
untaught = record { kv_cost = []; observed_ctx = [] }

abbrev fresh_preloader : Preloader
fresh_preloader = record {
  learned = untaught;
  pin_fit_failures = [];
  priority_cache = [];
  priority_cache_time = 0;
}

abbrev settings : PreloaderSettings
settings = record {
  dynamic_num_ctx = false;
  num_ctx_overrides = [];
  pinned_models = text "llama3:8b, qwen35:9b";
  model_preload_max_count = 3;
  disable_model_preloader = false;
}

-- A runner of 6 GB, of which 2 GB are its context's.
abbrev runner : LoadedModel
runner = record (loaded llama (text "d1") 8000) { size_gb = 6000 }

abbrev measured : NodeState
measured = record mini_node {
  ollama =
      some (record (ollama_with (runner ∷ [])) { models_available_sizes = (llama, 4000) ∷ [] });
}

learned_gb-observe_kv_cost_example :
    (learned_gb llama
        (Dict.get_or llama 0 (sizes_of (ollama_of (some measured))))
        (some 8000)
        (observe_kv_cost measured untaught)
      ≡ some 6000)
    × (learned_gb llama
          (Dict.get_or llama 0 (sizes_of (ollama_of (some measured))))
          (some 16000)
          (observe_kv_cost measured untaught)
        ≡ some 8000)
unfolding program
learned_gb-observe_kv_cost_example =
    learned_gb-observe_kv_cost measured runner [] [] (record { mb = 2048000; tokens = 8000 })
      untaught 16000 (omega arith) refl tt refl

wait_until_resident_answers_example :
    (r : Bool × ℕ × ℕ) × (wait_until_resident clocked (some mini) llama 5000 100 ≡ some r)
    × Answered clocked (λ ms w. omega arith) (some mini) llama 5100 r
wait_until_resident_answers_example =
    wait_until_resident_answers clocked (λ ms w. omega arith) (some mini) llama 5000 100

load_model_on_best_node_fits_example :
    LoadFits clocked [] llama (measured ∷ []) (some settings) fresh_preloader 100 (
      load_model_on_best_node clocked [] llama
        (measured ∷ [])
        (text "pinned")
        (some mini)
        (some settings)
        fresh_preloader
        100)
load_model_on_best_node_fits_example =
    load_model_on_best_node_fits clocked [] llama (measured ∷ []) (text "pinned") (some mini)
      (some settings) fresh_preloader 100

-- The same fleet, which counts its loads beside the time.
abbrev counting : Fleet (ℕ × ℕ)
counting = record {
  clock = λ w. w.0;
  registry = λ w. fleet;
  is_non_generatable = λ w model. false;
  pre_warm = λ node_id model num_ctx w. (true, (w.0 + 5000, w.1 + 1));
  model_priority_scores = λ w. record { model = qwen; priority_score = 12000 } ∷ [];
  recently_used_models = λ w. qwen ∷ [];
  sleep = λ ms w. (w.0 + ms, w.1);
}

abbrev number : ℕ × ℕ → ℕ
number w = w.1

counting-Counts : Counts counting number
counting-Counts = record {
  loads-pre_warm = λ node_id model num_ctx w. refl;
  loads-sleep = λ ms w. refl;
}

preload_startup_le_example :
    ((preload_startup counting [] settings 3
        ((llama, none) ∷ (qwen, some mini) ∷ [])
        fresh_preloader
        (100, 0)).loaded_count
      ≤ 3)
    × ((preload_startup counting [] settings 3
          ((llama, none) ∷ (qwen, some mini) ∷ [])
          fresh_preloader
          (100, 0)).world.1
        ≤ 0 + 3)
preload_startup_le_example =
    preload_startup_le counting [] settings 3 number counting-Counts
      ((llama, none) ∷ (qwen, some mini) ∷ []) fresh_preloader (100, 0)

refresh_priority_models_le_example :
    ((refresh_priority_models counting [] settings 3
        ((llama, none) ∷ [])
        fresh_preloader
        (100, 0)).loaded_count
      ≤ 3)
    × ((refresh_priority_models counting [] settings 3
          ((llama, none) ∷ [])
          fresh_preloader
          (100, 0)).world.1
        ≤ 0 + 3)
refresh_priority_models_le_example =
    refresh_priority_models_le counting [] settings 3 number counting-Counts ((llama, none) ∷ [])
      fresh_preloader (100, 0)
