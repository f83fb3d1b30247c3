-- ===== src/Tests/Optimizer.antt =====
-- The context optimizer at a node with two loaded models.
use ollama_herd.Common.{
  ℕ, ◌*◌, ◌/◌, ◌≡◌, ◌⊎◌, ◌≤◌, ◌<◌, refl, arith, true, some, [], ◌∷◌, text, text_eq, max,
}
use ollama_herd.Dict
use ollama_herd.Models.Node.{NodeState}
use ollama_herd.ContextOptimizer.{
  TokenStats, ContextOptimizer, double_until, next_power_of_2, compute_recommended_ctx, allocated,
  allocated_ctx, model_nodes, is_operators, is_reduced, optimize, node_overrides, restart_for,
  queue_restarts, each_once, check_and_optimize, edit_overrides,
}
use ollama_herd.ContextOptimizer.Recommend.{doubled, compute_recommended_ctx_bounds}
use ollama_herd.Tests.Samples.{llama, qwen, mini_node, loaded, ollama_with}

program : Unit {0}
unfolding text_eq Dict.get Dict.set double_until next_power_of_2 compute_recommended_ctx allocated
    allocated_ctx model_nodes is_operators is_reduced optimize node_overrides restart_for
    queue_restarts each_once check_and_optimize edit_overrides
program = tt

abbrev both : NodeState
both = record mini_node {
  ollama =
      some (ollama_with (loaded llama (text "d1") 131072 ∷ loaded qwen (text "d2") 131072 ∷ []));
}

-- An operator has set the context of one of the two.
abbrev optimizer : ContextOptimizer
optimizer = record {
  num_ctx_overrides = (llama, 131072) ∷ [];
  auto_set = [];
  last_restart = [];
  pending_commands = [];
}

abbrev small_prompts : TokenStats
small_prompts = record { model = qwen; total_p99 = 3000; max_total_24h = 2000; request_count = 80 }

-- The other one is reduced to 8192, and the restart of the node is an error.
reduced_without_restart :
    check_and_optimize 5000 true (both ∷ []) (small_prompts ∷ []) optimizer ≡ (
      record optimizer {
        num_ctx_overrides = (llama, 131072) ∷ (qwen, 8192) ∷ [];
        auto_set = qwen ∷ [];
      },
      true,
    )
unfolding program
reduced_without_restart = refl

-- An edit of a model that the optimizer has set before is taken back by the next check.
edit_taken_back :
    (check_and_optimize 5000 true (both ∷ []) (small_prompts ∷ []) (
      edit_overrides
        ((qwen, 131072) ∷ [])
        (record optimizer { auto_set = qwen ∷ [] }))).0.num_ctx_overrides
    ≡ (qwen, 8192) ∷ []
unfolding program
edit_taken_back = refl

compute_recommended_ctx_bounds_example :
    (4096 ≤ compute_recommended_ctx 3000 2000 4096)
    × (max 3000 2000 * 3 / 2 ≤ compute_recommended_ctx 3000 2000 4096)
    × ((compute_recommended_ctx 3000 2000 4096 ≡ 4096)
        ⊎ ((compute_recommended_ctx 3000 2000 4096 < 2 * (max 3000 2000 * 3 / 2))
            × ((k : ℕ) × (compute_recommended_ctx 3000 2000 4096 ≡ doubled k 1))))
compute_recommended_ctx_bounds_example = compute_recommended_ctx_bounds 3000 2000 4096 (omega arith)
