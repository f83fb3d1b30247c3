-- ===== src/Preloader/Budget.antt =====
-- The preloader loads no more than its budget
-- (src/fleet_manager/server/model_preloader.py).
use ollama_herd.Common.{
  ℕ, ◌+◌, ◌-◌, ◌≤◌, ◌≡◌, Bool, true, false, not, ◌||◌, Option, none, some, List, [], ◌∷◌, Text,
  text, mem, ltb, leb, if◌then◌else◌, max, arith, if_cases,
}
use ollama_herd.Models.Node.{NodeState}
use ollama_herd.Preloader.Catalog.{ModelSpec}
use ollama_herd.Preloader.Load.{
  Preloader, Priority, Fleet, is_nil, is_too_big, resident_gb, model_is_loaded_anywhere,
  nodes_with_model_on_disk, best_node, load_on, load_model_on_best_node, get_cached_priorities,
}
use ollama_herd.Preloader.Plan.{
  Run, Pin, first_run, why_pinned, count_load, load, note_hot, load_pinned, fill_priorities,
  preload_startup, refresh_pinned, refresh_priorities, refresh_with, refresh_priority_models,
  pinned_names, distinct_count, hot_names,
}
use ollama_herd.Preloader.Sizing.{PreloaderSettings, num_ctx_override}
use ollama_herd.Registry.{get_online_nodes}

-- `loads` counts the pre-warms that return, each of which loads one model.
pub record Counts {W : Type 0} (fleet : Fleet W) (loads : W → ℕ) : Type 0 where
  pub loads-pre_warm :
      (node_id model : Text) (num_ctx : Option ℕ) (w : W)
      → loads (fleet.pre_warm node_id model num_ctx w).1
        ≡ loads w + (if (fleet.pre_warm node_id model num_ctx w).0 then 1 else 0)
  pub loads-sleep : (ms : ℕ) (w : W) → loads (fleet.sleep ms w) ≡ loads w

module _ {W : Type 0} (fleet : Fleet W) (catalog : List ModelSpec) where
  -- A load that returns true is one load, and one that returns false is none.
  load_model_on_best_node_loads :
      (loads : W → ℕ) (counts : Counts fleet loads) (model : Text) (nodes : List NodeState)
      (why : Text) (target : Option Text) (settings : Option PreloaderSettings) (p : Preloader)
      (w : W)
      → loads (load_model_on_best_node fleet catalog model nodes why target settings p w).2
        ≡ loads w
          + (if (load_model_on_best_node fleet catalog model nodes why target settings p w).0
              then 1
              else 0)
  unfolding load_model_on_best_node load_on
  load_model_on_best_node_loads loads counts model nodes why target settings p w =
      if_cases Loaded (fleet.is_non_generatable w model) (λ skip. omega arith)
        λ able. chosen (best_node target (nodes_with_model_on_disk model nodes))
    where
      Loaded : Bool × Preloader × W → Type 0
      Loaded r = loads r.2 ≡ loads w + (if r.0 then 1 else 0)

      chosen :
          (o : Option NodeState)
          → Loaded (elim o [
            | none ↦ (false, p, w)
            | some best ↦ load_on fleet catalog model best why settings p w
          ])
      chosen none = omega arith
      chosen (some best) =
          let sized = resident_gb catalog model best settings p in
          if_cases Loaded (is_too_big model best sized.0) (λ big. omega arith)
            (λ fits. counts.loads-pre_warm best.node_id model (num_ctx_override model settings) w)

  module _ (settings : PreloaderSettings) (max_count : ℕ) (loads : W → ℕ)
      (counts : Counts fleet loads) where
    -- From one state of a run to a later one: the count grows by one at most, and by no less than the
    -- loads do.
    abbrev IsCounted : Run W → Run W → Type 0
    IsCounted r x =
        (x.loaded_count ≤ r.loaded_count + 1)
        × (loads x.world + r.loaded_count ≤ loads r.world + x.loaded_count)

    -- A count within the limit, and no more loads since `base` than it.
    abbrev Within : ℕ → ℕ → Run W → Type 0
    Within base limit x = (x.loaded_count ≤ limit) × (loads x.world ≤ base + x.loaded_count)

    load_le :
        (model why : Text) (target : Option Text) (r : Run W)
        → IsCounted r (load fleet catalog settings max_count model why target r)
    unfolding load
    load_le model why target r =
        counted
          (load_model_on_best_node fleet catalog model r.nodes why target (some settings)
            r.preloader r.world)
          (load_model_on_best_node_loads loads counts model r.nodes why target (some settings)
            r.preloader r.world)
      where
        counted :
            (o : Bool × Preloader × W)
            → loads o.2 ≡ loads r.world + (if o.0 then 1 else 0)
            → IsCounted r (count_load fleet catalog settings max_count r o)
        counted (true, p, w) e =
            unfold count_load in (omega arith, omega (arith, counts.loads-sleep 2000 w, e))
        counted (false, p, w) e = unfold count_load in (omega arith, omega (arith, e))

    -- The first step of the start stays within the budget.
    load_pinned_le :
        (base : ℕ) (plan : List Pin) (r : Run W)
        → Within base max_count r
        → Within base max_count (load_pinned fleet catalog settings max_count plan r)
    unfolding load_pinned
    load_pinned_le base [] r h = h
    load_pinned_le base ((model, target) ∷ plan) r h =
        if_cases Fits (leb max_count r.loaded_count) (λ full. h)
          λ room.
            if_cases Fits (model_is_loaded_anywhere model r.nodes)
              (λ hot. load_pinned_le base plan _ (ground arith, ground arith))
              λ cold.
                let one = load_le model (why_pinned (text "pinned") target) target r in
                load_pinned_le base plan _ (ground (arith, one.0), omega (arith, one.1, h.1))
      where
        Fits : Run W → Type 0
        Fits = Within base max_count

    fill_priorities_le :
        (base : ℕ) (pinned : List Text) (es : List Priority) (r : Run W)
        → Within base max_count r
        → Within base max_count (fill_priorities fleet catalog settings max_count pinned es r)
    unfolding fill_priorities
    fill_priorities_le base pinned [] r h = h
    fill_priorities_le base pinned (e ∷ es) r h =
        if_cases Fits (leb max_count r.loaded_count) (λ full. h)
          λ room.
            if_cases Fits (ltb e.priority_score 1000) (λ rare. h)
              λ used.
                if_cases Fits (mem e.model pinned || model_is_loaded_anywhere e.model r.nodes)
                  (λ hot. fill_priorities_le base pinned es r h)
                  λ cold.
                    let one = load_le e.model (text "priority score") none r in
                    fill_priorities_le base pinned es _
                      (ground (arith, one.0), omega (arith, one.1, h.1))
      where
        Fits : Run W → Type 0
        Fits = Within base max_count

    -- The start makes no more loads than the budget, a load being a pre-warm that returns, and its count
    -- of loads and of pinned models that are hot already stays within the budget too.
    pub preload_startup_le :
        (plan : List Pin) (p : Preloader) (w : W)
        → ((preload_startup fleet catalog settings max_count plan p w).loaded_count ≤ max_count)
          × (loads (preload_startup fleet catalog settings max_count plan p w).world
              ≤ loads w + max_count)
    unfolding preload_startup
    preload_startup_le plan p w =
        let first = first_run fleet catalog settings max_count [] p w in
        let pinned = load_pinned_le (loads w) plan first (omega arith, omega arith) in
        let r = load_pinned fleet catalog settings max_count plan first in
        let scores = get_cached_priorities fleet r.preloader r.world in
        let end =
          fill_priorities_le (loads w) (pinned_names plan) scores.0
            (record r { preloader = scores.1 }) pinned in
        (end.0, omega (arith, end.0, end.1))

    loaded_count-note_hot :
        (before : ℕ) (r : Run W)
        → ((note_hot fleet catalog settings max_count before r).loaded_count ≡ r.loaded_count)
          × ((note_hot fleet catalog settings max_count before r).world ≡ r.world)
    unfolding note_hot
    loaded_count-note_hot before r = (ground arith, ground arith)

    refresh_pinned_le :
        (base : ℕ) (plan : List Pin) (r : Run W)
        → Within base max_count r
        → Within base max_count (refresh_pinned fleet catalog settings max_count plan r)
    unfolding refresh_pinned
    refresh_pinned_le base [] r h = h
    refresh_pinned_le base ((model, target) ∷ plan) r h =
        if_cases Fits (leb max_count r.loaded_count) (λ full. h)
          λ room.
            if_cases Fits (mem model r.hot_models) (λ hot. refresh_pinned_le base plan r h)
              λ cold.
                let why = why_pinned (text "pinned-refresh") target in
                let x = load fleet catalog settings max_count model why target r in
                let noted = loaded_count-note_hot r.loaded_count x in
                let one = load_le model why target r in
                let inside : Within base max_count x =
                  (ground (arith, one.0), omega (arith, one.1, h.1)) in
                refresh_pinned_le base plan
                  (note_hot fleet catalog settings max_count r.loaded_count x)
                  (rw (noted.0, noted.1) inside)
      where
        Fits : Run W → Type 0
        Fits = Within base max_count

    refresh_priorities_le :
        (base : ℕ) (recent : List Text) (budget start : ℕ) (es : List Priority) (r : Run W)
        → Within base (start + budget) r
        → Within base
            (start + budget)
            (refresh_priorities fleet catalog settings max_count recent budget start es r)
    unfolding refresh_priorities
    refresh_priorities_le base recent budget start [] r h = h
    refresh_priorities_le base recent budget start (e ∷ es) r h =
        if_cases Fits (leb (start + budget) r.loaded_count) (λ full. h)
          λ room.
            if_cases Fits (mem e.model r.hot_models || not (mem e.model recent))
              (λ skip. refresh_priorities_le base recent budget start es r h)
              λ cold.
                let one = load_le e.model (text "priority-refresh score") none r in
                refresh_priorities_le base recent budget start es _
                  (ground (arith, one.0), omega (arith, one.1, h.1))
      where
        Fits : Run W → Type 0
        Fits = Within base (start + budget)

    refresh_with_le :
        (base : ℕ) (plan : List Pin) (hot : ℕ) (r : Run W)
        → loads r.world ≤ base + r.loaded_count
        → Within base
            (r.loaded_count + (max_count - max hot r.loaded_count))
            (refresh_with fleet catalog settings max_count plan hot r)
    unfolding refresh_with
    refresh_with_le base plan hot r h =
        if_cases (Within base (r.loaded_count + (max_count - max hot r.loaded_count)))
          (is_nil (get_cached_priorities fleet r.preloader r.world).0) (λ nothing. (omega arith, h))
          λ some_scores. refresh_priorities_le base _ _ r.loaded_count _ _ (omega arith, h)

    -- A refresh makes no more loads than the budget, those of pinned models included, a load being a
    -- pre-warm that returns; its count of them stays within the budget too.
    pub refresh_priority_models_le :
        (plan : List Pin) (p : Preloader) (w : W)
        → ((refresh_priority_models fleet catalog settings max_count plan p w).loaded_count
            ≤ max_count)
          × (loads (refresh_priority_models fleet catalog settings max_count plan p w).world
              ≤ loads w + max_count)
    unfolding refresh_priority_models
    refresh_priority_models_le plan p w =
        if_cases Fits (is_nil (get_online_nodes (fleet.registry w)))
          (λ nobody. (omega arith, omega arith))
          λ nodes.
            let hot = hot_names (get_online_nodes (fleet.registry w)) in
            let start = first_run fleet catalog settings max_count hot p w in
            let r = refresh_pinned fleet catalog settings max_count plan start in
            let first = refresh_pinned_le (loads w) plan start (omega arith, omega arith) in
            let end = refresh_with_le (loads w) plan (distinct_count hot) r first.1 in
            (omega (arith, first.0, end.0), omega (arith, first.0, end.0, end.1))
      where
        Fits : Run W → Type 0
        Fits x = (x.loaded_count ≤ max_count) × (loads x.world ≤ loads w + max_count)
