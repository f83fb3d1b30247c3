-- ===== src/Preloader/Plan.antt =====
-- The plan of pinned models, and the start and a refresh of the preloader
-- (src/fleet_manager/server/model_preloader.py).
use ollama_herd.Common.{
  ℕ, zero, suc, ◌+◌, ◌-◌, Bool, true, false, not, ◌&&◌, ◌||◌, Option, none, some, List, [], ◌∷◌,
  ◌++◌, Text, text, is_empty, mem, if◌then◌else◌, ltb, leb, ◌==◌, take, filter, map, max,
}
use ollama_herd.Dict.{Dict}
use ollama_herd.Models.Node.{NodeState, loaded_names}
use ollama_herd.Pins.{is_space}
use ollama_herd.Preloader.Catalog.{ModelSpec}
use ollama_herd.Preloader.Load.{
  Preloader, Priority, Fleet, is_nil, model_is_loaded_anywhere, load_model_on_best_node,
  get_cached_priorities,
}
use ollama_herd.Preloader.Sizing.{PreloaderSettings}
use ollama_herd.Registry.{get_online_nodes}

-- `s.lstrip()`, `s.rstrip()` and `s.strip()`
unfoldable pub lstrip : Text → Text
lstrip [] = []
lstrip (c ∷ s) = let rest = lstrip s in if is_space c then rest else c ∷ s

unfoldable pub rstrip : Text → Text
rstrip [] = []
rstrip (c ∷ s) = let rest = rstrip s in if is_empty rest && is_space c then [] else c ∷ rest

abbrev pub strip : Text → Text
strip s = rstrip (lstrip s)

abbrev prepend : ℕ → List Text → List Text
prepend c [] = (c ∷ []) ∷ []
prepend c (t ∷ ts) = (c ∷ t) ∷ ts

-- `s.split(",")`
unfoldable pub split_commas : Text → List Text
split_commas [] = [] ∷ []
split_commas (c ∷ s) = let rest = split_commas s in if c == b',' then [] ∷ rest else prepend c rest

-- The names in `FLEET_PINNED_MODELS`.
unfoldable pub parse_pinned_models : Text → List Text
parse_pinned_models setting = filter (λ m. not (is_empty m)) (map strip (split_commas setting))

-- A model, and the node it is pinned to, if any.
abbrev pub Pin : Type 0
Pin = Text × Option Text

-- The models of one node: `seen` are those that are in the plan.
unfoldable pub node_pins : Text → List Text → List Text → List Pin
node_pins node_id seen [] = []
node_pins node_id seen (m ∷ ms) =
    let kept = (m, some node_id) ∷ node_pins node_id (m ∷ seen) ms in
    let skipped = node_pins node_id seen ms in
    if not (is_empty m) && not (mem m seen) then kept else skipped

-- The keys of a `dict` are distinct, so that what was seen is seen on one node.
unfoldable pub per_node_plan : Dict (List Text) → List Pin
per_node_plan [] = []
per_node_plan ((node_id, models) ∷ d) = node_pins node_id [] models ++ per_node_plan d

unfoldable pub build_pinned_plan : List Text → Dict (List Text) → List Pin
build_pinned_plan env_pins per_node_map =
    map (λ m. (m, none)) (filter (λ m. not (is_empty m)) env_pins) ++ per_node_plan per_node_map

-- `list(dict.fromkeys([m for m, _ in plan]))`, asked only for membership
abbrev pub pinned_names : List Pin → List Text
pinned_names plan = map (λ e. e.0) plan

-- `f"{word}:{target}" if target else word`
unfoldable pub why_pinned : Text → Option Text → Text
why_pinned word none = word
why_pinned word (some target) = if is_empty target then word else word ++ (b':' ∷ target)

-- The local state of a run: what was loaded, the nodes that were last seen, the models that were
-- hot, and the globals and the fleet.
pub record Run (W : Type 0) : Type 0 where
  pub loaded_count : ℕ
  pub nodes : List NodeState
  pub hot_models : List Text
  pub preloader : Preloader
  pub world : W

-- The names of the models that the nodes have loaded.
unfoldable pub hot_names : List NodeState → List Text
hot_names [] = []
hot_names (n ∷ ns) = elim n.ollama [ none ↦ hot_names ns | some o ↦ loaded_names o ++ hot_names ns ]

unfoldable pub distinct_count : List Text → ℕ
distinct_count [] = 0
distinct_count (t ∷ ts) = let rest = distinct_count ts in if mem t ts then rest else suc rest

module _ {W : Type 0} (fleet : Fleet W) (catalog : List ModelSpec) (settings : PreloaderSettings)
    (max_count : ℕ) where
  -- After a load: `await asyncio.sleep(2)`, and the nodes are read again.
  unfoldable pub count_load : Run W → Bool × Preloader × W → Run W
  count_load r (false, p, w) = record r { preloader = p; world = w }
  count_load r (true, p, w) =
      let w' = fleet.sleep 2000 w in
      record r {
        loaded_count = r.loaded_count + 1;
        nodes = get_online_nodes (fleet.registry w');
        preloader = p;
        world = w';
      }

  unfoldable pub load : Text → Text → Option Text → Run W → Run W
  load model why target r = count_load r (
      load_model_on_best_node fleet catalog model r.nodes why target (some settings) r.preloader
        r.world)

  -- Step 1 of the start: a pin that is hot counts too, and the loop ends at `max_count`.
  unfoldable pub load_pinned : List Pin → Run W → Run W
  load_pinned [] r = r
  load_pinned ((model, target) ∷ plan) r =
      let hot = load_pinned plan (record r { loaded_count = r.loaded_count + 1 }) in
      let tried = load_pinned plan (load model (why_pinned (text "pinned") target) target r) in
      if leb max_count r.loaded_count
      then r
      else if model_is_loaded_anywhere model r.nodes
      then hot
      else tried

  -- Step 2 of the start: scores are in falling order, and below 1 the loop ends.
  unfoldable pub fill_priorities : List Text → List Priority → Run W → Run W
  fill_priorities pinned [] r = r
  fill_priorities pinned (e ∷ es) r =
      let skipped = fill_priorities pinned es r in
      let tried = fill_priorities pinned es (load e.model (text "priority score") none r) in
      if leb max_count r.loaded_count
      then r
      else if ltb e.priority_score 1000
      then r
      else if mem e.model pinned || model_is_loaded_anywhere e.model r.nodes
      then skipped
      else tried

  -- The local state before the first load.
  abbrev pub first_run : List Text → Preloader → W → Run W
  first_run hot p w = record {
    loaded_count = 0;
    nodes = get_online_nodes (fleet.registry w);
    hot_models = hot;
    preloader = p;
    world = w;
  }

  -- The start, once nodes are there.
  unfoldable pub preload_startup : List Pin → Preloader → W → Run W
  preload_startup plan p w =
      let r = load_pinned plan (first_run [] p w) in
      let scores = get_cached_priorities fleet r.preloader r.world in
      fill_priorities (pinned_names plan) scores.0 (record r { preloader = scores.1 })

  -- `hot_models` after a load of a refresh takes in what the nodes now have.
  unfoldable pub note_hot : ℕ → Run W → Run W
  note_hot before r =
      if ltb before r.loaded_count
      then record r { hot_models = r.hot_models ++ hot_names r.nodes }
      else r

  -- Step 1 of a refresh: every pinned model that is not hot is loaded again.
  unfoldable pub refresh_pinned : List Pin → Run W → Run W
  refresh_pinned [] r = r
  refresh_pinned ((model, target) ∷ plan) r =
      let skipped = refresh_pinned plan r in
      let loaded = load model (why_pinned (text "pinned-refresh") target) target r in
      let tried = refresh_pinned plan (note_hot r.loaded_count loaded) in
      if leb max_count r.loaded_count then r else if mem model r.hot_models then skipped else tried

  -- Step 2 of a refresh. `remaining_budget` falls as `loaded_count` rises from `start`.
  unfoldable pub refresh_priorities : List Text → ℕ → ℕ → List Priority → Run W → Run W
  refresh_priorities recent budget start [] r = r
  refresh_priorities recent budget start (e ∷ es) r =
      let skipped = refresh_priorities recent budget start es r in
      let tried =
        refresh_priorities recent budget start es
          (load e.model (text "priority-refresh score") none r) in
      if leb (start + budget) r.loaded_count
      then r
      else if mem e.model r.hot_models || not (mem e.model recent)
      then skipped
      else tried

  -- `max_count - max(currently_hot_count, loaded_this_cycle)`, where it is not below zero.
  abbrev pub remaining_budget : ℕ → ℕ → ℕ
  remaining_budget currently_hot_count loaded_this_cycle =
      max_count - max currently_hot_count loaded_this_cycle

  -- Of the priorities, those that score at least 10 and are not pinned, `max_count` at most.
  unfoldable pub top_priorities : List Text → List Priority → List Priority
  top_priorities pinned es =
      take max_count (filter (λ e. leb 10000 e.priority_score && not (mem e.model pinned)) es)

  unfoldable pub refresh_with : List Pin → ℕ → Run W → Run W
  refresh_with plan currently_hot_count r =
      let scores = get_cached_priorities fleet r.preloader r.world in
      let r' : Run W = record r { preloader = scores.1 } in
      let budget = remaining_budget currently_hot_count r.loaded_count in
      let recent = fleet.recently_used_models r.world in
      if is_nil scores.0
      then r'
      else refresh_priorities recent budget r.loaded_count
          (top_priorities (pinned_names plan) scores.0) r'

  -- `_refresh_priority_models`; nothing is done where no node is online.
  unfoldable pub refresh_priority_models : List Pin → Preloader → W → Run W
  refresh_priority_models plan p w =
      let nodes = get_online_nodes (fleet.registry w) in
      let first = first_run (hot_names nodes) p w in
      let pinned = refresh_pinned plan first in
      if is_nil nodes then first else refresh_with plan (distinct_count first.hot_models) pinned

-- The wait for a first node: 60 looks, a second apart, and the fleet then.
unfoldable pub wait_for_nodes : {W : Type 0} → Fleet W → ℕ → W → Option W
wait_for_nodes fleet zero w = none
wait_for_nodes fleet (suc looks) w =
    let later = wait_for_nodes fleet looks (fleet.sleep 1000 w) in
    if is_nil (get_online_nodes (fleet.registry w)) then later else some w

-- `preload_priority_models` up to its refresh loop; nothing where it returns before.
unfoldable pub preload_priority_models :
    {W : Type 0}
    → Fleet W
    → List ModelSpec
    → PreloaderSettings
    → Dict (List Text)
    → Preloader
    → W
    → Option (Run W)
preload_priority_models fleet catalog settings per_node_map p w =
    let plan = build_pinned_plan (parse_pinned_models settings.pinned_models) per_node_map in
    elim (wait_for_nodes fleet 60 w) [
      | none ↦ none
      | some w' ↦
          if settings.disable_model_preloader
          then none
          else some (
              preload_startup fleet catalog settings settings.model_preload_max_count plan p
                (fleet.sleep 3000 w'))
    ]
