-- ===== src/Preloader/Failures.antt =====
-- The record of pinned models that did not fit stays bounded
-- (src/fleet_manager/server/model_preloader.py).
use ollama_herd.Common.{
  ◌≤◌, Bool, false, Option, none, some, List, [], ◌∷◌, ◌++◌, Text, length, length-append,
  length-drop, arith, if_cases,
}
use ollama_herd.Models.Node.{NodeState}
use ollama_herd.Preloader.Catalog.{ModelSpec}
use ollama_herd.Preloader.Load.{
  Preloader, PinFitFailure, Fleet, refuse, resident_gb, failure_of, nodes_with_model_on_disk,
  best_node, load_on, load_model_on_best_node, record_pin_fit_failure,
}
use ollama_herd.Preloader.Sizing.{PreloaderSettings}

record_pin_fit_failure_bound :
    (e : PinFitFailure) (p : Preloader)
    → length p.pin_fit_failures ≤ 200
    → length (record_pin_fit_failure e p).pin_fit_failures ≤ 200
unfolding record_pin_fit_failure
record_pin_fit_failure_bound e p h =
    let es = p.pin_fit_failures ++ e ∷ [] in
    ground (arith, length-append p.pin_fit_failures (e ∷ []), length-drop 1 es)

refuse_bound :
    (why : Text) (e : PinFitFailure) (p : Preloader)
    → length p.pin_fit_failures ≤ 200
    → length (refuse why e p).pin_fit_failures ≤ 200
unfolding refuse
refuse_bound why e p h = ground (arith, record_pin_fit_failure_bound e p h)

module _ {W : Type 0} (fleet : Fleet W) (catalog : List ModelSpec) where
  load_on_bound :
      (model : Text) (best : NodeState) (why : Text) (settings : Option PreloaderSettings)
      (p : Preloader) (w : W)
      → length p.pin_fit_failures ≤ 200
      → length (load_on fleet catalog model best why settings p w).1.pin_fit_failures ≤ 200
  unfolding load_on
  load_on_bound model best why settings p w h =
      let sized = resident_gb catalog model best settings p in
      let p' : Preloader = record p { learned = sized.1 } in
      let e = failure_of (fleet.clock w) model best sized.0 in
      ground (arith, refuse_bound why e p' h)

  -- A load gives the failures of before, or one more of at most 200.
  load_model_on_best_node_bound :
      (model : Text) (nodes : List NodeState) (why : Text) (target : Option Text)
      (settings : Option PreloaderSettings) (p : Preloader) (w : W)
      → length p.pin_fit_failures ≤ 200
      → length
          (load_model_on_best_node fleet catalog model nodes why target settings p
            w).1.pin_fit_failures
        ≤ 200
  unfolding load_model_on_best_node
  load_model_on_best_node_bound model nodes why target settings p w h =
      if_cases Bounded (fleet.is_non_generatable w model) (λ skip. h)
        λ able. chosen (best_node target (nodes_with_model_on_disk model nodes))
    where
      Bounded : Bool × Preloader × W → Type 0
      Bounded r = length r.1.pin_fit_failures ≤ 200

      chosen :
          (o : Option NodeState)
          → Bounded (elim o [
            | none ↦ (false, p, w)
            | some best ↦ load_on fleet catalog model best why settings p w
          ])
      chosen none = h
      chosen (some best) = load_on_bound model best why settings p w h
