-- ===== src/Preloader/Choice.antt =====
-- The preloader loads only what fits, and where it fits
-- (src/fleet_manager/server/model_preloader.py).
use ollama_herd.Common.{
  ℕ, zero, suc, ◌≤◌, ◌≡◌, ◌⊎◌, refl, sym, subst, ◌∙◌, ap, Bool, true, false, not, ◌&&◌, Option,
  none, some, List, [], ◌∷◌, Text, text_eq, if◌then◌else◌, ltb, get_elem?, arith, Bool-cases,
  Option-cases, inl, inr,
}
use ollama_herd.Models.Node.{NodeState}
use ollama_herd.Preloader.Catalog.{ModelSpec}
use ollama_herd.Preloader.Load.{
  Preloader, Fleet, is_too_big, resident_gb, has_on_disk, nodes_with_model_on_disk, find_node,
  most_free, targeted, best_node, load_on, load_model_on_best_node,
}
use ollama_herd.Preloader.Sizing.{PreloaderSettings, num_ctx_override}
use ollama_herd.Scorer.{free_gb}
use ollama_herd.Serializers.{model_resident_on_node}

-- The node has a place in the list.
abbrev pub Among : NodeState → List NodeState → Type 0
Among n ns = (i : ℕ) × (get_elem? ns i ≡ some n)

-- A load has left the fleet as it was, or it has asked for the model on a node of the list that has
-- it on disk, where the model is resident or its expected cost is no more than the free memory.
abbrev pub LoadFits :
    {W : Type 0}
    → Fleet W
    → List ModelSpec
    → Text
    → List NodeState
    → Option PreloaderSettings
    → Preloader
    → W
    → Bool × Preloader × W
    → Type 0
LoadFits fleet catalog model nodes settings p w r =
    ((r.0 ≡ false) × (r.2 ≡ w))
    ⊎ ((best : NodeState) × Among best nodes
        × (has_on_disk model best ≡ true)
        × ((model_resident_on_node model best ≡ true)
            ⊎ ((resident_gb catalog model best settings p).0 ≤ free_gb best.memory))
        × (r.2 ≡ (fleet.pre_warm best.node_id model (num_ctx_override model settings) w).1))

Among-cons : (m n : NodeState) (ns : List NodeState) → Among n ns → Among n (m ∷ ns)
Among-cons m n ns (i, e) = (suc i, e)

-- A member of a list without its second node is a member.
Among-skip : (m k n : NodeState) (ns : List NodeState) → Among n (m ∷ ns) → Among n (m ∷ (k ∷ ns))
Among-skip m k n ns (zero, e) = (zero, e)
Among-skip m k n ns (suc i, e) = (suc (suc i), e)

most_free-Among : (best : NodeState) (ns : List NodeState) → Among (most_free best ns) (best ∷ ns)
unfolding most_free
most_free-Among best [] = (0, refl)
most_free-Among best (n ∷ ns) = elim (Bool-cases (ltb (free_gb best.memory) (free_gb n.memory))) [
  | inl more ↦ rw more (Among-cons best (most_free n ns) (n ∷ ns) (most_free-Among n ns))
  | inr less ↦ rw less (Among-skip best n (most_free best ns) ns (most_free-Among best ns))
]

find_node-Among :
    (node_id : Text) (ns : List NodeState) (n : NodeState)
    → find_node node_id ns ≡ some n
    → Among n ns
unfolding find_node
find_node-Among node_id [] n e = cc
find_node-Among node_id (m ∷ ns) n e = elim (Bool-cases (text_eq m.node_id node_id)) [
  | inl here ↦ (0, ground arith)
  | inr there ↦ Among-cons m n ns (find_node-Among node_id ns n (ground arith))
]

targeted-Among :
    (target : Option Text) (ns : List NodeState) (n : NodeState)
    → targeted target ns ≡ some n
    → Among n ns
targeted-Among none ns n e = cc
targeted-Among (some t) ns n e = find_node-Among t ns n (ground arith)

best_node-Among :
    (target : Option Text) (ns : List NodeState) (n : NodeState)
    → best_node target ns ≡ some n
    → Among n ns
unfolding best_node
best_node-Among target [] n e = cc
best_node-Among target (m ∷ ns) n e = elim (Option-cases (targeted target (m ∷ ns))) [
  | inl open_choice ↦
      let same : most_free m ns ≡ n = ground arith in
      subst (λ x. Among x (m ∷ ns)) same (most_free-Among m ns)
  | inr (t, chosen) ↦
      let same : t ≡ n = ground arith in targeted-Among target (m ∷ ns) n (chosen ∙ ap some same)
]

on_disk-Among :
    (model : Text) (ns : List NodeState) (n : NodeState)
    → Among n (nodes_with_model_on_disk model ns)
    → Among n ns × (has_on_disk model n ≡ true)
unfolding nodes_with_model_on_disk
on_disk-Among model [] n (i, e) = cc
on_disk-Among model (m ∷ ns) n a =
    step (has_on_disk model m) refl (nodes_with_model_on_disk model ns) (on_disk-Among model ns n) a
  where
    step :
        (b : Bool)
        → has_on_disk model m ≡ b
        → (rest : List NodeState) → (Among n rest → Among n ns × (has_on_disk model n ≡ true))
        → Among n (if b then m ∷ rest else rest)
        → Among n (m ∷ ns) × (has_on_disk model n ≡ true)
    step true has rest ih (zero, e) =
        let same : m ≡ n = ground arith in ((0, e), ap (has_on_disk model) (sym same) ∙ has)
    step true has rest ih (suc i, e) = let found = ih (i, e) in (Among-cons m n ns found.0, found.1)
    step false has rest ih x = let found = ih x in (Among-cons m n ns found.0, found.1)

module _ {W : Type 0} (fleet : Fleet W) (catalog : List ModelSpec) where
  load_on-cases :
      (model : Text) (best : NodeState) (nodes : List NodeState) (why : Text)
      (settings : Option PreloaderSettings) (p : Preloader) (w : W)
      → Among best nodes
      → has_on_disk model best ≡ true
      → LoadFits fleet catalog model nodes settings p w
          (load_on fleet catalog model best why settings p w)
  unfolding load_on is_too_big
  load_on-cases model best nodes why settings p w here disk =
      let cost = (resident_gb catalog model best settings p).0 in
      elim (Bool-cases
        (not (model_resident_on_node model best) && ltb (free_gb best.memory) cost)) [
          | inl big ↦ rw big (inl (refl, refl))
          | inr fits ↦ rw fits (inr (best, here, disk, room fits, refl))
        ]
    where
      room :
          not (model_resident_on_node model best)
              && ltb (free_gb best.memory) (resident_gb catalog model best settings p).0
            ≡ false
          → (model_resident_on_node model best ≡ true)
            ⊎ ((resident_gb catalog model best settings p).0 ≤ free_gb best.memory)
      room fits = ground arith

  -- A load either leaves the fleet as it was and reports failure, or asks for the model on one of
  -- the nodes given, which has it on disk, and where the model is resident already or is expected to
  -- cost no more than the free memory.
  pub load_model_on_best_node_fits :
      (model : Text) (nodes : List NodeState) (why : Text) (target : Option Text)
      (settings : Option PreloaderSettings) (p : Preloader) (w : W)
      → LoadFits fleet catalog model nodes settings p w
          (load_model_on_best_node fleet catalog model nodes why target settings p w)
  unfolding load_model_on_best_node
  load_model_on_best_node_fits model nodes why target settings p w =
      elim (Bool-cases (fleet.is_non_generatable w model)) [
        | inl skip ↦ rw skip (inl (refl, refl))
        | inr able ↦ rw able (chosen (best_node target (nodes_with_model_on_disk model nodes)) refl)
      ]
    where
      chosen :
          (o : Option NodeState)
          → best_node target (nodes_with_model_on_disk model nodes) ≡ o
          → LoadFits fleet catalog model nodes settings p w (elim o [
            | none ↦ (false, p, w)
            | some best ↦ load_on fleet catalog model best why settings p w
          ])
      chosen none e = inl (refl, refl)
      chosen (some best) e =
          let found =
            on_disk-Among model nodes best
              (best_node-Among target (nodes_with_model_on_disk model nodes) best e) in
          load_on-cases model best nodes why settings p w found.0 found.1
