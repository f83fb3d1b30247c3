-- ===== src/Pins/Laws.antt =====
-- What the file of pins keeps (src/fleet_manager/server/pinned_models.py).
use ollama_herd.Common.{
  Bool, true, false, not, ◌&&◌, ◌||◌, List, [], ◌∷◌, ◌++◌, Text, text_eq, text_eq_iff, mem,
  is_empty, if◌then◌else◌, filter, All, ◌≡◌, refl, arith,
}
use ollama_herd.Models.Json.{null, bool, num, str, arr, obj, Items, nil, cons}
use ollama_herd.Pins.{
  is_blank, insert_sorted, sorted_set, clean_models, items_of, change, merge_loop, merge_pins,
}

pub mem-insert_sorted :
    (m x : Text) (ys : List Text) → mem m (insert_sorted x ys) ≡ (text_eq m x || mem m ys)
unfolding insert_sorted
mem-insert_sorted m x [] = refl
mem-insert_sorted m x (y ∷ ys) = ground (arith, mem-insert_sorted m x ys, text_eq_iff x y)

pub mem-sorted_set : (m : Text) (xs : List Text) → mem m (sorted_set xs) ≡ mem m xs
unfolding sorted_set
mem-sorted_set m [] = refl
mem-sorted_set m (x ∷ xs) = rw (mem-insert_sorted m x (sorted_set xs), mem-sorted_set m xs) refl

mem-filter_ne :
    (m x : Text) (ys : List Text)
    → mem m (filter (λ y. not (text_eq y x)) ys) ≡ (mem m ys && not (text_eq m x))
mem-filter_ne m x [] = refl
mem-filter_ne m x (y ∷ ys) =
    ground (arith, mem-filter_ne m x ys, text_eq_iff y x, text_eq_iff m x, text_eq_iff m y)

pub mem-change :
    (m model : Text) (pinned : Bool) (ys : List Text)
    → mem m (change model pinned ys) ≡ (if text_eq m model then pinned else mem m ys)
unfolding change
mem-change m model true ys =
    ground (arith, mem-insert_sorted m model (sorted_set ys), mem-sorted_set m ys)
mem-change m model false ys =
    ground
      (arith, mem-sorted_set m (filter (λ y. not (text_eq y model)) ys), mem-filter_ne m model ys)

-- No model is blank, so that reading keeps it.
abbrev pub NonBlank : List Text → Type 0
NonBlank ms = All (λ m. is_blank m ≡ false) ms

pub clean_models-items_of : (ms : List Text) → NonBlank ms → clean_models (items_of ms) ≡ ms
unfolding clean_models items_of
clean_models-items_of [] h = refl
clean_models-items_of (m ∷ ms) h = rw (h.0, clean_models-items_of ms h.1) refl

insert_sorted-NonBlank :
    (x : Text) (ys : List Text) → is_blank x ≡ false → NonBlank ys → NonBlank (insert_sorted x ys)
unfolding insert_sorted
insert_sorted-NonBlank x [] h hs = (h, tt)
insert_sorted-NonBlank x (y ∷ ys) h hs = ground (arith, insert_sorted-NonBlank x ys)

pub sorted_set-NonBlank : (xs : List Text) → NonBlank xs → NonBlank (sorted_set xs)
unfolding sorted_set
sorted_set-NonBlank [] h = tt
sorted_set-NonBlank (x ∷ xs) h =
    insert_sorted-NonBlank x (sorted_set xs) h.0 (sorted_set-NonBlank xs h.1)

pub clean_models-NonBlank : (xs : Items) → NonBlank (clean_models xs)
unfolding clean_models
clean_models-NonBlank nil = tt
clean_models-NonBlank (cons (str m) xs) = ground (arith, clean_models-NonBlank xs)
clean_models-NonBlank (cons null xs) = clean_models-NonBlank xs
clean_models-NonBlank (cons (bool b) xs) = clean_models-NonBlank xs
clean_models-NonBlank (cons (num n) xs) = clean_models-NonBlank xs
clean_models-NonBlank (cons (arr y) xs) = clean_models-NonBlank xs
clean_models-NonBlank (cons (obj y) xs) = clean_models-NonBlank xs

abbrev pub is_nil : List Text → Bool
is_nil [] = true
is_nil (x ∷ xs) = false

insert_sorted_nonempty : (x : Text) (xs : List Text) → is_nil (insert_sorted x xs) ≡ false
unfolding insert_sorted
insert_sorted_nonempty x [] = refl
insert_sorted_nonempty x (y ∷ ys) = ground arith

filter-NonBlank :
    (x : Text) (ys : List Text) → NonBlank ys → NonBlank (filter (λ y. not (text_eq y x)) ys)
filter-NonBlank x [] h = tt
filter-NonBlank x (y ∷ ys) h = ground (arith, filter-NonBlank x ys)

pub change-NonBlank :
    (model : Text) (pinned : Bool) (ys : List Text)
    → is_blank model ≡ false
    → NonBlank ys
    → NonBlank (change model pinned ys)
unfolding change
change-NonBlank model true ys h hs =
    insert_sorted-NonBlank model (sorted_set ys) h (sorted_set-NonBlank ys hs)
change-NonBlank model false ys h hs =
    sorted_set-NonBlank (filter (λ y. not (text_eq y model)) ys) (filter-NonBlank model ys hs)

pub sorted_set_nonempty : (x : Text) (xs : List Text) → is_nil (sorted_set (x ∷ xs)) ≡ false
unfolding sorted_set
sorted_set_nonempty x xs = insert_sorted_nonempty x (sorted_set xs)

-- No model stands in the list twice, and none is one of `seen`.
abbrev pub NoRepeat : List Text → List Text → Type 0
NoRepeat seen [] = Unit
NoRepeat seen (m ∷ ms) = (mem m seen ≡ false) × (is_empty m ≡ false) × NoRepeat (m ∷ seen) ms

merge_loop-NoRepeat : (seen ms : List Text) → NoRepeat seen (merge_loop seen ms)
unfolding merge_loop
merge_loop-NoRepeat seen [] = tt
merge_loop-NoRepeat seen (m ∷ ms) =
    ground (arith, merge_loop-NoRepeat (m ∷ seen) ms, merge_loop-NoRepeat seen ms)

mem-merge_loop :
    (x : Text) (seen ms : List Text)
    → mem x (merge_loop seen ms) ≡ (not (is_empty x) && mem x ms && not (mem x seen))
unfolding merge_loop
mem-merge_loop x seen [] = ground arith
mem-merge_loop x seen (m ∷ ms) =
    ground (arith, mem-merge_loop x (m ∷ seen) ms, mem-merge_loop x seen ms, text_eq_iff x m)

mem-append : (x : Text) (xs ys : List Text) → mem x (xs ++ ys) ≡ (mem x xs || mem x ys)
mem-append x [] ys = refl
mem-append x (y ∷ xs) ys = ground (arith, mem-append x xs ys)

-- The merged pins are the named ones of the environment and of the node, each once.
pub merge_pins-union :
    (env_pins per_node_pins : List Text) (x : Text)
    → NoRepeat [] (merge_pins env_pins per_node_pins)
      × (mem x (merge_pins env_pins per_node_pins)
          ≡ (not (is_empty x) && (mem x env_pins || mem x per_node_pins)))
unfolding merge_pins
merge_pins-union env_pins per_node_pins x = (
  merge_loop-NoRepeat [] (env_pins ++ per_node_pins),
  ground
      (arith, mem-merge_loop x [] (env_pins ++ per_node_pins), mem-append x env_pins per_node_pins),
)
