-- ===== src/Pins/Roundtrip.antt =====
-- The file of pins is read back as it was written (src/fleet_manager/server/pinned_models.py).
use ollama_herd.Common.{
  ℕ, Bool, true, false, ◌&&◌, Option, none, some, List, [], ◌∷◌, Text, text, text_eq, text_eq_iff,
  mem, is_empty, if◌then◌else◌, ◌≡◌, refl, sym, subst, ◌∙◌, arith, Option-cases, inl, inr,
}
use ollama_herd.Dict.{Dict}
use ollama_herd.Dict
use ollama_herd.Dict.Unique.{Unique, set-Unique, pop-Unique}
use ollama_herd.Models.Json.{
  Json, null, bool, num, str, arr, obj, Fields, end, field, get_field, truthy,
}
use ollama_herd.Pins.{
  is_blank, sorted_set, File, missing, unreadable, document, clean_models, keep_clean, sanitize,
  load, items_of, insert_field, nodes_object, write_atomic, change, store_pins, set_pin, load_nodes,
}
use ollama_herd.Pins.Laws.{
  NonBlank, is_nil, mem-sorted_set, mem-change, clean_models-items_of, clean_models-NonBlank,
  sorted_set-NonBlank, change-NonBlank, sorted_set_nonempty,
}

abbrev pins_of : List Text → Option (List Text)
pins_of [] = none
pins_of (m ∷ ms) = some (sorted_set (m ∷ ms))

abbrev value_pins : Json → Option (List Text)
value_pins (arr models) = pins_of (clean_models models)
value_pins _ = none

-- What the sanitized fields hold for a node: the last value counts.
found : Text → Fields → Option (List Text)
found k end = none
found k (field j v fs) = elim (found k fs) [
  | some ms ↦ some ms
  | none ↦ if text_eq j k then value_pins v else none
]

get-keep_clean :
    (k j : Text) (ms : List Text) (out : Dict (List Text))
    → Dict.get k (keep_clean j ms out) ≡ (elim (if text_eq j k then pins_of ms else none) [
      | some x ↦ some x
      | none ↦ Dict.get k out
    ])
get-keep_clean k j [] out = ground arith
get-keep_clean k j (m ∷ ms) out = ground (arith, Dict.get-set j k (sorted_set (m ∷ ms)) out)

get-sanitize :
    (k : Text) (fs : Fields) (out : Dict (List Text))
    → Dict.get k (sanitize fs out) ≡ (elim (found k fs) [ some x ↦ some x | none ↦ Dict.get k out ])
unfolding sanitize found
get-sanitize k end out = refl
get-sanitize k (field j (arr xs) fs) out = ground (
  arith,
  get-sanitize k fs (keep_clean j (clean_models xs) out),
  get-keep_clean k j (clean_models xs) out,
)
get-sanitize k (field j null fs) out = ground (arith, get-sanitize k fs out)
get-sanitize k (field j (bool b) fs) out = ground (arith, get-sanitize k fs out)
get-sanitize k (field j (num n) fs) out = ground (arith, get-sanitize k fs out)
get-sanitize k (field j (str s) fs) out = ground (arith, get-sanitize k fs out)
get-sanitize k (field j (obj x) fs) out = ground (arith, get-sanitize k fs out)

found-insert_field :
    (k j : Text) (v : Json) (fs : Fields)
    → found j fs ≡ none
    → found k (insert_field j v fs) ≡ (if text_eq j k then value_pins v else found k fs)
unfolding found insert_field
found-insert_field k j v end h = refl
found-insert_field k j v (field i w fs) h =
    ground (arith, found-insert_field k j v fs, text_eq_iff j k, text_eq_iff i k, text_eq_iff i j)

-- The pins of a state that `load` can give: nodes are distinct, and no list is empty or has a blank
-- name.
abbrev pub Clean : Dict (List Text) → Type 0
Clean d = Unique d × Dict.Entries (λ k ms. (is_nil ms ≡ false) × NonBlank ms) d

pins_of_nonempty : (ms : List Text) → is_nil ms ≡ false → pins_of ms ≡ some (sorted_set ms)
pins_of_nonempty [] h = cc
pins_of_nonempty (m ∷ ms) h = refl

module _ (now : ℕ) where
  found-nodes_object :
      (k : Text) (d : Dict (List Text))
      → Clean d
      → found k (nodes_object d)
        ≡ (elim (Dict.get k d) [ none ↦ none | some ms ↦ some (sorted_set ms) ])
  unfolding nodes_object Dict.get
  found-nodes_object k [] c = unfold found in refl
  found-nodes_object k ((j, ms) ∷ d) c =
      let rest : Clean d = (c.0.1, c.1.1) in
      let absent : found j (nodes_object d) ≡ none = ground (arith, found-nodes_object j d rest) in
      let value : value_pins (arr (items_of ms)) ≡ some (sorted_set ms) =
        rw (clean_models-items_of ms c.1.0.1) (pins_of_nonempty ms c.1.0.0) in
      found-insert_field k j (arr (items_of ms)) (nodes_object d) absent
      ∙ rw value (ground (arith, found-nodes_object k d rest))

  load-write_atomic :
      (d : Dict (List Text)) → load (write_atomic now d) ≡ some (sanitize (nodes_object d) [])
  unfolding load load_nodes write_atomic get_field text_eq
  load-write_atomic d = refl

  -- Reading the file that was written for a state gives the state's pins.
  mem-load-write_atomic :
      (k m : Text) (d : Dict (List Text))
      → Clean d
      → mem m (Dict.get_or k [] (sanitize (nodes_object d) [])) ≡ mem m (Dict.get_or k [] d)
  mem-load-write_atomic k m d c =
      let read = get-sanitize k (nodes_object d) [] in
      let there = found-nodes_object k d c in
      elim (Option-cases (Dict.get k d)) [
        | inl e ↦ unfold Dict.get in ground arith
        | inr (ms, e) ↦ ground (arith, mem-sorted_set m ms)
      ]

keep_clean-Clean :
    (j : Text) (ms : List Text) (out : Dict (List Text))
    → NonBlank ms
    → Clean out
    → Clean (keep_clean j ms out)
keep_clean-Clean j [] out h c = c
keep_clean-Clean j (m ∷ ms) out h c = (
  set-Unique j (sorted_set (m ∷ ms)) out c.0,
  Dict.set-Entries _ j (sorted_set (m ∷ ms)) out
      (sorted_set_nonempty m ms, sorted_set-NonBlank (m ∷ ms) h) c.1,
)

sanitize-Clean : (fs : Fields) (out : Dict (List Text)) → Clean out → Clean (sanitize fs out)
unfolding sanitize
sanitize-Clean end out c = c
sanitize-Clean (field j (arr xs) fs) out c =
    sanitize-Clean fs (keep_clean j (clean_models xs) out)
      (keep_clean-Clean j (clean_models xs) out (clean_models-NonBlank xs) c)
sanitize-Clean (field j null fs) out c = sanitize-Clean fs out c
sanitize-Clean (field j (bool b) fs) out c = sanitize-Clean fs out c
sanitize-Clean (field j (num n) fs) out c = sanitize-Clean fs out c
sanitize-Clean (field j (str s) fs) out c = sanitize-Clean fs out c
sanitize-Clean (field j (obj x) fs) out c = sanitize-Clean fs out c

store_pins-Clean :
    (n : Text) (ms : List Text) (d : Dict (List Text))
    → NonBlank ms
    → Clean d
    → Clean (store_pins n ms d)
store_pins-Clean n [] d h c = (pop-Unique n d c.0, Dict.pop-Entries _ n d c.1)
store_pins-Clean n (m ∷ ms) d h c =
    (set-Unique n (m ∷ ms) d c.0, Dict.set-Entries _ n (m ∷ ms) d (refl, h) c.1)

get_or-store_pins :
    (k n : Text) (ms : List Text) (d : Dict (List Text))
    → Dict.get_or k [] (store_pins n ms d) ≡ (if text_eq n k then ms else Dict.get_or k [] d)
get_or-store_pins k n [] d = ground (arith, Dict.get-pop n k d)
get_or-store_pins k n (m ∷ ms) d = ground (arith, Dict.get-set n k (m ∷ ms) d)

-- The pins that `load` gives, none where it raises.
abbrev pub loaded : Option (Dict (List Text)) → Dict (List Text)
loaded none = []
loaded (some d) = d

empty_or_raise-Clean : (b : Bool) → Clean (loaded (if b then none else some []))
empty_or_raise-Clean true = (tt, tt)
empty_or_raise-Clean false = (tt, tt)

load_nodes-Clean : (v : Option Json) → Clean (loaded (load_nodes v))
unfolding load_nodes
load_nodes-Clean none = (tt, tt)
load_nodes-Clean (some (obj nodes)) = sanitize-Clean nodes [] (tt, tt)
load_nodes-Clean (some null) = (tt, tt)
load_nodes-Clean (some (bool b)) = empty_or_raise-Clean (truthy (bool b))
load_nodes-Clean (some (num n)) = empty_or_raise-Clean (truthy (num n))
load_nodes-Clean (some (str s)) = empty_or_raise-Clean (truthy (str s))
load_nodes-Clean (some (arr xs)) = empty_or_raise-Clean (truthy (arr xs))

load-Clean : (f : File) → Clean (loaded (load f))
unfolding load
load-Clean missing = (tt, tt)
load-Clean unreadable = (tt, tt)
load-Clean (document (obj fs)) = load_nodes-Clean (get_field (text "nodes") fs)
load-Clean (document null) = (tt, tt)
load-Clean (document (bool b)) = (tt, tt)
load-Clean (document (num n)) = (tt, tt)
load-Clean (document (str s)) = (tt, tt)
load-Clean (document (arr xs)) = (tt, tt)

get_or-Clean : (k : Text) (d : Dict (List Text)) → Clean d → NonBlank (Dict.get_or k [] d)
get_or-Clean k d c = elim (Option-cases (Dict.get k d)) [
  | inl e ↦ subst Held (sym e) tt
  | inr (ms, e) ↦ subst Held (sym e) (Dict.get-Entries _ k ms d c.1 e).1
]
  where
    Held : Option (List Text) → Type 0
    Held o = NonBlank (elim o [ none ↦ [] | some ms ↦ ms ])

-- The pins of a node in the file.
abbrev pub pins : Text → File → List Text
pins k f = Dict.get_or k [] (loaded (load f))

nonblank_nonempty : (s : Text) → is_blank s ≡ false → is_empty s ≡ false
nonblank_nonempty [] h = cc
nonblank_nonempty (c ∷ s) h = refl

-- A pin is set, or taken, for one node and one model, and is there when the file is read again; all
-- other pins are as they were. The file can be read, and neither the node's id is empty nor the
-- model's name blank.
pub mem-set_pin :
    (now : ℕ) (node_id model k m : Text) (pinned : Bool) (f : File) (state : Dict (List Text))
    → load f ≡ some state
    → is_empty node_id ≡ false
    → is_blank model ≡ false
    → (state' : Dict (List Text)) × (f' : File) × (set_pin now node_id model pinned f
        ≡ some (state', f'))
      × (mem m (pins k f') ≡ mem m (Dict.get_or k [] state'))
      × (mem m (pins k f')
          ≡ (if text_eq node_id k && text_eq m model then pinned else mem m (pins k f)))
unfolding set_pin
mem-set_pin now node_id model k m pinned f state e full written =
    let current = change model pinned (Dict.get_or node_id [] state) in
    let state' = store_pins node_id current state in
    let clean : Clean state = subst (λ o. Clean (loaded o)) e (load-Clean f) in
    let still =
      store_pins-Clean node_id current state
        (change-NonBlank model pinned (Dict.get_or node_id [] state) written
          (get_or-Clean node_id state clean))
        clean in
    let back = load-write_atomic now state' in
    let same = mem-load-write_atomic now k m state' still in
    let named : is_empty model ≡ false = nonblank_nonempty model written in
    let kept : mem m (pins k (write_atomic now state')) ≡ mem m (Dict.get_or k [] state') =
      ground (arith, back) in
    let now_there = get_or-store_pins k node_id current state in
    let changed = mem-change m model pinned (Dict.get_or node_id [] state) in
    (
      state',
      write_atomic now state',
      ground arith,
      kept,
      kept ∙ ground (arith, now_there, changed, text_eq_iff node_id k),
    )
