-- ===== src/Pins.antt =====
-- The pins of each node, kept in a file: src/fleet_manager/server/pinned_models.py.
pub mod Laws
pub mod Roundtrip
use ollama_herd.Common.{
  ℕ, Bool, true, false, not, ◌&&◌, ◌||◌, Option, none, some, List, [], ◌∷◌, ◌++◌, Text, text,
  text_eq, mem, is_empty, if◌then◌else◌, ltb, leb, ◌==◌, filter, all, map,
}
use ollama_herd.Dict.{Dict}
use ollama_herd.Dict
use ollama_herd.Models.Json.{
  Json, null, bool, num, str, arr, obj, Items, nil, cons, Fields, end, field, get_field, truthy,
}

-- `c.isspace()`
abbrev pub is_space : ℕ → Bool
is_space c =
    leb 9 c && leb c 13
    || leb 28 c && leb c 32
    || c == 133
    || c == 160
    || c == 5760
    || leb 8192 c && leb c 8202
    || c == 8232
    || c == 8233
    || c == 8239
    || c == 8287
    || c == 12288

-- `not s.strip()`
abbrev pub is_blank : Text → Bool
is_blank s = all is_space s

-- `s < t` on texts, by code points.
unfoldable pub text_ltb : Text → Text → Bool
text_ltb [] [] = false
text_ltb [] (b ∷ t) = true
text_ltb (a ∷ s) [] = false
text_ltb (a ∷ s) (b ∷ t) = ltb a b || a == b && text_ltb s t

-- `sorted({x} | xs)`, for the sorted list `xs` of a set.
unfoldable pub insert_sorted : Text → List Text → List Text
insert_sorted x [] = x ∷ []
insert_sorted x (y ∷ ys) =
    let rest = insert_sorted x ys in
    if text_eq x y then y ∷ ys else if text_ltb x y then x ∷ y ∷ ys else y ∷ rest

-- `sorted(set(xs))`
unfoldable pub sorted_set : List Text → List Text
sorted_set [] = []
sorted_set (x ∷ xs) = insert_sorted x (sorted_set xs)

-- The file: it is not there, it cannot be read as JSON, or it holds a value.
pub data File : Type 0 where
  missing : File
  unreadable : File
  document : Json → File

-- `[m for m in models if isinstance(m, str) and m.strip()]`
unfoldable pub clean_models : Items → List Text
clean_models nil = []
clean_models (cons (str m) xs) = let rest = clean_models xs in if is_blank m then rest else m ∷ rest
clean_models (cons _ xs) = clean_models xs

abbrev pub keep_clean : Text → List Text → Dict (List Text) → Dict (List Text)
keep_clean node_id [] out = out
keep_clean node_id (m ∷ ms) out = Dict.set node_id (sorted_set (m ∷ ms)) out

-- The loop over `nodes.items()`.
unfoldable pub sanitize : Fields → Dict (List Text) → Dict (List Text)
sanitize end out = out
sanitize (field node_id (arr models) fs) out =
    sanitize fs (keep_clean node_id (clean_models models) out)
sanitize (field node_id _ fs) out = sanitize fs out

-- `data.get("nodes") or {}`, sanitized; nothing where `nodes.items` raises.
unfoldable pub load_nodes : Option Json → Option (Dict (List Text))
load_nodes none = some []
load_nodes (some (obj nodes)) = some (sanitize nodes [])
load_nodes (some v) = if truthy v then none else some []

-- The pins by node; nothing where `data.get` or `nodes.items` raises, which no handler catches.
unfoldable pub load : File → Option (Dict (List Text))
unfolding load_nodes
load missing = some []
load unreadable = some []
load (document (obj fs)) = load_nodes (get_field (text "nodes") fs)
load (document _) = none

unfoldable pub items_of : List Text → Items
items_of [] = nil
items_of (m ∷ ms) = cons (str m) (items_of ms)

-- `sort_keys=True`: a `dict` as an object with its keys in order.
unfoldable pub insert_field : Text → Json → Fields → Fields
insert_field k v end = field k v end
insert_field k v (field j w fs) =
    let rest = insert_field k v fs in
    if text_ltb k j then field k v (field j w fs) else field j w rest

unfoldable pub nodes_object : Dict (List Text) → Fields
nodes_object [] = end
nodes_object ((node_id, models) ∷ d) = insert_field node_id (arr (items_of models)) (nodes_object d)

-- `_write_atomic`, where the replacement of the file succeeds.
unfoldable pub write_atomic : ℕ → Dict (List Text) → File
write_atomic now state = document (
    obj (field (text "nodes") (obj (nodes_object state)) (field (text "updated_at") (num now) end)))

-- `set(state.get(node_id, []))` after `add` or `discard`, sorted.
unfoldable pub change : Text → Bool → List Text → List Text
change model true current = insert_sorted model (sorted_set current)
change model false current = sorted_set (filter (λ m. not (text_eq m model)) current)

abbrev pub store_pins : Text → List Text → Dict (List Text) → Dict (List Text)
store_pins node_id [] state = Dict.pop node_id state
store_pins node_id (m ∷ ms) state = Dict.set node_id (m ∷ ms) state

-- The state after the change, and the file; nothing where the call raises.
unfoldable pub set_pin : ℕ → Text → Text → Bool → File → Option (Dict (List Text) × File)
set_pin now node_id model pinned file =
    if is_empty node_id || is_empty model then none else elim (load file) [
      | none ↦ none
      | some state ↦
          let current = change model pinned (Dict.get_or node_id [] state) in
          let state' = store_pins node_id current state in some (state', write_atomic now state')
    ]

unfoldable pub get_for_node : Text → File → Option (List Text)
get_for_node node_id file = elim (load file) [
  | none ↦ none
  | some state ↦ some (Dict.get_or node_id [] state)
]

-- The loop of `merge_pins`: `seen` holds the models that are in the result.
unfoldable pub merge_loop : List Text → List Text → List Text
merge_loop seen [] = []
merge_loop seen (m ∷ ms) =
    let rest = merge_loop (m ∷ seen) ms in
    let skipped = merge_loop seen ms in
    if not (is_empty m) && not (mem m seen) then m ∷ rest else skipped

unfoldable pub merge_pins : List Text → List Text → List Text
merge_pins env_pins per_node_pins = merge_loop [] (env_pins ++ per_node_pins)
