-- ===== src/Affinity.antt =====
-- Which node served a conversation last (src/fleet_manager/server/session_affinity.py).
pub mod Eviction
pub mod Memory
pub mod Order
use ollama_herd.Common.{
  ℕ, ◌-◌, Bool, true, false, ◌||◌, Option, none, some, List, [], ◌∷◌, ◌++◌, Text, text, text_eq,
  is_empty, if◌then◌else◌, ltb, filter, map, length, take, starts_with, any,
}
use ollama_herd.Dict.{Dict}
use ollama_herd.Dict
use ollama_herd.Models.Json.{Json, str, obj, get_field}
use ollama_herd.Models.Request.{InferenceRequest}

-- A node, and the time at which it was seen to serve the session.
abbrev pub Seen : Type 0
Seen = Text × ℕ

pub record SessionAffinityTracker : Type 0 where
  pub ttl_s : ℕ
  pub max_sessions : ℕ
  pub seen : Dict Seen

abbrev pub is_expired : ℕ → ℕ → Text × Seen → Bool
is_expired ttl now e = ltb ttl (now - e.1.1)

-- `for k in keys: self._seen.pop(k, None)`
unfoldable pub pop_all : List Text → Dict Seen → Dict Seen
pop_all [] d = d
pop_all (k ∷ ks) d = pop_all ks (Dict.pop k d)

-- `sorted(items, key=lambda kv: kv[1][1])`, which keeps the order of equal times.
unfoldable pub insert_seen : Text × Seen → Dict Seen → Dict Seen
insert_seen e [] = e ∷ []
insert_seen e (f ∷ fs) =
    let rest = insert_seen e fs in if ltb f.1.1 e.1.1 then f ∷ rest else e ∷ f ∷ fs

unfoldable pub sort_seen : Dict Seen → Dict Seen
unfolding insert_seen
sort_seen [] = []
sort_seen (e ∷ es) = insert_seen e (sort_seen es)

unfoldable pub drop_expired : ℕ → ℕ → Dict Seen → Dict Seen
drop_expired ttl now d = pop_all (Dict.keys (filter (is_expired ttl now) d)) d

-- The oldest entries beyond `max`, by their keys.
abbrev pub oldest : ℕ → Dict Seen → List Text
oldest max d = Dict.keys (take (length d - max) (sort_seen d))

unfoldable pub drop_oldest : ℕ → Dict Seen → Dict Seen
drop_oldest max d = if ltb max (length d) then pop_all (oldest max d) d else d

unfoldable pub evict : ℕ → SessionAffinityTracker → SessionAffinityTracker
evict now t = record t { seen = drop_oldest t.max_sessions (drop_expired t.ttl_s now t.seen) }

unfoldable pub remember : Text → Text → ℕ → SessionAffinityTracker → SessionAffinityTracker
remember session_key node_id now t =
    let t' : SessionAffinityTracker = record t {
      seen = Dict.set session_key (node_id, now) t.seen;
    } in
    if is_empty session_key || is_empty node_id
    then t
    else if ltb t.max_sessions (length t'.seen)
    then evict now t'
    else t'

abbrev found :
    Text → ℕ → SessionAffinityTracker → Option Seen → SessionAffinityTracker × Option Text
found session_key now t none = (t, none)
found session_key now t (some (node_id, seen_at)) =
    if ltb t.ttl_s (now - seen_at)
    then (record t { seen = Dict.pop session_key t.seen }, none)
    else (t, some node_id)

-- The tracker, from which an expired pin is taken, and the node.
unfoldable pub preferred_node :
    Text → ℕ → SessionAffinityTracker → SessionAffinityTracker × Option Text
preferred_node session_key now t =
    if is_empty session_key
    then (t, none)
    else found session_key now t (Dict.get session_key t.seen)

unfoldable pub session_tag : List Text → Option Text
session_tag [] = none
session_tag (tag ∷ tags) = if starts_with (text "session:") tag then some tag else session_tag tags

-- `isinstance(m, dict) and m.get("role") == "assistant"`
unfoldable pub is_assistant : Json → Bool
is_assistant (obj m) = elim (get_field (text "role") m) [
  | some (str role) ↦ text_eq role (text "assistant")
  | _ ↦ false
]
is_assistant _ = false

unfoldable pub session_key_for : InferenceRequest → Text
session_key_for r = elim (session_tag r.tags) [
  | some tag ↦ tag
  | none ↦
      let model = if is_empty r.original_model then r.model else r.original_model in
      if any is_assistant r.messages
      then if is_empty r.client_ip then [] else r.client_ip ++ (b'|' ∷ model)
      else []
]
