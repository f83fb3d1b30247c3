-- ===== src/Queue/Filing.antt =====
-- Every queue is filed under the key of its own node and model.
use ollama_herd.Common.{
  ℕ, zero, suc, ◌≡◌, refl, Bool, Option, some, Text, arith, Bool-cases, Option-cases, List-cases,
  inl, inr, subst, ltb,
}
use ollama_herd.Dict.{Dict}
use ollama_herd.Dict
use ollama_herd.Models.Request.{QueueEntry}
use ollama_herd.Registry.{NodeRegistry}
use ollama_herd.Url.Parse.{partition}
use ollama_herd.Queue.Clients.{ClientLimit, acquired, acquire_client}
use ollama_herd.Queue.State.{
  DeviceModelQueue, new_queue, put_item, release_slot, leave, add_stats, complete_in, fail_in,
  ensure_workers, dispatch,
}
use ollama_herd.Queue.Manager.{
  QueueManager, queue_key, put_queue, enqueued, enqueue, queue_or_new, refresh_workers,
  mark_completed, mark_failed, move_items, move_pending, finish_move, with_target, refresh_at,
  deliver, move_one, reassign,
}
use ollama_herd.Queue.Keys.{queue_key-partition}

-- A queue is filed under the key of its own node and model.
abbrev pub IsKeyed : Text → DeviceModelQueue → Type 0
IsKeyed key q = queue_key q.node_id q.model ≡ key

abbrev pub Keyed : QueueManager → Type 0
Keyed m = Dict.Entries IsKeyed m.queues

-- What no operation on a queue changes.
abbrev pub SameQueue : DeviceModelQueue → DeviceModelQueue → Type 0
SameQueue q r = (r.node_id ≡ q.node_id) × (r.model ≡ q.model)

pub fail_in_same : (rid : Text) (q : DeviceModelQueue) → SameQueue q (fail_in rid q)
unfolding fail_in leave release_slot
fail_in_same rid q = (ground arith, ground arith)

complete_in_same :
    (rid : Text) (a b c : Option ℕ) (q : DeviceModelQueue) → SameQueue q (complete_in rid a b c q)
unfolding complete_in add_stats leave release_slot
complete_in_same rid a b c q = (ground arith, ground arith)

pub dispatch_same :
    (i now : ℕ) (entry : QueueEntry) (raises : Bool) (q : DeviceModelQueue)
    → SameQueue q (dispatch i entry raises now q)
unfolding dispatch
dispatch_same i now entry raises q = (ground arith, ground arith)

refresh_same : (r : Option NodeRegistry) (q : DeviceModelQueue) → SameQueue q (refresh_workers r q)
unfolding ensure_workers
refresh_same r q = (refl, refl)

put_item_same : (entry : QueueEntry) (q : DeviceModelQueue) → SameQueue q (put_item entry q)
unfolding put_item
put_item_same entry q = (refl, refl)

-- A queue that is read, changed and written back stays filed.
pub rewrite-Keyed :
    (key : Text) (q r : DeviceModelQueue) (m : QueueManager)
    → Dict.get key m.queues ≡ some q
    → SameQueue q r
    → Keyed m
    → Keyed (put_queue key r m)
rewrite-Keyed key q r m e same v =
    let old = Dict.get-Entries IsKeyed key q m.queues v e in
    Dict.set-Entries IsKeyed key r m.queues (rw (same.0, same.1) old) v

queue_or_new-IsKeyed :
    (node model : Text) (m : QueueManager)
    → Keyed m
    → IsKeyed
        (queue_key node model)
        (queue_or_new node model (Dict.get (queue_key node model) m.queues))
queue_or_new-IsKeyed node model m v =
    elim (Option-cases (Dict.get (queue_key node model) m.queues)) [
      | inl e ↦ rw e refl
      | inr (q, e) ↦ rw e (Dict.get-Entries IsKeyed (queue_key node model) q m.queues v e)
    ]

-- Where a request is admitted, its queue has one more waiting request and its workers; the clients
-- are those of the reservation, and nothing else changes.
pub enqueue-enqueued :
    (limit : ClientLimit) (registry : Option NodeRegistry) (entry : QueueEntry)
    (m m' : QueueManager)
    → enqueue limit registry entry m ≡ enqueued m'
    → let key = queue_key entry.assigned_node entry.request.model in
      let q = queue_or_new entry.assigned_node entry.request.model (Dict.get key m.queues) in
      (acquire_client limit entry m.clients ≡ acquired m'.clients)
      × (m'.queues ≡ Dict.set key (refresh_workers registry (put_item entry q)) m.queues)
      × (m'.reaper_events ≡ m.reaper_events)
unfolding enqueue
enqueue-enqueued limit registry entry m m' e = (ground arith, ground arith, ground arith)

pub enqueue-Keyed :
    (limit : ClientLimit) (registry : Option NodeRegistry) (entry : QueueEntry)
    (m m' : QueueManager)
    → enqueue limit registry entry m ≡ enqueued m'
    → Keyed m
    → Keyed m'
enqueue-Keyed limit registry entry m m' e v =
    let node = entry.assigned_node in
    let model = entry.request.model in
    let key = queue_key node model in
    let q = queue_or_new node model (Dict.get key m.queues) in
    let placed = refresh_workers registry (put_item entry q) in
    let same = refresh_same registry (put_item entry q) in
    let put = put_item_same entry q in
    let filed : IsKeyed key placed =
      rw (same.0, same.1, put.0, put.1) (queue_or_new-IsKeyed node model m v) in
    rw ((enqueue-enqueued limit registry entry m m' e).1)
      (Dict.set-Entries IsKeyed key placed m.queues filed v)

pub mark_failed-Keyed :
    (key : Text) (entry : QueueEntry) (now : ℕ) (m : QueueManager)
    → Keyed m
    → Keyed (mark_failed key entry now m).0
unfolding mark_failed
mark_failed-Keyed key entry now m v = elim (Option-cases (Dict.get key m.queues)) [
  | inl e ↦ rw (e, mark_failed) v
  | inr (q, e) ↦
      rw (e, mark_failed)
        (rewrite-Keyed key q (fail_in entry.request.request_id q) m e
          (fail_in_same entry.request.request_id q) v)
]

pub mark_completed-Keyed :
    (key : Text) (entry : QueueEntry) (a b c : Option ℕ) (now : ℕ) (m : QueueManager)
    → Keyed m
    → Keyed (mark_completed key entry a b c now m).0
unfolding mark_completed
mark_completed-Keyed key entry a b c now m v = elim (Option-cases (Dict.get key m.queues)) [
  | inl e ↦ rw (e, mark_completed) v
  | inr (q, e) ↦
      rw (e, mark_completed)
        (rewrite-Keyed key q (complete_in entry.request.request_id a b c q) m e
          (complete_in_same entry.request.request_id a b c q) v)
]

with_target-Keyed :
    (target : Text) (m ready : QueueManager)
    → with_target target m ≡ some ready
    → Keyed m
    → Keyed ready
with_target-Keyed target m ready e v = elim (Option-cases (Dict.get target m.queues)) [
  | inr (q, known) ↦ let same : m ≡ ready = ground arith in subst Keyed same v
  | inl unknown ↦ elim (Option-cases (partition b':' target).1) [
    | inl bare ↦ absurd (ground arith)
    | inr (model, split) ↦
        let made = new_queue (partition b':' target).0 model in
        let same : put_queue target made m ≡ ready = ground arith in
        subst Keyed same
          (Dict.set-Entries IsKeyed target made m.queues (queue_key-partition target model split) v)
  ]
]

deliver-Keyed :
    (target : Text) (entry : QueueEntry) (m m' : QueueManager)
    → deliver target entry m ≡ some m'
    → Keyed m
    → Keyed m'
deliver-Keyed target entry m m' e v = elim (Option-cases (Dict.get target m.queues)) [
  | inl unknown ↦ absurd (ground arith)
  | inr (t, known) ↦
      let moved = put_item (reassign t.node_id entry) t in
      let same : put_queue target moved m ≡ m' = ground arith in
      subst Keyed same
        (rewrite-Keyed target t moved m known (put_item_same (reassign t.node_id entry) t) v)
]

move_one-Keyed :
    (source target : Text) (m m' : QueueManager)
    → move_one source target m ≡ some m'
    → Keyed m
    → Keyed m'
unfolding move_one
move_one-Keyed source target m m' e v = elim (Option-cases (Dict.get source m.queues)) [
  | inl unknown ↦ absurd (ground arith)
  | inr (s, known) ↦ elim (List-cases s.pending) [
    | inl empty ↦ absurd (ground arith)
    | inr (entry, rest, waits) ↦
        let taken = record s { pending = rest } in
        deliver-Keyed target entry (put_queue source taken m) m' (ground arith)
          (rewrite-Keyed source s taken m known (refl, refl) v)
  ]
]

move_items-Keyed :
    (count : ℕ) (source target : Text) (m : QueueManager)
    → Keyed m
    → Keyed (move_items count source target m).0
unfolding move_items
move_items-Keyed zero source target m v = v
move_items-Keyed (suc count) source target m v = elim (Option-cases (move_one source target m)) [
  | inl none_left ↦ rw (none_left, move_items) v
  | inr (m', e) ↦
      rw (e, move_items)
        (move_items-Keyed count source target m' (move_one-Keyed source target m m' e v))
]

refresh_at-Keyed :
    (registry : Option NodeRegistry) (key : Text) (m : QueueManager)
    → Keyed m
    → Keyed (refresh_at registry key m)
refresh_at-Keyed registry key m v = elim (Option-cases (Dict.get key m.queues)) [
  | inl e ↦ rw (e, refresh_at) v
  | inr (q, e) ↦
      rw (e, refresh_at)
        (rewrite-Keyed key q (refresh_workers registry q) m e (refresh_same registry q) v)
]

finish-Keyed :
    (registry : Option NodeRegistry) (target : Text) (done : QueueManager × ℕ)
    → Keyed done.0
    → Keyed (finish_move registry target done).0
finish-Keyed registry target (m, moved) v = elim (Bool-cases (ltb 0 moved)) [
  | inl some_moved ↦ rw some_moved (refresh_at-Keyed registry target m v)
  | inr none_moved ↦ rw none_moved v
]

pub move_pending-Keyed :
    (registry : Option NodeRegistry) (source target : Text) (count : ℕ) (m : QueueManager)
    → Keyed m
    → Keyed (move_pending registry source target count m).0
unfolding move_pending
move_pending-Keyed registry source target count m v =
    elim (Option-cases (Dict.get source m.queues)) [
      | inl e ↦ rw (e, move_pending) v
      | inr (s, e) ↦ elim (Option-cases (with_target target m)) [
        | inl bad ↦ rw (e, move_pending, bad) v
        | inr (ready, good) ↦
            rw (e, move_pending, good)
              (finish-Keyed registry target (move_items count source target ready) (
                move_items-Keyed count source target ready
                  (with_target-Keyed target m ready good v)))
      ]
    ]
