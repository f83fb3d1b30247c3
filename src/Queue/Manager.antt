-- ===== src/Queue/Manager.antt =====
-- The queue manager: all queues, the clients' slots and the record of the reaper. Its registry is an
-- argument of the operations that ask for a queue's concurrency.
use ollama_herd.Common.{
  ℕ, zero, suc, ◌+◌, ◌-◌, Bool, Option, none, some, List, [], ◌∷◌, ◌++◌, Text, ltb, if◌then◌else◌,
  filter, length, drop, is_some,
}
use ollama_herd.Dict.{Dict}
use ollama_herd.Dict
use ollama_herd.Models.Request.{QueueEntry, RequestStatus}
use ollama_herd.Registry.{NodeRegistry}
use ollama_herd.Url.Parse.{partition}
use ollama_herd.Queue.Clients.{
  Clients, ClientLimit, ClientConcurrencyExceeded, acquired, exceeded, acquire_client,
  release_client,
}
use ollama_herd.Queue.Concurrency.{compute_queue_concurrency}
use ollama_herd.Queue.State.{
  DeviceModelQueue, new_queue, put_item, release_slot, complete_in, fail_in, ensure_workers,
  dispatch, is_stale, or_time, or_zero,
}

-- Times are in ticks of the clock; the source rounds the two durations down to seconds.
pub record ReaperEvent : Type 0 where
  pub timestamp : ℕ
  pub request_id : Text
  pub queue_key : Text
  pub stuck_seconds : ℕ
  pub age_seconds : ℕ
  pub produced_output : Bool

pub record QueueManager : Type 0 where
  pub queues : Dict DeviceModelQueue
  pub clients : Clients
  pub reaper_events : List ReaperEvent

-- `f"{node_id}:{model}"`
abbrev pub queue_key : Text → Text → Text
queue_key node_id model = node_id ++ b':' ∷ model

-- `self._queues[key] = q`, for a queue that is there and has been changed.
abbrev pub put_queue : Text → DeviceModelQueue → QueueManager → QueueManager
put_queue key q m = record m { queues = Dict.set key q m.queues }

abbrev pub refresh_workers : Option NodeRegistry → DeviceModelQueue → DeviceModelQueue
refresh_workers registry q = ensure_workers (compute_queue_concurrency registry q.node_id q.model) q

pub data Enqueued : Type 0 where
  enqueued : QueueManager → Enqueued
  refused : ClientConcurrencyExceeded → Enqueued

-- The queue of a key, made where there is none.
abbrev pub queue_or_new : Text → Text → Option DeviceModelQueue → DeviceModelQueue
queue_or_new node_id model none = new_queue node_id model
queue_or_new node_id model (some q) = q

unfoldable pub enqueue : ClientLimit → Option NodeRegistry → QueueEntry → QueueManager → Enqueued
enqueue limit registry entry m =
    let key = queue_key entry.assigned_node entry.request.model in
    elim (acquire_client limit entry m.clients) [
      | exceeded e ↦ refused e
      | acquired c ↦
          let q = queue_or_new entry.assigned_node entry.request.model (Dict.get key m.queues) in
          enqueued (record m {
            queues = Dict.set key (refresh_workers registry (put_item entry q)) m.queues;
            clients = c;
          })
    ]

-- Worker `i` of a queue takes the first item: one whose future was cancelled is dropped with its
-- client's slot, any other is dispatched.
unfoldable pub worker_take : Text → ℕ → Bool → Bool → ℕ → QueueManager → QueueManager
worker_take key i cancelled raises now m = elim (Dict.get key m.queues) [
  | none ↦ m
  | some q ↦ elim q.pending [
    | [] ↦ m
    | entry ∷ rest ↦
        let taken : DeviceModelQueue = record q { pending = rest } in
        if cancelled
        then record m {
          queues = Dict.set key taken m.queues;
          clients = release_client entry m.clients;
        }
        else put_queue key (dispatch i entry raises now taken) m
  ]
]

abbrev pub settled : RequestStatus → ℕ → QueueEntry → QueueEntry
settled status now entry = record entry { status = status; completed_at = some now }

-- The entry is the caller's, and is changed in place: it is returned.
unfoldable pub mark_completed :
    Text
    → QueueEntry
    → Option ℕ
    → Option ℕ
    → Option ℕ
    → ℕ
    → QueueManager
    → QueueManager × QueueEntry
mark_completed key entry latency_ms prompt_tokens completion_tokens now m =
    let rid = entry.request.request_id in
    let freed : QueueManager = record m { clients = release_client entry m.clients } in
    elim (Dict.get key m.queues) [
      | none ↦ (freed, entry)
      | some q ↦ (
        put_queue key (complete_in rid latency_ms prompt_tokens completion_tokens q) freed,
        settled RequestStatus.completed now entry,
      )
    ]

unfoldable pub mark_failed : Text → QueueEntry → ℕ → QueueManager → QueueManager × QueueEntry
mark_failed key entry now m =
    let freed : QueueManager = record m { clients = release_client entry m.clients } in
    elim (Dict.get key m.queues) [
      | none ↦ (freed, entry)
      | some q ↦ (
        put_queue key (fail_in entry.request.request_id q) freed,
        settled RequestStatus.failed now entry,
      )
    ]

-- `self._release_slot(q, rid)` on the queue of a key.
abbrev pub release_slot_at : Text → Text → QueueManager → QueueManager
release_slot_at key rid m = elim (Dict.get key m.queues) [
  | none ↦ m
  | some q ↦ put_queue key (release_slot rid q) m
]

-- The `finally` of `_settle_on_exit`, for the queue at `at`, which marks by the key that it forms
-- from the queue's own node and model.
unfoldable pub settle_on_exit : Text → QueueEntry → ℕ → QueueManager → QueueManager
settle_on_exit at entry now m = elim (Dict.get at m.queues) [
  | none ↦ m
  | some q ↦
      let rid = entry.request.request_id in
      release_slot_at at rid (
        if Dict.contains rid q.in_flight
        then (mark_failed (queue_key q.node_id q.model) entry now m).0
        else m)
]

-- `now - (last_progress_at or started_at)`, and the age since the start.
abbrev pub idle_time : ℕ → QueueEntry → ℕ
idle_time now e = now - or_zero (or_time e.last_progress_at e.started_at)

abbrev pub age : ℕ → QueueEntry → Option ℕ → ℕ
age now e none = idle_time now e
age now e (some zero) = idle_time now e
age now e (some (suc t)) = now - suc t

-- `_reaper_events.append(…)`, and the oldest is dropped beyond 100.
unfoldable pub log_event : ReaperEvent → List ReaperEvent → List ReaperEvent
log_event e events = let all = events ++ e ∷ [] in if ltb 100 (length all) then drop 1 all else all

-- What the reaper works on while it goes through one queue.
pub record Reaping : Type 0 where
  pub queue : DeviceModelQueue
  pub clients : Clients
  pub events : List ReaperEvent

abbrev pub reap_entry : Text → ℕ → Text → QueueEntry → Reaping → Reaping
reap_entry key now rid entry s = record {
  queue = fail_in rid s.queue;
  clients = release_client entry s.clients;
  events =
      log_event
        (record {
          timestamp = now;
          request_id = entry.request.request_id;
          queue_key = key;
          stuck_seconds = idle_time now entry;
          age_seconds = age now entry entry.started_at;
          produced_output = is_some entry.last_progress_at;
        })
        s.events;
}

unfoldable pub reap_entries : Text → ℕ → Dict QueueEntry → Reaping → Reaping
reap_entries key now [] s = s
reap_entries key now ((rid, entry) ∷ stale) s =
    reap_entries key now stale (reap_entry key now rid entry s)

-- The entries of a queue that are stale when the round begins.
abbrev pub stale_entries : ℕ → ℕ → DeviceModelQueue → Dict QueueEntry
stale_entries timeout now q = filter (λ e. is_stale timeout now e.1) q.in_flight

unfoldable pub reap_queues :
    ℕ
    → ℕ
    → Dict DeviceModelQueue
    → Clients
    → List ReaperEvent
    → Dict DeviceModelQueue × Clients × List ReaperEvent
reap_queues timeout now [] c events = ([], c, events)
reap_queues timeout now ((key, q) ∷ qs) c events =
    let s =
      reap_entries key now (stale_entries timeout now q)
        (record { queue = q; clients = c; events = events }) in
    let rest = reap_queues timeout now qs s.clients s.events in
    ((key, s.queue) ∷ rest.0, rest.1, rest.2)

-- One round of `_reap_stale_in_flight`.
unfoldable pub reap_stale_in_flight : ℕ → ℕ → QueueManager → QueueManager
reap_stale_in_flight timeout now m =
    let done = reap_queues timeout now m.queues m.clients m.reaper_events in
    record { queues = done.0; clients = done.1; reaper_events = done.2 }

-- `q.pending.qsize() + len(q.in_flight)` of every queue.
unfoldable pub get_queue_depths : QueueManager → Dict ℕ
get_queue_depths m = depths m.queues
  where
    depths : Dict DeviceModelQueue → Dict ℕ
    depths = elim [
      | [] ↦ []
      | kq ∷ (qs → ih) ↦ (kq.0, length kq.1.pending + length kq.1.in_flight) ∷ ih
    ]

abbrev pub reassign : Text → QueueEntry → QueueEntry
reassign node_id entry = record entry { assigned_node = node_id }

-- `item` put on the target's queue.
abbrev pub deliver : Text → QueueEntry → QueueManager → Option QueueManager
deliver target entry m = elim (Dict.get target m.queues) [
  | none ↦ none
  | some t ↦ some (put_queue target (put_item (reassign t.node_id entry) t) m)
]

-- A round of the loop of `move_pending`; `none` is an empty source. The queues are read from the
-- manager each time, so that one key for both is a rotation.
unfoldable pub move_one : Text → Text → QueueManager → Option QueueManager
move_one source target m = elim (Dict.get source m.queues) [
  | none ↦ none
  | some s ↦ elim s.pending [
    | [] ↦ none
    | entry ∷ rest ↦ deliver target entry (put_queue source (record s { pending = rest }) m)
  ]
]

-- The loop, for the items that `count` still allows.
unfoldable pub move_items : ℕ → Text → Text → QueueManager → QueueManager × ℕ
move_items zero source target m = (m, 0)
move_items (suc count) source target m = elim (move_one source target m) [
  | none ↦ (m, 0)
  | some moved ↦ let more = move_items count source target moved in (more.0, more.1 + 1)
]

abbrev pub refresh_at : Option NodeRegistry → Text → QueueManager → QueueManager
refresh_at registry key m = elim (Dict.get key m.queues) [
  | none ↦ m
  | some q ↦ put_queue key (refresh_workers registry q) m
]

abbrev pub finish_move : Option NodeRegistry → Text → QueueManager × ℕ → QueueManager × ℕ
finish_move registry target (m, moved) =
    (if ltb 0 moved then refresh_at registry target m else m, moved)

-- The target queue, made from its key where there is none; `none` is a key without a colon.
abbrev pub with_target : Text → QueueManager → Option QueueManager
with_target target m = elim (Dict.get target m.queues) [
  | some q ↦ some m
  | none ↦
      let (node_id, rest) = partition b':' target in
      elim rest [ none ↦ none | some model ↦ some (put_queue target (new_queue node_id model) m) ]
]

unfoldable pub move_pending :
    Option NodeRegistry → Text → Text → ℕ → QueueManager → QueueManager × ℕ
move_pending registry source target count m = elim (Dict.get source m.queues) [
  | none ↦ (m, 0)
  | some s ↦ elim (with_target target m) [
    | none ↦ (m, 0)
    | some ready ↦ finish_move registry target (move_items count source target ready)
  ]
]
