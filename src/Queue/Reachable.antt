-- ===== src/Queue/Reachable.antt =====
-- The managers that the program reaches, by any sequence of its operations.
use ollama_herd.Common.{
  ℕ, ◌≡◌, refl, ◌∙◌, Bool, true, false, Option, some, List, [], ◌∷◌, Text, arith, Bool-cases,
  Option-cases, List-cases, inl, inr,
}
use ollama_herd.Dict.{Dict}
use ollama_herd.Dict
use ollama_herd.Models.Request.{QueueEntry}
use ollama_herd.Registry.{NodeRegistry}
use ollama_herd.Queue.Clients.{ClientLimit, Clients}
use ollama_herd.Queue.Accounting.{no_clients}
use ollama_herd.Queue.State.{
  DeviceModelQueue, leave, release_slot, dispatch, put_item, ensure_workers, wake, add_stats,
  complete_in,
}
use ollama_herd.Queue.Filing.{
  IsKeyed, Keyed, SameQueue, fail_in_same, dispatch_same, rewrite-Keyed, enqueue-Keyed,
  mark_failed-Keyed, mark_completed-Keyed, move_pending-Keyed,
}
use ollama_herd.Queue.Workers
use ollama_herd.Queue.Manager.{
  release_slot_at, settle_on_exit, QueueManager, queue_key, enqueued, enqueue, mark_completed,
  mark_failed, move_pending, Reaping, ReaperEvent, reap_entry, reap_entries, stale_entries,
  reap_queues, reap_stale_in_flight, worker_take,
}

worker_take-Keyed :
    (key : Text) (i : ℕ) (cancelled raises : Bool) (now : ℕ) (m : QueueManager)
    → Keyed m
    → Keyed (worker_take key i cancelled raises now m)
unfolding worker_take
worker_take-Keyed key i cancelled raises now m v = elim (Option-cases (Dict.get key m.queues)) [
  | inl e ↦ rw (e, worker_take) v
  | inr (q, e) ↦ elim (List-cases q.pending) [
    | inl none_left ↦ rw (e, worker_take, none_left) v
    | inr (entry, rest, waits) ↦ elim (Bool-cases cancelled) [
      | inl gone ↦
          rw (e, worker_take, waits, gone)
            (rewrite-Keyed key q (record q { pending = rest }) m e (refl, refl) v)
      | inr here ↦
          let same = dispatch_same i now entry raises (record q { pending = rest }) in
          rw (e, worker_take, waits, here)
            (rewrite-Keyed key q (dispatch i entry raises now (record q { pending = rest })) m e
              same v)
    ]
  ]
]

reap_entries_same :
    (key : Text) (now : ℕ) (stale : Dict QueueEntry) (s : Reaping)
    → SameQueue s.queue (reap_entries key now stale s).queue
unfolding reap_entries
reap_entries_same key now [] s = (refl, refl)
reap_entries_same key now ((rid, entry) ∷ stale) s =
    let one = fail_in_same rid s.queue in
    let rest = reap_entries_same key now stale (reap_entry key now rid entry s) in
    (rest.0 ∙ one.0, rest.1 ∙ one.1)

reap_queues-Keyed :
    (timeout now : ℕ) (qs : Dict DeviceModelQueue) (c : Clients) (events : List ReaperEvent)
    → Dict.Entries IsKeyed qs
    → Dict.Entries IsKeyed (reap_queues timeout now qs c events).0
unfolding reap_queues
reap_queues-Keyed timeout now [] c events v = tt
reap_queues-Keyed timeout now ((key, q) ∷ qs) c events v =
    let same =
      reap_entries_same key now (stale_entries timeout now q)
        (record { queue = q; clients = c; events = events }) in
    (rw (same.0, same.1) v.0, reap_queues-Keyed timeout now qs _ _ v.1)

release_slot_same : (rid : Text) (q : DeviceModelQueue) → SameQueue q (release_slot rid q)
unfolding release_slot
release_slot_same rid q = (ground arith, ground arith)

release_slot_at-Keyed :
    (at rid : Text) (m : QueueManager) → Keyed m → Keyed (release_slot_at at rid m)
release_slot_at-Keyed at rid m v = elim (Option-cases (Dict.get at m.queues)) [
  | inl e ↦ rw (e, release_slot_at) v
  | inr (q, e) ↦
      rw (e, release_slot_at)
        (rewrite-Keyed at q (release_slot rid q) m e (release_slot_same rid q) v)
]

settle_on_exit-Keyed :
    (at : Text) (entry : QueueEntry) (now : ℕ) (m : QueueManager)
    → Keyed m
    → Keyed (settle_on_exit at entry now m)
unfolding settle_on_exit
settle_on_exit-Keyed at entry now m v = elim (Option-cases (Dict.get at m.queues)) [
  | inl e ↦ rw (e, settle_on_exit) v
  | inr (q, e) ↦
      let rid = entry.request.request_id in
      let failed = (mark_failed (queue_key q.node_id q.model) entry now m).0 in
      let after = mark_failed-Keyed (queue_key q.node_id q.model) entry now m v in
      elim (Bool-cases (Dict.contains rid q.in_flight)) [
        | inl running ↦ rw (e, settle_on_exit, running) (release_slot_at-Keyed at rid failed after)
        | inr over ↦ rw (e, settle_on_exit, over) (release_slot_at-Keyed at rid m v)
      ]
]

complete_in_same :
    (rid : Text) (a b c : Option ℕ) (q : DeviceModelQueue) → SameQueue q (complete_in rid a b c q)
unfolding complete_in add_stats leave release_slot
complete_in_same rid a b c q = (ground arith, ground arith)

-- A step of one queue keeps its node and its model.
Workers-same : {l m : List Text} {q r : DeviceModelQueue} → Workers.Step l q m r → SameQueue q r
unfolding put_item ensure_workers wake
Workers-same (Workers.Step.put l q entry) = (refl, refl)
Workers-same (Workers.Step.ensure l q target few) = (refl, refl)
Workers-same (Workers.Step.start l q i now entry rest idle waits) =
    dispatch_same i now entry false (record q { pending = rest })
Workers-same (Workers.Step.raise l q i now entry rest idle waits) =
    dispatch_same i now entry true (record q { pending = rest })
Workers-same (Workers.Step.skip l q entry rest waits) = (refl, refl)
Workers-same (Workers.Step.finish l q i idle) = (refl, refl)
Workers-same (Workers.Step.complete l q rid a b c) = complete_in_same rid a b c q
Workers-same (Workers.Step.fail l q rid) = fail_in_same rid q
Workers-same (Workers.Step.woken l q i e awaits set) = (refl, refl)
Workers-same (Workers.Step.give_up l q i e awaits) = (refl, refl)
Workers-same (Workers.Step.progress l q rid entry known) = (refl, refl)

-- What the program does with its queues: the operations of the manager, and the steps of one queue,
-- its workers' among them.
pub data Step : QueueManager → QueueManager → Type 0 where
  admit :
      (limit : ClientLimit) (registry : Option NodeRegistry) (entry : QueueEntry)
      (m m' : QueueManager)
      → enqueue limit registry entry m ≡ enqueued m'
      → Step m m'
  take :
      (key : Text) (i : ℕ) (cancelled raises : Bool) (now : ℕ) (m : QueueManager)
      → Step m (worker_take key i cancelled raises now m)
  complete :
      (key : Text) (entry : QueueEntry) (a b c : Option ℕ) (now : ℕ) (m : QueueManager)
      → Step m (mark_completed key entry a b c now m).0
  settle :
      (at : Text) (entry : QueueEntry) (now : ℕ) (m : QueueManager)
      → Step m (settle_on_exit at entry now m)
  fail :
      (key : Text) (entry : QueueEntry) (now : ℕ) (m : QueueManager)
      → Step m (mark_failed key entry now m).0
  reap : (timeout now : ℕ) (m : QueueManager) → Step m (reap_stale_in_flight timeout now m)
  move :
      (registry : Option NodeRegistry) (source target : Text) (count : ℕ) (m : QueueManager)
      → Step m (move_pending registry source target count m).0
  work :
      (key : Text) (m : QueueManager) {abandoned left : List Text} {q r : DeviceModelQueue}
      → Dict.get key m.queues ≡ some q
      → Workers.Step abandoned q left r
      → Step m (record m { queues = Dict.set key r m.queues })

pub data Reach : QueueManager → Type 0 where
  here : Reach (record { queues = []; clients = no_clients; reaper_events = [] })
  next : {m n : QueueManager} → Reach m → Step m n → Reach n

Step-Keyed : {m n : QueueManager} → Step m n → Keyed m → Keyed n
unfolding reap_stale_in_flight
Step-Keyed (admit limit registry entry m m' e) v = enqueue-Keyed limit registry entry m m' e v
Step-Keyed (take key i cancelled raises now m) v = worker_take-Keyed key i cancelled raises now m v
Step-Keyed (complete key entry a b c now m) v = mark_completed-Keyed key entry a b c now m v
Step-Keyed (fail key entry now m) v = mark_failed-Keyed key entry now m v
Step-Keyed (settle at entry now m) v = settle_on_exit-Keyed at entry now m v
Step-Keyed (reap timeout now m) v =
    reap_queues-Keyed timeout now m.queues m.clients m.reaper_events v
Step-Keyed (move registry source target count m) v =
    move_pending-Keyed registry source target count m v
Step-Keyed (work key m {q} {r} e st) v = rewrite-Keyed key q r m e (Workers-same st) v

pub Reach-Keyed : {m : QueueManager} → Reach m → Keyed m
Reach-Keyed here = tt
Reach-Keyed (next h st) = Step-Keyed st (Reach-Keyed h)

-- In every manager that the operations and the workers' steps reach, a queue is filed under the key of its own node and
-- model: also one that a move made from the text of its key.
pub Reach-IsKeyed :
    (m : QueueManager) (key : Text) (q : DeviceModelQueue)
    → Reach m
    → Dict.get key m.queues ≡ some q
    → queue_key q.node_id q.model ≡ key
Reach-IsKeyed m key q h e = Dict.get-Entries IsKeyed key q m.queues (Reach-Keyed h) e
