-- ===== src/Queue/Settle.antt =====
-- How a request leaves its queue.
use ollama_herd.Common.{
  ℕ, ◌+◌, ◌≡◌, refl, ◌∙◌, true, false, Option, none, some, List, ◌∷◌, Text, if◌then◌else◌, arith,
  Bool-cases, inl, inr,
}
use ollama_herd.Dict.{Dict}
use ollama_herd.Dict
use ollama_herd.Models.Request.{QueueEntry}
use ollama_herd.Queue.Clients.{release_client}
use ollama_herd.Queue.State.{
  Event, DeviceModelQueue, leave, release_slot, fail_in, complete_in, add_stats,
}
use ollama_herd.Queue.Manager.{
  QueueManager, queue_key, put_queue, mark_failed, mark_completed, settle_on_exit, release_slot_at,
}

contains-leave : (rid : Text) (q : DeviceModelQueue) → Dict.contains rid (leave rid q).slots ≡ false
unfolding leave release_slot
contains-leave rid q = ground (arith, Dict.get-pop_self rid q.slots)

-- The events that are set once the slot of a request is released: the one that its worker waits for
-- is among them.
abbrev pub released : Text → DeviceModelQueue → List Event
released rid q = elim (Dict.get rid q.slots) [
  | none ↦ q.set_events
  | some e ↦ (rid, e) ∷ q.set_events
]

set_events-release_slot :
    (rid : Text) (q : DeviceModelQueue) → (release_slot rid q).set_events ≡ released rid q
unfolding release_slot
set_events-release_slot rid q = ground arith

set_events-leave : (rid : Text) (q : DeviceModelQueue) → (leave rid q).set_events ≡ released rid q
unfolding leave
set_events-leave rid q =
    set_events-release_slot rid (record q { in_flight = Dict.pop rid q.in_flight })

-- A slot that is free sets no event.
released_free :
    (rid : Text) (q : DeviceModelQueue)
    → Dict.contains rid q.slots ≡ false
    → released rid q ≡ q.set_events
released_free rid q h = ground arith

set_events-fail_in :
    (rid : Text) (q : DeviceModelQueue)
    → (release_slot rid (fail_in rid q)).set_events ≡ released rid q
unfolding fail_in
set_events-fail_in rid q =
    set_events-release_slot rid (fail_in rid q)
    ∙ released_free rid (fail_in rid q) (contains-leave rid q)
    ∙ set_events-leave rid q

release_slot_fields :
    (rid : Text) (q : DeviceModelQueue)
    → (Dict.contains rid (release_slot rid q).slots ≡ false)
      × ((release_slot rid q).in_flight ≡ q.in_flight)
      × ((release_slot rid q).failed_count ≡ q.failed_count)
      × ((release_slot rid q).completed_count ≡ q.completed_count)
unfolding release_slot
release_slot_fields rid q = ground (arith, Dict.get-pop_self rid q.slots)

leave_fields :
    (rid : Text) (q : DeviceModelQueue)
    → ((leave rid q).in_flight ≡ Dict.pop rid q.in_flight)
      × ((leave rid q).failed_count ≡ q.failed_count)
      × ((leave rid q).completed_count ≡ q.completed_count)
      × ((leave rid q).pending ≡ q.pending)
unfolding leave release_slot
leave_fields rid q = (ground arith, ground arith, ground arith, ground arith)

-- A request that has left a queue, whose worker's event is set, and the requests that wait there unchanged.
pub record HasLeft (rid : Text) (q q' : DeviceModelQueue) : Type 0 where
  pub gone : q'.in_flight ≡ Dict.pop rid q.in_flight
  pub free : Dict.contains rid q'.slots ≡ false
  pub woken : q'.set_events ≡ released rid q
  pub waiting : q'.pending ≡ q.pending

fail_in-HasLeft : (rid : Text) (q : DeviceModelQueue) → HasLeft rid q (fail_in rid q)
unfolding fail_in
fail_in-HasLeft rid q =
    let f = leave_fields rid q in
    record {
      gone = f.0;
      free = contains-leave rid q;
      woken = set_events-leave rid q;
      waiting = f.3;
    }

complete_in-HasLeft :
    (rid : Text) (a b c : Option ℕ) (q : DeviceModelQueue) → HasLeft rid q (complete_in rid a b c q)
unfolding complete_in add_stats
complete_in-HasLeft rid a b c q =
    let f = leave_fields rid q in
    record {
      gone = ground (arith, f.0);
      free = ground (arith, contains-leave rid q);
      woken = ground (arith, set_events-leave rid q);
      waiting = ground (arith, f.3);
    }

complete_in_counts :
    (rid : Text) (a b c : Option ℕ) (q : DeviceModelQueue)
    → ((complete_in rid a b c q).completed_count ≡ q.completed_count + 1)
      × ((complete_in rid a b c q).failed_count ≡ q.failed_count)
unfolding complete_in add_stats
complete_in_counts rid a b c q =
    let f = leave_fields rid q in (ground (arith, f.2), ground (arith, f.1))

fail_in_fields :
    (rid : Text) (q : DeviceModelQueue)
    → ((fail_in rid q).in_flight ≡ Dict.pop rid q.in_flight)
      × ((fail_in rid q).failed_count ≡ q.failed_count + 1)
      × ((fail_in rid q).completed_count ≡ q.completed_count)
unfolding fail_in
fail_in_fields rid q = let f = leave_fields rid q in (f.0, ground (arith, f.1), f.2)

-- A completed request gives its client's slot back, and leaves its queue: it is no longer in
-- flight, its worker's slot is taken away and the event that the worker waits for is set, and it is
-- counted as completed and not as failed.
pub mark_completed-HasLeft :
    (key : Text) (entry : QueueEntry) (a b c : Option ℕ) (now : ℕ) (m : QueueManager)
    (q : DeviceModelQueue)
    → Dict.get key m.queues ≡ some q
    → let rid = entry.request.request_id in
      let m' = (mark_completed key entry a b c now m).0 in
      (m'.clients ≡ release_client entry m.clients)
      × ((q' : DeviceModelQueue) × (Dict.get key m'.queues ≡ some q')
          × HasLeft rid q q'
          × (q'.completed_count ≡ q.completed_count + 1)
          × (q'.failed_count ≡ q.failed_count))
unfolding mark_completed
mark_completed-HasLeft key entry a b c now m q e =
    let rid = entry.request.request_id in
    let after = complete_in rid a b c q in
    let counts = complete_in_counts rid a b c q in
    rw (e, mark_completed)
      (
        refl,
        (
          after,
          Dict.get-set_self key after m.queues,
          complete_in-HasLeft rid a b c q,
          counts.0,
          counts.1,
        ),
      )

release_slot_at_fields :
    (at rid : Text) (m : QueueManager) (q : DeviceModelQueue)
    → Dict.get at m.queues ≡ some q
    → (Dict.get at (release_slot_at at rid m).queues ≡ some (release_slot rid q))
      × ((release_slot_at at rid m).clients ≡ m.clients)
release_slot_at_fields at rid m q e =
    (ground (arith, Dict.get-set_self at (release_slot rid q) m.queues), ground arith)

settle_on_exit_running :
    (at : Text) (entry : QueueEntry) (now : ℕ) (m : QueueManager) (q : DeviceModelQueue)
    → Dict.get at m.queues ≡ some q
    → at ≡ queue_key q.node_id q.model
    → Dict.contains entry.request.request_id q.in_flight ≡ true
    → settle_on_exit at entry now m
      ≡ release_slot_at at entry.request.request_id (
          put_queue at
            (fail_in entry.request.request_id q)
            (record m { clients = release_client entry m.clients }))
unfolding settle_on_exit mark_failed
settle_on_exit_running at entry now m q e named running = ground arith

settle_on_exit_over :
    (at : Text) (entry : QueueEntry) (now : ℕ) (m : QueueManager) (q : DeviceModelQueue)
    → Dict.get at m.queues ≡ some q
    → Dict.contains entry.request.request_id q.in_flight ≡ false
    → settle_on_exit at entry now m ≡ release_slot_at at entry.request.request_id m
unfolding settle_on_exit
settle_on_exit_over at entry now m q e over = ground arith

-- However its stream ends, a request does not stay in its queue: afterwards it is not in flight,
-- no worker's slot is kept for it, and the event of a slot it had is set, so that its worker is
-- freed. If it was still in flight it is counted as failed and its client's
-- slot is given back; if it was settled before, nothing is counted. The queue is one that is filed
-- under the key of its node and model.
pub settle_on_exit_lem :
    (at : Text) (entry : QueueEntry) (now : ℕ) (m : QueueManager) (q : DeviceModelQueue)
    → Dict.get at m.queues ≡ some q
    → at ≡ queue_key q.node_id q.model
    → let rid = entry.request.request_id in
      let m' = settle_on_exit at entry now m in
      let running = Dict.contains rid q.in_flight in
      ((q' : DeviceModelQueue) × (Dict.get at m'.queues ≡ some q')
        × (Dict.contains rid q'.in_flight ≡ false)
        × (Dict.contains rid q'.slots ≡ false)
        × (q'.set_events ≡ released rid q)
        × (q'.failed_count ≡ (if running then q.failed_count + 1 else q.failed_count))
        × (q'.completed_count ≡ q.completed_count))
      × (m'.clients ≡ (if running then release_client entry m.clients else m.clients))
settle_on_exit_lem at entry now m q e named = elim (Bool-cases (Dict.contains rid q.in_flight)) [
  | inl running ↦
      let failed = fail_in rid q in
      let left = fail_in_fields rid q in
      let after = put_queue at failed (record m { clients = release_client entry m.clients }) in
      let slot =
        release_slot_at_fields at rid after failed (Dict.get-set_self at failed m.queues) in
      let fields = release_slot_fields rid failed in
      rw (settle_on_exit_running at entry now m q e named running, running)
        (
          (
            release_slot rid failed,
            slot.0,
            ground (arith, fields, left, Dict.get-pop_self rid q.in_flight),
            fields.0,
            set_events-fail_in rid q,
            ground (arith, fields, left),
            ground (arith, fields, left),
          ),
          slot.1,
        )
  | inr over ↦
      let slot = release_slot_at_fields at rid m q e in
      let fields = release_slot_fields rid q in
      rw (settle_on_exit_over at entry now m q e over, over)
        (
          (
            release_slot rid q,
            slot.0,
            ground (arith, fields, over),
            fields.0,
            set_events-release_slot rid q,
            ground (arith, fields),
            ground (arith, fields),
          ),
          slot.1,
        )
]
  where
    rid : Text
    rid = entry.request.request_id
