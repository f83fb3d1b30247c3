-- ===== src/Queue/Limit.antt =====
-- Every step keeps the requests in flight held by workers.
use ollama_herd.Common.{
  ℕ, ◌-◌, ◌≤◌, ◌<◌, ◌≡◌, inl, inr, not, none, some, List, Text, arith, Option-cases, length,
  length-filter-le, get_elem?,
}
use ollama_herd.Dict.{Dict}
use ollama_herd.Dict
use ollama_herd.Dict.Unique.{pop-Unique}
use ollama_herd.Queue.State.{
  Worker, DeviceModelQueue, release_slot, leave, live, new_worker, ensure_workers, with_worker,
}
use ollama_herd.Queue.Workers.{holds, IsHeld}
use ollama_herd.Queue.Holding.{
  any-set_worker, any-spawn, length-set_worker, length-spawn, set_worker-DoneIdle, spawn-DoneIdle,
  live-DoneIdle, any-live, any-set_event,
}

-- What the invariant reads of a queue.
pub same-IsHeld :
    (l : List Text) (q r : DeviceModelQueue)
    → r.in_flight ≡ q.in_flight
    → r.set_events ≡ q.set_events
    → r.next_event ≡ q.next_event
    → r.slots ≡ q.slots
    → r.worker_tasks ≡ q.worker_tasks
    → IsHeld l q
    → IsHeld l r
same-IsHeld l q r a b c d e v = record {
  held = λ rid. rw (a, b, e) (v.held rid);
  unique = rw a v.unique;
  set_below = rw (b, c) v.set_below;
  slots_below = rw (c, d) v.slots_below;
  done_idle = rw e v.done_idle;
  few = rw e v.few;
}

pub leave-IsHeld :
    (l : List Text) (q : DeviceModelQueue) (rid : Text) → IsHeld l q → IsHeld l (leave rid q)
unfolding leave release_slot
leave-IsHeld l q rid v = elim (Option-cases (Dict.get rid q.slots)) [
  | inl e ↦
      rw (e, leave, release_slot)
        (record {
          held = λ j h. v.held j (ground (arith, Dict.get-pop rid j q.in_flight));
          unique = pop-Unique rid q.in_flight v.unique;
          set_below = v.set_below;
          slots_below = v.slots_below;
          done_idle = v.done_idle;
          few = v.few;
        })
  | inr (n, e) ↦
      rw (e, leave, release_slot)
        (record {
          held = λ j h. ground (
            arith,
            v.held j,
            Dict.get-pop rid j q.in_flight,
            any-set_event j (rid, n) q.set_events q.worker_tasks,
          );
          unique = pop-Unique rid q.in_flight v.unique;
          set_below = (
            Dict.get-Entries (λ k e. e < q.next_event) rid n q.slots v.slots_below e,
            v.set_below,
          );
          slots_below = Dict.pop-Entries (λ k e. e < q.next_event) rid q.slots v.slots_below;
          done_idle = v.done_idle;
          few = v.few;
        })
]

pub ensure-IsHeld :
    (l : List Text) (q : DeviceModelQueue) (target : ℕ)
    → target ≤ 8
    → IsHeld l q
    → IsHeld l (ensure_workers target q)
unfolding ensure_workers
ensure-IsHeld l q target b v =
    let ws = live q.worker_tasks in
    let n = target - length ws in
    record {
      held = λ rid h. ground (
        arith,
        v.held rid h,
        any-live rid q.set_events q.worker_tasks v.done_idle,
        any-spawn (holds rid q.set_events) n ws,
      );
      unique = v.unique;
      set_below = v.set_below;
      slots_below = v.slots_below;
      done_idle = spawn-DoneIdle n ws (live-DoneIdle q.worker_tasks v.done_idle);
      few =
          omega
            (arith, length-spawn n ws, length-filter-le (λ w. not w.done) q.worker_tasks, v.few);
    }

-- A worker of the queue that waits for no slot takes another state that holds nothing.
pub idle-IsHeld :
    (l : List Text) (q : DeviceModelQueue) (i : ℕ) (w : Worker)
    → get_elem? q.worker_tasks i ≡ some new_worker
    → w.awaiting ≡ none
    → IsHeld l q
    → IsHeld l (with_worker i w q)
idle-IsHeld l q i w at idle v = record {
  held = λ rid h. ground (
    arith,
    v.held rid h,
    any-set_worker (holds rid q.set_events) i new_worker w q.worker_tasks at,
  );
  unique = v.unique;
  set_below = v.set_below;
  slots_below = v.slots_below;
  done_idle = set_worker-DoneIdle i w q.worker_tasks (λ h. idle) v.done_idle;
  few = rw (length-set_worker i w q.worker_tasks) v.few;
}
