-- ===== src/Queue/Bound.antt =====
-- The limit itself: the steps that dispatch a request or end a wait, and the bound on the requests
-- in flight after any history.
use ollama_herd.Common.{
  ℕ, ◌+◌, ◌≤◌, ◌<◌, ◌≡◌, refl, true, false, ◌||◌, Option, some, List, [], ◌∷◌, ◌++◌, Text,
  text_eq_iff, text_eq_refl, mem, arith, length, length-append, get_elem?,
}
use ollama_herd.Dict.{Dict}
use ollama_herd.Dict
use ollama_herd.Dict.Unique.{set-Unique, length-le_of_mem}
use ollama_herd.Models.Request.{QueueEntry, RequestStatus}
use ollama_herd.Queue.State.{
  Event, Worker, DeviceModelQueue, new_queue, put_item, leave, add_stats, complete_in, fail_in,
  new_worker, done_worker, dispatch, wake,
}
use ollama_herd.Queue.Workers.{is_set, holds, awaited, IsHeld, Step, Reach, here, next}
use ollama_herd.Queue.Holding.{
  any-set_worker, any-set_worker_self, length-set_worker, set_worker-DoneIdle, is_set-Below,
  Below-mono, mem-awaited, length-awaited-le,
}
use ollama_herd.Queue.Limit.{same-IsHeld, leave-IsHeld, ensure-IsHeld, idle-IsHeld}

abbrev serving : Event → Worker
serving e = record { done = false; awaiting = some e }

module _ (l : List Text) (q : DeviceModelQueue) (i now : ℕ) (entry : QueueEntry) where
  open entry.request use {request_id}

  bump_slots :
      Dict.Entries (λ k e. e < q.next_event) q.slots
      → Dict.Entries (λ k e. e < q.next_event + 1) q.slots
  bump_slots b =
      Dict.map-Entries (λ k e. e < q.next_event) (λ k e. e < q.next_event + 1) q.slots
        (λ k e h. omega arith) b

  start-IsHeld :
      get_elem? q.worker_tasks i ≡ some new_worker
      → IsHeld l q
      → IsHeld l (dispatch i entry false now q)
  unfolding dispatch
  start-IsHeld at v =
      let running : QueueEntry = record entry {
        status = RequestStatus.in_flight;
        started_at = some now;
      } in
      let event : Event = (request_id, q.next_event) in
      let w = serving event in
      let unset = is_set-Below event q.next_event q.set_events v.set_below (omega arith) in
      record {
        held = λ rid h. ground (
          arith,
          v.held rid,
          Dict.get-set request_id rid running q.in_flight,
          any-set_worker (holds rid q.set_events) i new_worker w q.worker_tasks at,
          any-set_worker_self (holds rid q.set_events) i new_worker w q.worker_tasks at,
          unset,
        );
        unique = set-Unique request_id running q.in_flight v.unique;
        set_below =
            Below-mono q.next_event (q.next_event + 1) q.set_events (omega arith) v.set_below;
        slots_below =
            Dict.set-Entries (λ k e. e < q.next_event + 1) request_id q.next_event q.slots
              (omega arith) (bump_slots v.slots_below);
        done_idle = set_worker-DoneIdle i w q.worker_tasks (λ h. cc) v.done_idle;
        few = rw (length-set_worker i w q.worker_tasks) v.few;
      }

  raise-IsHeld : IsHeld l q → IsHeld (request_id ∷ l) (dispatch i entry true now q)
  unfolding dispatch
  raise-IsHeld v =
      let failed : QueueEntry = record entry {
        status = RequestStatus.failed;
        started_at = some now;
      } in
      record {
        held = λ rid h. ground (
          arith,
          v.held rid,
          Dict.get-set request_id rid failed q.in_flight,
          text_eq_iff request_id rid,
          text_eq_iff rid request_id,
        );
        unique = set-Unique request_id failed q.in_flight v.unique;
        set_below =
            Below-mono q.next_event (q.next_event + 1) q.set_events (omega arith) v.set_below;
        slots_below =
            Dict.pop-Entries (λ k e. e < q.next_event + 1) request_id
              (Dict.set request_id q.next_event q.slots)
              (Dict.set-Entries (λ k e. e < q.next_event + 1) request_id q.next_event q.slots
                (omega arith) (bump_slots v.slots_below));
        done_idle = v.done_idle;
        few = v.few;
      }

-- The wait of worker `i` ends: what it held is named in `m`, or was let go.
wake-IsHeld :
    (l m : List Text) (q : DeviceModelQueue) (i : ℕ) (e : Event)
    → get_elem? q.worker_tasks i ≡ some (serving e)
    → ((rid : Text) → mem rid l ≡ true → mem rid m ≡ true)
    → (mem e.0 m || is_set e q.set_events) ≡ true
    → IsHeld l q
    → IsHeld m (wake i e.0 q)
unfolding wake
wake-IsHeld l m q i e at grow let_go v = record {
  held = λ rid h. ground (
    arith,
    v.held rid h,
    grow rid,
    text_eq_iff e.0 rid,
    any-set_worker (holds rid q.set_events) i (serving e) new_worker q.worker_tasks at,
  );
  unique = v.unique;
  set_below = v.set_below;
  slots_below = Dict.pop-Entries (λ k n. n < q.next_event) e.0 q.slots v.slots_below;
  done_idle = set_worker-DoneIdle i new_worker q.worker_tasks (λ h. refl) v.done_idle;
  few = rw (length-set_worker i new_worker q.worker_tasks) v.few;
}

pending-IsHeld :
    (l : List Text) (q : DeviceModelQueue) (items : List QueueEntry)
    → IsHeld l q
    → IsHeld l (record q { pending = items })
pending-IsHeld l q items v = same-IsHeld l q _ refl refl refl refl refl v

complete-IsHeld :
    (l : List Text) (q : DeviceModelQueue) (rid : Text) (a b c : Option ℕ)
    → IsHeld l q
    → IsHeld l (complete_in rid a b c q)
unfolding complete_in add_stats
complete-IsHeld l q rid a b c v =
    let left = leave-IsHeld l q rid v in
    same-IsHeld l (leave rid q) _ (ground arith) (ground arith) (ground arith) (ground arith)
      (ground arith) left

Step-IsHeld : {l m : List Text} {q r : DeviceModelQueue} → Step l q m r → IsHeld l q → IsHeld m r
unfolding put_item fail_in
Step-IsHeld (Step.put l q entry) v = pending-IsHeld l q _ v
Step-IsHeld (Step.ensure l q target b) v = ensure-IsHeld l q target b v
Step-IsHeld (Step.start l q i now entry rest at e) v =
    start-IsHeld l (record q { pending = rest }) i now entry at (pending-IsHeld l q rest v)
Step-IsHeld (Step.raise l q i now entry rest at e) v =
    raise-IsHeld l (record q { pending = rest }) i now entry (pending-IsHeld l q rest v)
Step-IsHeld (Step.skip l q entry rest e) v = pending-IsHeld l q rest v
Step-IsHeld (Step.finish l q i at) v = idle-IsHeld l q i done_worker at refl v
Step-IsHeld (Step.complete l q rid a b c) v = complete-IsHeld l q rid a b c v
Step-IsHeld (Step.fail l q rid) v =
    same-IsHeld l (leave rid q) _ refl refl refl refl refl (leave-IsHeld l q rid v)
Step-IsHeld (Step.woken l q i e at s) v = wake-IsHeld l l q i e at (λ rid h. h) (ground arith) v
Step-IsHeld (Step.give_up l q i e at) v =
    wake-IsHeld l (e.0 ∷ l) q i e at (λ rid h. ground arith) (ground (arith, text_eq_refl e.0)) v
Step-IsHeld (Step.progress l q rid entry known) v = record {
  held = λ j h. ground (arith, v.held j, Dict.get-set rid j entry q.in_flight, text_eq_iff rid j);
  unique = set-Unique rid entry q.in_flight v.unique;
  set_below = v.set_below;
  slots_below = v.slots_below;
  done_idle = v.done_idle;
  few = v.few;
}

Reach-IsHeld :
    {node model : Text} {l : List Text} {q : DeviceModelQueue}
    → Reach (new_queue node model) l q
    → IsHeld l q
unfolding Dict.get
Reach-IsHeld here = record {
  held = λ rid h. cc;
  unique = tt;
  set_below = tt;
  slots_below = tt;
  done_idle = tt;
  few = omega arith;
}
Reach-IsHeld (next h st) = Step-IsHeld st (Reach-IsHeld h)

mem-append : (x : Text) (xs ys : List Text) → mem x (xs ++ ys) ≡ (mem x xs || mem x ys)
mem-append x [] ys = refl
mem-append x (y ∷ xs) ys = ground (arith, mem-append x xs ys)

-- After any history of a queue that begins empty, in which no more than 8 workers are asked for,
-- the requests in flight are at most the workers of the queue and the requests that were abandoned,
-- and the workers are at most 8. So a history in which no `process_fn` raises and no worker gives
-- up waiting never has more than 8 requests in flight.
pub Reach-in_flight-le :
    (node model : Text) (l : List Text) (q : DeviceModelQueue)
    → Reach (new_queue node model) l q
    → (length q.in_flight ≤ length q.worker_tasks + length l) × (length q.worker_tasks ≤ 8)
Reach-in_flight-le node model l q h =
    let v = Reach-IsHeld h in
    let all_held = length-le_of_mem q.in_flight (awaited q.worker_tasks ++ l) v.unique λ rid e.
      ground (
        arith,
        v.held rid e,
        mem-awaited rid q.set_events q.worker_tasks,
        mem-append rid (awaited q.worker_tasks) l,
      ) in
    (
      omega (
        arith,
        all_held,
        length-append (awaited q.worker_tasks) l,
        length-awaited-le q.worker_tasks,
      ),
      v.few,
    )
