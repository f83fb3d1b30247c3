-- ===== src/Queue/State.antt =====
-- One queue: its requests, its workers and their slots. An `asyncio.Event` is known by the request
-- it was made for and a serial number; `set_events` are those that have been set. A worker is known
-- by its place in `worker_tasks`. What the clients do (a future that was cancelled, a `process_fn`
-- that raises) is an argument.
use ollama_herd.Common.{
  ℕ, zero, suc, ◌+◌, ◌-◌, Bool, true, false, not, ◌||◌, Option, none, some, List, [], ◌∷◌, ◌++◌,
  Text, ltb, leb, if◌then◌else◌, filter, length, take, is_some,
}
use ollama_herd.Dict.{Dict}
use ollama_herd.Dict
use ollama_herd.Models.Request.{QueueEntry, RequestStatus}

abbrev pub Event : Type 0
Event = Text × ℕ

-- `awaiting` is the event that the worker's loop waits for; without one it waits for an item.
pub record Worker : Type 0 where
  pub done : Bool
  pub awaiting : Option Event

pub record DeviceModelQueue : Type 0 where
  pub node_id : Text
  pub model : Text
  pub pending : List QueueEntry
  pub in_flight : Dict QueueEntry
  pub slots : Dict ℕ
  pub set_events : List Event
  pub next_event : ℕ
  pub worker_tasks : List Worker
  pub concurrency : ℕ
  pub completed_count : ℕ
  pub failed_count : ℕ
  pub total_latency_ms : ℕ
  pub total_prompt_tokens : ℕ
  pub total_completion_tokens : ℕ
  pub stats_samples : ℕ

abbrev pub new_queue : Text → Text → DeviceModelQueue
new_queue node_id model = record {
  node_id = node_id;
  model = model;
  pending = [];
  in_flight = [];
  slots = [];
  set_events = [];
  next_event = 0;
  worker_tasks = [];
  concurrency = 1;
  completed_count = 0;
  failed_count = 0;
  total_latency_ms = 0;
  total_prompt_tokens = 0;
  total_completion_tokens = 0;
  stats_samples = 0;
}

-- `q.pending.put(item)`
unfoldable pub put_item : QueueEntry → DeviceModelQueue → DeviceModelQueue
put_item entry q = record q { pending = q.pending ++ entry ∷ [] }

unfoldable pub release_slot : Text → DeviceModelQueue → DeviceModelQueue
release_slot rid q = elim (Dict.get rid q.slots) [
  | none ↦ q
  | some e ↦ record q { slots = Dict.pop rid q.slots; set_events = (rid, e) ∷ q.set_events }
]

-- `in_flight.pop(rid, None)` and the release of the slot, which every exit makes.
unfoldable pub leave : Text → DeviceModelQueue → DeviceModelQueue
leave rid q = release_slot rid (record q { in_flight = Dict.pop rid q.in_flight })

abbrev pub or_zero : Option ℕ → ℕ
or_zero none = 0
or_zero (some n) = n

-- The statistics of `mark_completed`.
unfoldable pub add_stats : Option ℕ → Option ℕ → Option ℕ → DeviceModelQueue → DeviceModelQueue
add_stats latency_ms prompt_tokens completion_tokens q =
    if is_some latency_ms || is_some prompt_tokens || is_some completion_tokens
    then record q {
      total_latency_ms = q.total_latency_ms + or_zero latency_ms;
      total_prompt_tokens = q.total_prompt_tokens + or_zero prompt_tokens;
      total_completion_tokens = q.total_completion_tokens + or_zero completion_tokens;
      stats_samples = q.stats_samples + 1;
    }
    else q

unfoldable pub complete_in :
    Text → Option ℕ → Option ℕ → Option ℕ → DeviceModelQueue → DeviceModelQueue
complete_in rid latency_ms prompt_tokens completion_tokens q =
    let left = leave rid q in
    add_stats latency_ms prompt_tokens completion_tokens
      (record left { completed_count = left.completed_count + 1 })

unfoldable pub fail_in : Text → DeviceModelQueue → DeviceModelQueue
fail_in rid q = let left = leave rid q in record left { failed_count = left.failed_count + 1 }

-- `[t for t in q.worker_tasks if not t.done()]`
abbrev pub live : List Worker → List Worker
live ws = filter (λ w. not w.done) ws

abbrev pub new_worker : Worker
new_worker = record { done = false; awaiting = none }

-- `while len(q.worker_tasks) < target`, which makes a worker a round.
unfoldable pub spawn : ℕ → List Worker → List Worker
spawn zero ws = ws
spawn (suc n) ws = spawn n (ws ++ new_worker ∷ [])

-- `_ensure_workers`, once the concurrency of the queue is known.
unfoldable pub ensure_workers : ℕ → DeviceModelQueue → DeviceModelQueue
ensure_workers target q =
    let ws = live q.worker_tasks in
    record q { concurrency = target; worker_tasks = spawn (target - length ws) ws }

-- `worker_tasks[i]` after a step of worker `i`.
abbrev pub set_worker : ℕ → Worker → List Worker → List Worker
set_worker i w [] = []
set_worker zero w (v ∷ vs) = w ∷ vs
set_worker (suc i) w (v ∷ vs) = v ∷ set_worker i w vs

abbrev pub with_worker : ℕ → Worker → DeviceModelQueue → DeviceModelQueue
with_worker i w q = record q { worker_tasks = set_worker i w q.worker_tasks }

-- `live.index(me)`: how many live workers stand before worker `i`.
abbrev pub rank : ℕ → List Worker → ℕ
rank i ws = length (live (take i ws))

abbrev pub done_worker : Worker
done_worker = record { done = true; awaiting = none }

-- The first lines of the loop of `_worker`: the excess worker ends.
unfoldable pub retires : ℕ → DeviceModelQueue → Bool
retires i q = leb q.concurrency (rank i q.worker_tasks)

-- A dispatch by worker `i`, from `rid = …` to the wait for the slot. Where `process_fn` raises, the
-- slot is taken back, and the entry stays in `in_flight` with the status `failed`.
unfoldable pub dispatch : ℕ → QueueEntry → Bool → ℕ → DeviceModelQueue → DeviceModelQueue
dispatch i entry raises now q =
    let rid = entry.request.request_id in
    let running : QueueEntry = record entry {
      status = RequestStatus.in_flight;
      started_at = some now;
    } in
    let failed : QueueEntry = record running { status = RequestStatus.failed } in
    let slots = Dict.set rid q.next_event q.slots in
    if raises
    then record q {
      in_flight = Dict.set rid failed q.in_flight;
      slots = Dict.pop rid slots;
      next_event = q.next_event + 1;
    }
    else record q {
      in_flight = Dict.set rid running q.in_flight;
      slots = slots;
      next_event = q.next_event + 1;
      worker_tasks =
          set_worker i (record { done = false; awaiting = some (rid, q.next_event) })
            q.worker_tasks;
    }

-- The worker's wait is over, by its event or by its own time limit: `q.slots.pop(rid, None)`, and
-- the loop starts again.
unfoldable pub wake : ℕ → Text → DeviceModelQueue → DeviceModelQueue
wake i rid q = with_worker i new_worker (record q { slots = Dict.pop rid q.slots })

-- `last or started`, where a time of 0 counts as none.
abbrev pub or_time : Option ℕ → Option ℕ → Option ℕ
or_time none t = t
or_time (some zero) t = t
or_time (some (suc n)) t = some (suc n)

abbrev pub overdue : ℕ → ℕ → Option ℕ → Bool
overdue timeout now none = false
overdue timeout now (some zero) = false
overdue timeout now (some (suc t)) = ltb timeout (now - suc t)

-- `(e.last_progress_at or e.started_at) and now - (…) > stale_timeout`: nothing was produced for
-- longer than the time limit.
unfoldable pub is_stale : ℕ → ℕ → QueueEntry → Bool
is_stale timeout now e = overdue timeout now (or_time e.last_progress_at e.started_at)
