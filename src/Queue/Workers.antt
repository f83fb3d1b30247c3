-- ===== src/Queue/Workers.antt =====
-- The workers make `concurrency` a real limit: along any history of a queue, a request in flight
-- is held by a worker of its own, up to the requests whose slot was given up.
use ollama_herd.Common.{
  ℕ, ◌≤◌, ◌<◌, ◌≡◌, Bool, true, false, not, ◌&&◌, ◌||◌, Option, none, some, List, [], ◌∷◌, Text,
  text_eq, mem, ◌==◌, length, any, get_elem?, All,
}
use ollama_herd.Dict.{Dict}
use ollama_herd.Dict
use ollama_herd.Dict.Unique.{Unique}
use ollama_herd.Models.Request.{QueueEntry}
use ollama_herd.Queue.State.{
  Event, Worker, DeviceModelQueue, put_item, complete_in, fail_in, new_worker, ensure_workers,
  with_worker, done_worker, dispatch, wake,
}

abbrev pub is_set : Event → List Event → Bool
is_set e [] = false
is_set e (f ∷ fs) = (text_eq e.0 f.0 && e.1 == f.1) || is_set e fs

-- The worker waits for the slot of the request, and has not been told to go on.
abbrev pub holds : Text → List Event → Worker → Bool
holds rid events w = elim w.awaiting [
  | none ↦ false
  | some e ↦ text_eq e.0 rid && not (is_set e events)
]

-- The requests that workers wait for.
abbrev pub awaited : List Worker → List Text
awaited [] = []
awaited (w ∷ ws) = elim w.awaiting [ none ↦ awaited ws | some e ↦ e.0 ∷ awaited ws ]

-- The serial numbers of the events are below the next one.
abbrev pub Below : ℕ → List Event → Type 0
Below n [] = Unit
Below n (e ∷ es) = (e.1 < n) × Below n es

pub record IsHeld (abandoned : List Text) (q : DeviceModelQueue) : Type 0 where
  pub held :
      (rid : Text)
      → Dict.contains rid q.in_flight ≡ true
      → (mem rid abandoned || any (holds rid q.set_events) q.worker_tasks) ≡ true
  pub unique : Unique q.in_flight
  pub set_below : Below q.next_event q.set_events
  pub slots_below : Dict.Entries (λ k e. e < q.next_event) q.slots
  pub done_idle : All (λ w. w.done ≡ true → w.awaiting ≡ none) q.worker_tasks
  pub few : length q.worker_tasks ≤ 8

-- A step of a queue. `abandoned` collects the requests that stay in flight without a worker: those
-- whose `process_fn` raised, and those whose worker gave up waiting.
pub data Step : List Text → DeviceModelQueue → List Text → DeviceModelQueue → Type 0 where
  put : (l : List Text) (q : DeviceModelQueue) (entry : QueueEntry) → Step l q l (put_item entry q)
  ensure :
      (l : List Text) (q : DeviceModelQueue) (target : ℕ)
      → target ≤ 8
      → Step l q l (ensure_workers target q)
  start :
      (l : List Text) (q : DeviceModelQueue) (i now : ℕ) (entry : QueueEntry)
      (rest : List QueueEntry)
      → get_elem? q.worker_tasks i ≡ some new_worker
      → q.pending ≡ entry ∷ rest
      → Step l q l (dispatch i entry false now (record q { pending = rest }))
  raise :
      (l : List Text) (q : DeviceModelQueue) (i now : ℕ) (entry : QueueEntry)
      (rest : List QueueEntry)
      → get_elem? q.worker_tasks i ≡ some new_worker
      → q.pending ≡ entry ∷ rest
      → Step l q
          (entry.request.request_id ∷ l)
          (dispatch i entry true now (record q { pending = rest }))
  skip :
      (l : List Text) (q : DeviceModelQueue) (entry : QueueEntry) (rest : List QueueEntry)
      → q.pending ≡ entry ∷ rest
      → Step l q l (record q { pending = rest })
  finish :
      (l : List Text) (q : DeviceModelQueue) (i : ℕ)
      → get_elem? q.worker_tasks i ≡ some new_worker
      → Step l q l (with_worker i done_worker q)
  complete :
      (l : List Text) (q : DeviceModelQueue) (rid : Text) (latency prompt completion : Option ℕ)
      → Step l q l (complete_in rid latency prompt completion q)
  fail : (l : List Text) (q : DeviceModelQueue) (rid : Text) → Step l q l (fail_in rid q)
  woken :
      (l : List Text) (q : DeviceModelQueue) (i : ℕ) (e : Event)
      → get_elem? q.worker_tasks i ≡ some (record { done = false; awaiting = some e })
      → is_set e q.set_events ≡ true
      → Step l q l (wake i e.0 q)
  give_up :
      (l : List Text) (q : DeviceModelQueue) (i : ℕ) (e : Event)
      → get_elem? q.worker_tasks i ≡ some (record { done = false; awaiting = some e })
      → Step l q (e.0 ∷ l) (wake i e.0 q)
  progress :
      (l : List Text) (q : DeviceModelQueue) (rid : Text) (entry : QueueEntry)
      → Dict.contains rid q.in_flight ≡ true
      → Step l q l (record q { in_flight = Dict.set rid entry q.in_flight })

pub data Reach (q₀ : DeviceModelQueue) : List Text → DeviceModelQueue → Type 0 where
  here : Reach q₀ [] q₀
  next : {l m : List Text} {q r : DeviceModelQueue} → Reach q₀ l q → Step l q m r → Reach q₀ m r
