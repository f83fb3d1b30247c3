-- ===== src/Tests/Queue.antt =====
-- The theorems on the queues at one queue of `mini` and its requests.
use ollama_herd.Common.{
  ◌+◌, ◌≡◌, ◌≤◌, refl, arith, false, none, some, [], ◌∷◌, Text, text, text_eq, length,
  if◌then◌else◌, text_apart,
}
use ollama_herd.Dict.{Dict}
use ollama_herd.Dict
use ollama_herd.Models.Request.{QueueEntry}
use ollama_herd.Registry.{get_node}
use ollama_herd.Queue.Clients.{Clients, ClientLimit, acquire_client, release_client}
use ollama_herd.Queue.Accounting.{
  IsBalanced, here, next, acquire, release, no_clients, Changes-IsBalanced,
}
use ollama_herd.Queue.Concurrency.{compute_concurrency, compute_queue_concurrency}
use ollama_herd.Queue.State.{DeviceModelQueue, new_queue, put_item, ensure_workers, spawn, dispatch}
use ollama_herd.Queue.Workers
use ollama_herd.Queue.Bound.{Reach-in_flight-le}
use ollama_herd.Queue.Manager.{
  QueueManager, queue_key, enqueue, refresh_workers, mark_completed, settle_on_exit,
  reap_stale_in_flight, move_pending, reassign,
}
use ollama_herd.Queue.Reaper.{IsReaped, reap_stale_in_flight-IsReaped}
use ollama_herd.Queue.Reachable
use ollama_herd.Queue.Settle.{released, HasLeft, mark_completed-HasLeft, settle_on_exit_lem}
use ollama_herd.Queue.Moves.{move_pending_lem}
use ollama_herd.Tests.Samples.{llama, mini, studio, entry}

program : Unit {0}
unfolding text_eq Dict.get Dict.set Dict.pop acquire_client release_client put_item ensure_workers
    spawn dispatch enqueue compute_queue_concurrency compute_concurrency get_node
program = tt

abbrev limit : ClientLimit
limit = record { max_in_flight = 2; retry_after = 5 }

abbrev client : Text
client = text "10.0.0.9"

abbrev other : Text
other = text "10.0.0.8"

-- The client of each request: those of `a` and `b` are one.
abbrev ip_of : Text → Text
ip_of rid = if text_eq rid (text "c") then other else client

abbrev a : QueueEntry
a = entry (text "a") client

abbrev b : QueueEntry
b = entry (text "b") client

abbrev c : QueueEntry
c = entry (text "c") other

abbrev both : Clients
both = record { client_in_flight = (client, 2) ∷ []; counted_requests = text "b" ∷ text "a" ∷ [] }

abbrev one : Clients
one = record { client_in_flight = (client, 1) ∷ []; counted_requests = text "a" ∷ [] }

Changes-IsBalanced_example : IsBalanced ip_of 2 (release_client a both)
unfolding program
Changes-IsBalanced_example =
    Changes-IsBalanced {ip_of = ip_of} {l = limit} {c = release_client a both} (
      next
        (next (next here (acquire a no_clients one refl refl refl))
          (acquire b one both refl refl refl))
        (release a both refl))

-- A queue with a waiting request and two workers, before and after a dispatch.
abbrev empty : DeviceModelQueue
empty = new_queue mini llama

abbrev ready : DeviceModelQueue
ready = ensure_workers 2 (put_item a empty)

abbrev busy : DeviceModelQueue
busy = dispatch 0 a false 100 (record ready { pending = [] })

Reach-in_flight-le_example :
    (length busy.in_flight ≤ length busy.worker_tasks + 0) × (length busy.worker_tasks ≤ 8)
unfolding program
Reach-in_flight-le_example = Reach-in_flight-le mini llama [] busy (
    Workers.next
      (Workers.next (Workers.next Workers.here (Workers.put [] empty a))
        (Workers.ensure [] (put_item a empty) 2 (omega arith)))
      (Workers.start [] ready 0 100 a [] refl refl))

abbrev key : Text
key = queue_key mini llama

-- The manager with `a` in flight since 100 and `b` and `c` waiting.
abbrev running : DeviceModelQueue
running = record busy { pending = b ∷ c ∷ [] }

abbrev manager : QueueManager
manager = record { queues = (key, running) ∷ []; clients = one; reaper_events = [] }

mark_completed-HasLeft_example :
    let m' = (mark_completed key a (some 20) none none 200 manager).0 in
    (m'.clients ≡ release_client a one)
    × ((q' : DeviceModelQueue) × (Dict.get key m'.queues ≡ some q')
        × HasLeft (text "a") running q'
        × (q'.completed_count ≡ 1)
        × (q'.failed_count ≡ 0))
unfolding program
mark_completed-HasLeft_example =
    mark_completed-HasLeft key a (some 20) none none 200 manager running refl

settle_on_exit_lem_example :
    let m' = settle_on_exit key a 200 manager in
    ((q' : DeviceModelQueue) × (Dict.get key m'.queues ≡ some q')
      × (Dict.contains (text "a") q'.in_flight ≡ false)
      × (Dict.contains (text "a") q'.slots ≡ false)
      × (q'.set_events ≡ released (text "a") running)
      × (q'.failed_count ≡ 1)
      × (q'.completed_count ≡ 0))
    × (m'.clients ≡ release_client a one)
unfolding program
settle_on_exit_lem_example = settle_on_exit_lem key a 200 manager running refl refl

reap_stale_in_flight-IsReaped_example :
    (q' : DeviceModelQueue) × (Dict.get key (reap_stale_in_flight 600 1000 manager).queues
      ≡ some q')
    × IsReaped 600 1000 running q'
unfolding program
reap_stale_in_flight-IsReaped_example =
    reap_stale_in_flight-IsReaped 600 1000 manager key running refl (refl, tt)

move_pending_lem_example :
    let target = queue_key studio llama in
    let done = move_pending none key target 1 manager in
    (done.1 ≡ 1)
    × (Dict.get key done.0.queues ≡ some (record running { pending = c ∷ [] }))
    × ((q : DeviceModelQueue) × (Dict.get target done.0.queues ≡ some q)
        × (q.pending ≡ reassign studio b ∷ [])
        × (q.in_flight ≡ []))
    × (done.0.clients ≡ one)
unfolding program
move_pending_lem_example =
    move_pending_lem key studio llama refl (text_apart key (queue_key studio llama) refl) none 1
      manager running refl

abbrev start : QueueManager
start = record { queues = []; clients = no_clients; reaper_events = [] }

Reach-IsKeyed_example : queue_key mini llama ≡ key
unfolding program
Reach-IsKeyed_example =
    Reachable.Reach-IsKeyed
      (record {
        queues = (key, refresh_workers none (put_item a empty)) ∷ [];
        clients = one;
        reaper_events = [];
      })
      key (refresh_workers none (put_item a empty))
      (Reachable.next Reachable.here (
        Reachable.admit limit none a start
          (record {
            queues = (key, refresh_workers none (put_item a empty)) ∷ [];
            clients = one;
            reaper_events = [];
          })
          refl))
      refl
