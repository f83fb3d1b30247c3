-- ===== src/Queue/Clients.antt =====
-- The limit on the requests that one client has in flight.
use ollama_herd.Common.{
  ℕ, ◌+◌, ◌-◌, not, List, ◌∷◌, Text, text_eq, mem, is_empty, ltb, leb, ◌==◌, if◌then◌else◌, filter,
}
use ollama_herd.Dict.{Dict}
use ollama_herd.Dict
use ollama_herd.Models.Request.{QueueEntry}

-- `_client_in_flight` and `_counted_requests`, the members of a set in some order.
pub record Clients : Type 0 where
  pub client_in_flight : Dict ℕ
  pub counted_requests : List Text

-- The two settings; a manager without settings has a limit of 0.
pub record ClientLimit : Type 0 where
  pub max_in_flight : ℕ
  pub retry_after : ℕ

pub record ClientConcurrencyExceeded : Type 0 where
  pub client_ip : Text
  pub limit : ℕ
  pub retry_after : ℕ

pub data Acquired : Type 0 where
  acquired : Clients → Acquired
  exceeded : ClientConcurrencyExceeded → Acquired

-- `set.add` and `set.discard`
abbrev pub add_member : Text → List Text → List Text
add_member x xs = if mem x xs then xs else x ∷ xs

abbrev pub discard : Text → List Text → List Text
discard x xs = filter (λ y. not (text_eq y x)) xs

unfoldable pub acquire_client : ClientLimit → QueueEntry → Clients → Acquired
acquire_client l entry c =
    let ip = entry.request.client_ip in
    let held = Dict.get_or ip 0 c.client_in_flight in
    if l.max_in_flight == 0
    then acquired c
    else if is_empty ip
    then acquired c
    else if leb l.max_in_flight held
    then exceeded (record { client_ip = ip; limit = l.max_in_flight; retry_after = l.retry_after })
    else acquired (record {
      client_in_flight = Dict.set ip (held + 1) c.client_in_flight;
      counted_requests = add_member entry.request.request_id c.counted_requests;
    })

unfoldable pub release_client : QueueEntry → Clients → Clients
release_client entry c =
    let rid = entry.request.request_id in
    let ip = entry.request.client_ip in
    let remaining = Dict.get_or ip 0 c.client_in_flight - 1 in
    if not (mem rid c.counted_requests) then c else record {
      client_in_flight =
          if ltb 0 remaining
          then Dict.set ip remaining c.client_in_flight
          else Dict.pop ip c.client_in_flight;
      counted_requests = discard rid c.counted_requests;
    }
