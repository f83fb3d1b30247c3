-- ===== src/Queue/Accounting.antt =====
-- The count of a client's requests is the number of its requests that hold a slot, through any
-- sequence of reservations and releases.
use ollama_herd.Common.{
  ℕ, ◌+◌, ◌-◌, ◌≤◌, ◌<◌, ◌≡◌, ◌↔◌, refl, true, false, List, [], ◌∷◌, Text, text_eq, text_eq_iff,
  text_eq_refl, mem, is_empty, if◌then◌else◌, arith, Bool-cases, inl, inr,
}
use ollama_herd.Dict.{Dict}
use ollama_herd.Dict
use ollama_herd.Models.Request.{QueueEntry}
use ollama_herd.Queue.Clients.{
  Clients, ClientLimit, acquired, exceeded, discard, acquire_client, release_client,
}

-- How many of the requests come from the client; `ip_of` gives each request's client.
abbrev pub requests_of : (Text → Text) → Text → List Text → ℕ
requests_of ip_of ip [] = 0
requests_of ip_of ip (r ∷ rs) =
    if text_eq (ip_of r) ip then requests_of ip_of ip rs + 1 else requests_of ip_of ip rs

-- No request is counted twice.
abbrev pub AllOnce : List Text → Type 0
AllOnce [] = Unit
AllOnce (r ∷ rs) = (mem r rs ≡ false) × AllOnce rs

pub record IsBalanced (ip_of : Text → Text) (limit : ℕ) (c : Clients) : Type 0 where
  pub exact :
      (ip : Text) → Dict.get_or ip 0 c.client_in_flight ≡ requests_of ip_of ip c.counted_requests
  pub bounded : (ip : Text) → requests_of ip_of ip c.counted_requests ≤ limit
  pub once : AllOnce c.counted_requests

discard_absent : (x : Text) (rs : List Text) → mem x rs ≡ false → discard x rs ≡ rs
discard_absent x [] h = refl
discard_absent x (r ∷ rs) h = ground (arith, discard_absent x rs, text_eq_iff r x, text_eq_iff x r)

mem-discard : (x y : Text) (rs : List Text) → mem x rs ≡ false → mem x (discard y rs) ≡ false
mem-discard x y [] h = refl
mem-discard x y (r ∷ rs) h = ground (arith, mem-discard x y rs)

discard-AllOnce : (x : Text) (rs : List Text) → AllOnce rs → AllOnce (discard x rs)
discard-AllOnce x [] h = tt
discard-AllOnce x (r ∷ rs) h = ground (arith, discard-AllOnce x rs h.1, mem-discard r x rs h.0)

requests_of-discard :
    (ip_of : Text → Text) (ip x : Text) (rs : List Text)
    → AllOnce rs
    → mem x rs ≡ true
    → requests_of ip_of ip (discard x rs) + (if text_eq (ip_of x) ip then 1 else 0)
      ≡ requests_of ip_of ip rs
requests_of-discard ip_of ip x [] o h = cc
requests_of-discard ip_of ip x (r ∷ rs) o h = elim (Bool-cases (text_eq x r)) [
  | inl same ↦
      let e : x ≡ r = (text_eq_iff x r).0 same in
      let rest = discard_absent x rs (rw e o.0) in
      ground (arith, rest, text_eq_iff r x, text_eq_iff x r)
  | inr other ↦
      ground (arith, requests_of-discard ip_of ip x rs o.1, text_eq_iff r x, text_eq_iff x r)
]

module _ (ip_of : Text → Text) (l : ClientLimit) (entry : QueueEntry) (c : Clients) where
  open entry.request use {request_id, client_ip}

  acquired-IsBalanced :
      (c' : Clients)
      → ip_of request_id ≡ client_ip
      → mem request_id c.counted_requests ≡ false
      → acquire_client l entry c ≡ acquired c'
      → IsBalanced ip_of l.max_in_flight c
      → IsBalanced ip_of l.max_in_flight c'
  unfolding acquire_client
  acquired-IsBalanced c' own new e v = record {
    exact = λ ip. ground (
      arith,
      v.exact ip,
      v.exact client_ip,
      text_eq_iff client_ip ip,
      Dict.get-set client_ip ip (Dict.get_or client_ip 0 c.client_in_flight + 1) c.client_in_flight,
    );
    bounded = λ ip. ground (arith, v.exact client_ip, v.bounded ip, text_eq_iff client_ip ip);
    once = ground (arith, v.once);
  }

  released-IsBalanced :
      ip_of request_id ≡ client_ip
      → IsBalanced ip_of l.max_in_flight c
      → IsBalanced ip_of l.max_in_flight (release_client entry c)
  unfolding release_client
  released-IsBalanced own v = record {
    exact = λ ip. ground (
      arith,
      v.exact ip,
      v.exact client_ip,
      text_eq_iff client_ip ip,
      requests_of-discard ip_of ip request_id c.counted_requests v.once,
      Dict.get-set client_ip ip (Dict.get_or client_ip 0 c.client_in_flight - 1) c.client_in_flight,
      Dict.get-pop client_ip ip c.client_in_flight,
    );
    bounded = λ ip.
        ground
          (arith, v.bounded ip, requests_of-discard ip_of ip request_id c.counted_requests v.once);
    once = ground (arith, v.once, discard-AllOnce request_id c.counted_requests v.once);
  }

-- A reservation or a release. `ip_of` gives the client of each request id, and a request id is
-- reserved at most once at a time.
pub data Change (ip_of : Text → Text) (l : ClientLimit) : Clients → Clients → Type 0 where
  acquire :
      (entry : QueueEntry) (c c' : Clients)
      → ip_of entry.request.request_id ≡ entry.request.client_ip
      → mem entry.request.request_id c.counted_requests ≡ false
      → acquire_client l entry c ≡ acquired c'
      → Change ip_of l c c'
  release :
      (entry : QueueEntry) (c : Clients)
      → ip_of entry.request.request_id ≡ entry.request.client_ip
      → Change ip_of l c (release_client entry c)

pub data Changes (ip_of : Text → Text) (l : ClientLimit) (c : Clients) : Clients → Type 0 where
  here : Changes ip_of l c c
  next : {d e : Clients} → Changes ip_of l c d → Change ip_of l d e → Changes ip_of l c e

abbrev pub no_clients : Clients
no_clients = record { client_in_flight = []; counted_requests = [] }

Change-IsBalanced :
    {ip_of : Text → Text} {l : ClientLimit} {c d : Clients}
    → Change ip_of l c d
    → IsBalanced ip_of l.max_in_flight c
    → IsBalanced ip_of l.max_in_flight d
Change-IsBalanced {ip_of} {l} (acquire entry c c' own new e) v =
    acquired-IsBalanced ip_of l entry c c' own new e v
Change-IsBalanced {ip_of} {l} (release entry c own) v = released-IsBalanced ip_of l entry c own v

-- After any sequence of reservations and releases from an empty table, in which a request id is
-- not reserved while it is counted, the count of every client is the number of its requests that
-- hold a slot, it is at most the limit, and no request is counted twice.
pub Changes-IsBalanced :
    {ip_of : Text → Text} {l : ClientLimit} {c : Clients}
    → Changes ip_of l no_clients c
    → IsBalanced ip_of l.max_in_flight c
unfolding Dict.get
Changes-IsBalanced here = record { exact = λ ip. refl; bounded = λ ip. omega arith; once = tt }
Changes-IsBalanced (next h st) = Change-IsBalanced st (Changes-IsBalanced h)

-- A request is refused exactly when there is a limit, the client is known, and it holds that many
-- slots; the refusal carries the client, the limit and the time to wait.
pub acquire_client_exceeded :
    (l : ClientLimit) (entry : QueueEntry) (c : Clients)
    → let ip = entry.request.client_ip in
      (acquire_client l entry c
        ≡ exceeded
            (record { client_ip = ip; limit = l.max_in_flight; retry_after = l.retry_after }))
      ↔ ((0 < l.max_in_flight)
          × (is_empty ip ≡ false)
          × (l.max_in_flight ≤ Dict.get_or ip 0 c.client_in_flight))
unfolding acquire_client
acquire_client_exceeded l entry c = (λ h. ground arith, λ h. ground arith)

mem-discard_self : (x : Text) (rs : List Text) → mem x (discard x rs) ≡ false
mem-discard_self x [] = refl
mem-discard_self x (r ∷ rs) =
    ground (arith, mem-discard_self x rs, text_eq_iff x r, text_eq_iff r x)

-- A request gives its slot back once: a second release changes nothing.
pub release_client_twice :
    (entry : QueueEntry) (c : Clients)
    → release_client entry (release_client entry c) ≡ release_client entry c
unfolding release_client
release_client_twice entry c =
    ground (arith, mem-discard_self entry.request.request_id c.counted_requests)

-- A reservation of a request that is not counted, and its release, leave every client's count and
-- the set of counted requests as they were.
pub release_client-acquire_client :
    (l : ClientLimit) (entry : QueueEntry) (c c' : Clients)
    → mem entry.request.request_id c.counted_requests ≡ false
    → acquire_client l entry c ≡ acquired c'
    → ((ip : Text)
        → Dict.get_or ip 0 (release_client entry c').client_in_flight
          ≡ Dict.get_or ip 0 c.client_in_flight)
      × ((release_client entry c').counted_requests ≡ c.counted_requests)
unfolding acquire_client release_client
release_client-acquire_client l entry c c' new e =
    let rid = entry.request.request_id in
    let ip = entry.request.client_ip in
    let held = Dict.get_or ip 0 c.client_in_flight in
    let full = Dict.set ip (held + 1) c.client_in_flight in
    let absent = discard_absent rid c.counted_requests new in
    (
      λ j. ground (
        arith,
        text_eq_iff ip j,
        text_eq_refl ip,
        text_eq_refl rid,
        Dict.get-set ip j (held + 1) c.client_in_flight,
        Dict.get-set ip ip (held + 1) c.client_in_flight,
        Dict.get-set ip j held full,
        Dict.get-pop ip j full,
      ),
      ground (arith, absent, text_eq_refl rid),
    )
