-- ===== src/Queue/Reaper.antt =====
-- A round of the reaper.
use ollama_herd.Common.{
  ℕ, ◌+◌, ◌≤◌, ◌<◌, ◌≡◌, ◌⊎◌, refl, sym, ap, subst, ◌∙◌, zero, suc, true, false, Option, none, some,
  List, [], ◌∷◌, ◌++◌, Text, text_eq, text_eq_iff, if◌then◌else◌, arith, length, length-append,
  length-drop, Bool-cases, inl, inr, filter,
}
use ollama_herd.Dict.{Dict}
use ollama_herd.Dict
use ollama_herd.Dict.Unique.{Unique}
use ollama_herd.Models.Request.{QueueEntry}
use ollama_herd.Queue.Clients.{Clients}
use ollama_herd.Queue.State.{
  DeviceModelQueue, leave, release_slot, fail_in, is_stale, or_time, overdue,
}
use ollama_herd.Queue.Manager.{
  QueueManager, ReaperEvent, Reaping, log_event, reap_entry, reap_entries, stale_entries,
  reap_queues, reap_stale_in_flight,
}

-- What a failure changes of a queue, apart from its slots.
pub fail_in_fields :
    (rid : Text) (q : DeviceModelQueue)
    → ((fail_in rid q).in_flight ≡ Dict.pop rid q.in_flight)
      × ((fail_in rid q).failed_count ≡ q.failed_count + 1)
      × ((fail_in rid q).pending ≡ q.pending)
unfolding fail_in leave release_slot
fail_in_fields rid q = (ground arith, ground arith, ground arith)

module _ (key : Text) (now : ℕ) where
  get-reap_entries :
      (stale : Dict QueueEntry) (s : Reaping) (rid : Text)
      → Dict.get rid (reap_entries key now stale s).queue.in_flight
        ≡ (if Dict.contains rid stale then none else Dict.get rid s.queue.in_flight)
  unfolding reap_entries Dict.get
  get-reap_entries [] s rid = refl
  get-reap_entries ((r, e) ∷ stale) s rid = ground (
    arith,
    get-reap_entries stale (reap_entry key now r e s) rid,
    (fail_in_fields r s.queue).0,
    Dict.get-pop r rid s.queue.in_flight,
  )

  reap_entries_fields :
      (stale : Dict QueueEntry) (s : Reaping)
      → ((reap_entries key now stale s).queue.failed_count ≡ s.queue.failed_count + length stale)
        × ((reap_entries key now stale s).queue.pending ≡ s.queue.pending)
  unfolding reap_entries
  reap_entries_fields [] s = (omega arith, refl)
  reap_entries_fields ((r, e) ∷ stale) s =
      let rest = reap_entries_fields stale (reap_entry key now r e s) in
      let one = fail_in_fields r s.queue in
      (ground (arith, rest.0, one.1), ground (arith, rest.1, one.2))

  log_event-le :
      (e : ReaperEvent) (events : List ReaperEvent)
      → length events ≤ 100
      → length (log_event e events) ≤ 100
  unfolding log_event
  log_event-le e events h =
      ground (arith, length-append events (e ∷ []), length-drop 1 (events ++ e ∷ []))

  reap_entries-events :
      (stale : Dict QueueEntry) (s : Reaping)
      → length s.events ≤ 100
      → length (reap_entries key now stale s).events ≤ 100
  unfolding reap_entries
  reap_entries-events [] s h = h
  reap_entries-events ((r, e) ∷ stale) s h =
      reap_entries-events stale (reap_entry key now r e s) (log_event-le _ s.events h)

-- A time that was noted, where 0 counts as none.
abbrev pub IsNoted : Option ℕ → ℕ → Type 0
IsNoted noted t = (noted ≡ some t) × (0 < t)

-- A request of which the last sign is older than the time limit: its last output or, if it has given
-- none, its start.
abbrev pub IsSilent : ℕ → ℕ → QueueEntry → Type 0
IsSilent timeout now e =
    (t : ℕ) × (t + timeout < now)
    × (IsNoted e.last_progress_at t
        ⊎ (((u : ℕ) → ¬ IsNoted e.last_progress_at u) × IsNoted e.started_at t))

-- What a round leaves of a request in flight: nothing if it is silent, and itself if it is not.
abbrev pub Fate : ℕ → ℕ → Option QueueEntry → Option QueueEntry → Type 0
Fate timeout now none after = after ≡ none
Fate timeout now (some e) after =
    (IsSilent timeout now e × (after ≡ none)) ⊎ ((¬ IsSilent timeout now e) × (after ≡ some e))

noted_once : (o : Option ℕ) (t u : ℕ) → o ≡ some t → o ≡ some u → t ≡ u
noted_once o t u e f = ap (λ x. elim x [ none ↦ t | some n ↦ n ]) (sym e ∙ f)

none-IsNoted : (u : ℕ) → ¬ IsNoted none u
none-IsNoted u (e, positive) = cc

zero-IsNoted : (u : ℕ) → ¬ IsNoted (some 0) u
zero-IsNoted u (e, positive) = let same = noted_once (some 0) 0 u refl e in omega arith

overdue-IsNoted :
    (timeout now : ℕ) (o : Option ℕ)
    → overdue timeout now o ≡ true
    → (t : ℕ) × (t + timeout < now) × IsNoted o t
unfolding is_stale
overdue-IsNoted timeout now none h = cc
overdue-IsNoted timeout now (some zero) h = cc
overdue-IsNoted timeout now (some (suc t)) h = (suc t, ground arith, (refl, omega arith))

overdue_noted :
    (timeout now t : ℕ) (o : Option ℕ)
    → t + timeout < now
    → IsNoted o t
    → overdue timeout now o ≡ true
overdue_noted timeout now t none late (e, positive) = cc
overdue_noted timeout now t (some zero) late (e, positive) = elim (zero-IsNoted t (e, positive)) [ ]
overdue_noted timeout now t (some (suc u)) late (e, positive) =
    let same = noted_once (some (suc u)) (suc u) t refl e in ground arith

stale-IsSilent :
    (timeout now : ℕ) (p s : Option ℕ)
    → overdue timeout now (or_time p s) ≡ true
    → (t : ℕ) × (t + timeout < now) × (IsNoted p t ⊎ (((u : ℕ) → ¬ IsNoted p u) × IsNoted s t))
stale-IsSilent timeout now none s h =
    let (t, late, noted) = overdue-IsNoted timeout now s h in (t, late, inr (none-IsNoted, noted))
stale-IsSilent timeout now (some zero) s h =
    let (t, late, noted) = overdue-IsNoted timeout now s h in (t, late, inr (zero-IsNoted, noted))
stale-IsSilent timeout now (some (suc n)) s h =
    let (t, late, noted) = overdue-IsNoted timeout now (some (suc n)) h in (t, late, inl noted)

silent_stale :
    (timeout now t : ℕ) (p s : Option ℕ)
    → t + timeout < now
    → IsNoted p t ⊎ (((u : ℕ) → ¬ IsNoted p u) × IsNoted s t)
    → overdue timeout now (or_time p s) ≡ true
silent_stale timeout now t none s late (inl noted) = elim (none-IsNoted t noted) [ ]
silent_stale timeout now t none s late (inr (quiet, noted)) =
    overdue_noted timeout now t s late noted
silent_stale timeout now t (some zero) s late (inl noted) = elim (zero-IsNoted t noted) [ ]
silent_stale timeout now t (some zero) s late (inr (quiet, noted)) =
    overdue_noted timeout now t s late noted
silent_stale timeout now t (some (suc n)) s late (inl noted) =
    overdue_noted timeout now t (some (suc n)) late noted
silent_stale timeout now t (some (suc n)) s late (inr (quiet, noted)) =
    elim (quiet (suc n) (refl, omega arith)) [ ]

-- The entry, unless it is stale.
abbrev unless_stale : ℕ → ℕ → Option QueueEntry → Option QueueEntry
unless_stale timeout now none = none
unless_stale timeout now (some e) = if is_stale timeout now e then none else some e

unless_stale-Fate :
    (timeout now : ℕ) (o : Option QueueEntry) → Fate timeout now o (unless_stale timeout now o)
unfolding is_stale
unless_stale-Fate timeout now none = refl
unless_stale-Fate timeout now (some e) = elim (Bool-cases (is_stale timeout now e)) [
  | inl stale ↦
      rw stale (inl (stale-IsSilent timeout now e.last_progress_at e.started_at stale, refl))
  | inr fresh ↦ rw fresh (
      inr (
        λ (t, late, sign).
            let stale : is_stale timeout now e ≡ true =
              silent_stale timeout now t e.last_progress_at e.started_at late sign in
            cc,
        refl,
      ))
]

contains-stale :
    (timeout now : ℕ) (d : Dict QueueEntry) (rid : Text)
    → Unique d
    → (if Dict.contains rid (filter (λ e. is_stale timeout now e.1) d)
        then none
        else Dict.get rid d)
      ≡ unless_stale timeout now (Dict.get rid d)
unfolding Dict.get
contains-stale timeout now [] rid u = refl
contains-stale timeout now ((r, e) ∷ d) rid u =
    ground
      (arith, contains-stale timeout now d rid u.1, absent timeout now d r u.0, text_eq_iff r rid)
  where
    absent :
        (timeout now : ℕ) (d : Dict QueueEntry) (r : Text)
        → Dict.contains r d ≡ false
        → Dict.contains r (filter (λ e. is_stale timeout now e.1) d) ≡ false
    absent timeout now [] r h = refl
    absent timeout now ((j, e) ∷ d) r h = ground (arith, absent timeout now d r)

-- What a round makes of a queue.
pub record IsReaped (timeout now : ℕ) (q q' : DeviceModelQueue) : Type 0 where
  pub kept : (rid : Text) → Fate timeout now (Dict.get rid q.in_flight) (Dict.get rid q'.in_flight)
  pub failed : q'.failed_count ≡ q.failed_count + length (stale_entries timeout now q)
  pub waiting : q'.pending ≡ q.pending

reap_queue-IsReaped :
    (timeout now : ℕ) (key : Text) (q : DeviceModelQueue) (c : Clients) (events : List ReaperEvent)
    → Unique q.in_flight
    → IsReaped timeout now q
        (reap_entries key now
          (stale_entries timeout now q)
          (record { queue = q; clients = c; events = events })).queue
reap_queue-IsReaped timeout now key q c events u =
    let s : Reaping = record { queue = q; clients = c; events = events } in
    let stale = stale_entries timeout now q in
    let fields = reap_entries_fields key now stale s in
    record {
      kept = λ rid.
          subst (Fate timeout now (Dict.get rid q.in_flight))
            (sym
              (get-reap_entries key now stale s rid ∙ contains-stale timeout now q.in_flight rid u))
            (unless_stale-Fate timeout now (Dict.get rid q.in_flight));
      failed = fields.0;
      waiting = fields.1;
    }

get-reap_queues :
    (timeout now : ℕ) (qs : Dict DeviceModelQueue) (c : Clients) (events : List ReaperEvent)
    (key : Text) (q : DeviceModelQueue)
    → Dict.get key qs ≡ some q
    → Unique q.in_flight
    → (q' : DeviceModelQueue) × (Dict.get key (reap_queues timeout now qs c events).0 ≡ some q')
      × IsReaped timeout now q q'
unfolding reap_queues Dict.get
get-reap_queues timeout now [] c events key q e u = cc
get-reap_queues timeout now ((k, p) ∷ qs) c events key q e u = elim (Bool-cases (text_eq k key)) [
  | inl same ↦
      let here : p ≡ q = ground arith in
      rw (same, here) (_, refl, reap_queue-IsReaped timeout now k q c events u)
  | inr other ↦ rw other (get-reap_queues timeout now qs _ _ key q (ground arith) u)
]

-- After a round, a queue keeps exactly the requests in flight that are not silent, a request being
-- silent if its last output (or, before its first output, its start) is longer ago than the time
-- limit; each request found stale is counted as failed, and the waiting requests are untouched.
pub reap_stale_in_flight-IsReaped :
    (timeout now : ℕ) (m : QueueManager) (key : Text) (q : DeviceModelQueue)
    → Dict.get key m.queues ≡ some q
    → Unique q.in_flight
    → (q' : DeviceModelQueue) × (Dict.get key (reap_stale_in_flight timeout now m).queues ≡ some q')
      × IsReaped timeout now q q'
unfolding reap_stale_in_flight
reap_stale_in_flight-IsReaped timeout now m key q e u =
    get-reap_queues timeout now m.queues m.clients m.reaper_events key q e u

reap_queues-events :
    (timeout now : ℕ) (qs : Dict DeviceModelQueue) (c : Clients) (events : List ReaperEvent)
    → length events ≤ 100
    → length (reap_queues timeout now qs c events).2 ≤ 100
unfolding reap_queues
reap_queues-events timeout now [] c events h = h
reap_queues-events timeout now ((k, q) ∷ qs) c events h = reap_queues-events timeout now qs _ _ (
    reap_entries-events k now (stale_entries timeout now q)
      (record { queue = q; clients = c; events = events }) h)

-- The record of the reaper never grows beyond 100 events.
pub length-reaper_events-le :
    (timeout now : ℕ) (m : QueueManager)
    → length m.reaper_events ≤ 100
    → length (reap_stale_in_flight timeout now m).reaper_events ≤ 100
unfolding reap_stale_in_flight
length-reaper_events-le timeout now m h =
    reap_queues-events timeout now m.queues m.clients m.reaper_events h
