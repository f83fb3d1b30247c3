-- ===== src/OfflineAlert/Cooldown.antt =====
-- When a dashboard is opened (src/fleet_manager/server/offline_alert.py).
use ollama_herd.Common.{
  ℕ, ◌+◌, ◌-◌, ◌≤◌, ◌≡◌, ◌↔◌, ap, refl, sym, ◌∙◌, Bool, true, false, Option, none, some, List, [],
  ◌∷◌, Text, ltb, arith, Bool-cases, Option-cases, inl, inr,
}
use ollama_herd.OfflineAlert.{
  reopen_cooldown_ms, browser_command, AlertSettings, OfflineAlerter, new_alerter, client_connected,
  client_disconnected, is_watched, dashboard_url, Outcome, disabled, watched, cooling, no_opener,
  Machine, Begun, over, awaiting, begin_call, end_call,
}

abbrev pub MayOpen : Machine → ℕ → OfflineAlerter → List Text → Type 0
MayOpen m now a cmd =
    (a.settings.offline_alert ≡ true)
    × (is_watched a ≡ false)
    × (reopen_cooldown_ms ≤ now - a.last_open_at)
    × (browser_command m.platform m.which (dashboard_url a) ≡ some cmd)

apart : true ≡ false → ⊥
apart e = cc

command_of : Begun → List Text
command_of (over o) = []
command_of (awaiting cmd) = cmd

-- Whether a call has started a command.
abbrev starts : Begun → Bool
starts (over o) = false
starts (awaiting cmd) = true

pub begin_call_lem :
    (m : Machine) (now : ℕ) (a : OfflineAlerter) (cmd : List Text)
    → (begin_call m now a ≡ awaiting cmd) ↔ MayOpen m now a cmd
unfolding begin_call command_of
begin_call_lem m now a cmd = (
  may,
  λ (enabled, alone, cool, found).
      let past : ltb (now - a.last_open_at) reopen_cooldown_ms ≡ false = ground arith in
      rw (enabled, alone, past, found) refl,
)
  where
    late :
        ltb (now - a.last_open_at) reopen_cooldown_ms ≡ false
        → reopen_cooldown_ms ≤ now - a.last_open_at
    late cool = ground arith

    not_started :
        (o : Outcome)
        → begin_call m now a ≡ over o
        → begin_call m now a ≡ awaiting cmd
        → true ≡ false
    not_started o e f = ap starts (sym f ∙ e)

    may : begin_call m now a ≡ awaiting cmd → MayOpen m now a cmd
    may h = elim (Bool-cases a.settings.offline_alert) [
      | inr unset ↦ elim (apart (not_started disabled (rw unset refl) h)) [ ]
      | inl enabled ↦ elim (Bool-cases (is_watched a)) [
        | inl busy ↦ elim (apart (not_started watched (rw (enabled, busy) refl) h)) [ ]
        | inr alone ↦ elim (Bool-cases (ltb (now - a.last_open_at) reopen_cooldown_ms)) [
          | inl recent ↦ elim (apart (not_started cooling (rw (enabled, alone, recent) refl) h)) [ ]
          | inr cool ↦ elim (Option-cases (browser_command m.platform m.which (dashboard_url a))) [
            | inl nothing ↦
                elim (apart (not_started no_opener (rw (enabled, alone, cool, nothing) refl) h)) [ ]
            | inr (other, found) ↦
                let run : begin_call m now a ≡ awaiting other =
                  rw (enabled, alone, cool, found) refl in
                (enabled, alone, late cool, found ∙ ap some (ap command_of (sym run ∙ h)))
          ]
        ]
      ]
    ]

-- The alerter of a server that has the given settings, at a time, where a call begins only while no
-- other waits for its command: with the call that waits, its time and its command, and with the times
-- at which the calls began that opened a dashboard, the last one first.
pub data Runs (s : AlertSettings) (m : Machine)
    : ℕ → OfflineAlerter → Option (ℕ × List Text) → List ℕ → Type 0 where
  start : (port : Option ℕ) → Runs s m 0 (new_alerter s port) none []
  connected :
      {now : ℕ} {a : OfflineAlerter} {waiting : Option (ℕ × List Text)} {times : List ℕ}
      → Runs s m now a waiting times
      → Runs s m now (client_connected a) waiting times
  disconnected :
      {now : ℕ} {a : OfflineAlerter} {waiting : Option (ℕ × List Text)} {times : List ℕ}
      → Runs s m now a waiting times
      → Runs s m now (client_disconnected a) waiting times
  passes :
      (later : ℕ) {now : ℕ} {a : OfflineAlerter} {waiting : Option (ℕ × List Text)} {times : List ℕ}
      → now ≤ later
      → Runs s m now a waiting times
      → Runs s m later a waiting times
  begins :
      (cmd : List Text) {now : ℕ} {a : OfflineAlerter} {times : List ℕ}
      → begin_call m now a ≡ awaiting cmd
      → Runs s m now a none times
      → Runs s m now a (some (now, cmd)) times
  fails :
      (t : ℕ) (cmd : List Text) {now : ℕ} {a : OfflineAlerter} {times : List ℕ}
      → Runs s m now a (some (t, cmd)) times
      → Runs s m now (end_call false t cmd a).1 none times
  opens :
      (t : ℕ) (cmd : List Text) {now : ℕ} {a : OfflineAlerter} {times : List ℕ}
      → Runs s m now a (some (t, cmd)) times
      → Runs s m now (end_call true t cmd a).1 none (t ∷ times)

-- Each of the times, the last one first, is at least the cooldown after the next, and the first one
-- is that long after the start of the clock.
abbrev pub IsSpaced : List ℕ → Type 0
IsSpaced [] = Unit
IsSpaced (t ∷ []) = reopen_cooldown_ms ≤ t
IsSpaced (t ∷ (u ∷ us)) = (u + reopen_cooldown_ms ≤ t) × IsSpaced (u ∷ us)

-- The last of the times is the one that the alerter has noted.
Noted : List ℕ → ℕ → Type 0
Noted [] last = last ≡ 0
Noted (t ∷ ts) last = last ≡ t

-- A call that waits began when the cooldown was over.
abbrev IsReady : Option (ℕ × List Text) → ℕ → Type 0
IsReady none last = Unit
IsReady (some (t, cmd)) last = reopen_cooldown_ms ≤ t - last

IsSpaced-note :
    (now last : ℕ) (times : List ℕ)
    → Noted times last
    → reopen_cooldown_ms ≤ now - last
    → IsSpaced times
    → IsSpaced (now ∷ times)
unfolding Noted
IsSpaced-note now last [] noted cool spaced = omega arith
IsSpaced-note now last (t ∷ ts) noted cool spaced = (omega arith, spaced)

-- What every run keeps.
Runs-Noted :
    (s : AlertSettings) (m : Machine) (now : ℕ) (a : OfflineAlerter)
    (waiting : Option (ℕ × List Text)) (times : List ℕ)
    → Runs s m now a waiting times
    → Noted times a.last_open_at × IsSpaced times × IsReady waiting a.last_open_at
unfolding new_alerter client_connected client_disconnected end_call Noted
Runs-Noted s m _ _ _ _ (start none) = (refl, tt, tt)
Runs-Noted s m _ _ _ _ (start (some port)) = (refl, tt, tt)
Runs-Noted s m now _ w times (connected runs) = Runs-Noted s m now _ w times runs
Runs-Noted s m now _ w times (disconnected runs) = Runs-Noted s m now _ w times runs
Runs-Noted s m _ a w times (passes later order runs) = Runs-Noted s m _ a w times runs
Runs-Noted s m now a _ times (begins cmd e runs) =
    let (noted, spaced, ready) = Runs-Noted s m now a none times runs in
    (noted, spaced, ((begin_call_lem m now a cmd).0 e).2)
Runs-Noted s m now _ _ times (fails t cmd runs) =
    let (noted, spaced, ready) = Runs-Noted s m now _ (some (t, cmd)) times runs in
    (noted, spaced, tt)
Runs-Noted s m now _ _ _ (opens t cmd {a = a} {times = times} runs) =
    let (noted, spaced, ready) = Runs-Noted s m now a (some (t, cmd)) times runs in
    (refl, IsSpaced-note t a.last_open_at times noted ready spaced, tt)

-- Where no call begins while another waits for its command, two dashboards are opened by calls that
-- began at least the cooldown apart, and the first one by a call at least the cooldown after the zero
-- of the clock, however the watchers come and go.
pub Runs-IsSpaced :
    (s : AlertSettings) (m : Machine) (now : ℕ) (a : OfflineAlerter)
    (waiting : Option (ℕ × List Text)) (times : List ℕ)
    → Runs s m now a waiting times
    → IsSpaced times
Runs-IsSpaced s m now a waiting times runs = (Runs-Noted s m now a waiting times runs).1
