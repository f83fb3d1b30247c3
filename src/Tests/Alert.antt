-- ===== src/Tests/Alert.antt =====
-- The alert of a server with nobody at its dashboard.
use ollama_herd.Common.{ℕ, ◌≡◌, refl, arith, true, some, none, List, [], ◌∷◌, Text, text, text_eq}
use ollama_herd.OfflineAlert.{
  AlertSettings, OfflineAlerter, Machine, Platform, cooling, opened, new_alerter, client_connected,
  client_disconnected, browser_command, over, awaiting, begin_call, end_call,
}
use ollama_herd.OfflineAlert.Cooldown.{
  start, connected, disconnected, passes, begins, opens, IsSpaced, Runs-IsSpaced,
}

program : Unit {0}
unfolding text_eq new_alerter client_connected client_disconnected browser_command begin_call
    end_call
program = tt

abbrev settings : AlertSettings
settings = record { offline_alert = true; offline_alert_url = text "http://herd"; port = 11435 }

abbrev mac : Machine
mac = record { platform = Platform.darwin; which = λ name. some (text "/usr/bin/open") }

-- A minute after the start of the clock, a fresh server opens nothing.
quiet_after_boot : begin_call mac 60000 (new_alerter settings none) ≡ over cooling
unfolding program
quiet_after_boot = refl

abbrev opener : List Text
opener = text "/usr/bin/open" ∷ text "http://herd" ∷ []

abbrev opened_at : ℕ → OfflineAlerter
opened_at t = record { settings = settings; port = 11435; clients = 0; last_open_at = t }

-- Two nodes that are lost in one round: the second call begins while the first one waits, and both
-- open a dashboard.
both_open :
    (begin_call mac 400000 (new_alerter settings none) ≡ awaiting opener)
    × ((end_call true 400000 opener (new_alerter settings none)).0 ≡ opened opener)
    × ((end_call true 400000 opener (opened_at 400000)).0 ≡ opened opener)
unfolding program
both_open = (refl, refl, refl)

-- A flapping node: the second loss comes too early, the third does not.
Runs-IsSpaced_example : IsSpaced (700000 ∷ 400000 ∷ [])
unfolding program
Runs-IsSpaced_example =
    Runs-IsSpaced settings mac 700000 (opened_at 700000) none (700000 ∷ 400000 ∷ []) (
      opens 700000 opener {now = 700000} {a = opened_at 400000} {times = 400000 ∷ []} (
        begins opener {now = 700000} {a = opened_at 400000} {times = 400000 ∷ []} refl (
          passes 700000 {now = 400000} {a = opened_at 400000} {waiting = none} {times = 400000 ∷ []}
            (omega arith)
            (opens 400000 opener {now = 400000} {a = new_alerter settings none} {times = []} (
              begins opener {now = 400000} {a = new_alerter settings none} {times = []} refl (
                passes 400000 {now = 0} {a = new_alerter settings none} {waiting = none}
                  {times = []} (omega arith) (disconnected (connected (start none)))))))))
