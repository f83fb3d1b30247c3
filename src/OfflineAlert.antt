-- ===== src/OfflineAlert.antt =====
-- Opening a dashboard when a node goes offline (src/fleet_manager/server/offline_alert.py). Times are
-- milliseconds of the monotonic clock.
pub mod Cooldown
use ollama_herd.Common.{
  true, false, ℕ, zero, ◌+◌, ◌-◌, Bool, Option, none, some, List, [], ◌∷◌, ◌++◌, Text, text,
  is_empty, if◌then◌else◌, ltb, ◌==◌,
}
use ollama_herd.Url.Decimal.{decimal}

abbrev pub reopen_cooldown_ms : ℕ
reopen_cooldown_ms = 300000

-- `sys.platform`
pub data Platform : Type 0 where
  darwin win32 other : Platform

-- `_browser_command`; `which` is what `shutil.which` finds for the opener of the platform.
unfoldable pub browser_command : Platform → (Text → Option Text) → Text → Option (List Text)
browser_command Platform.darwin which url = elim (which (text "open")) [
  | none ↦ none
  | some opener ↦ some (opener ∷ url ∷ [])
]
browser_command Platform.win32 which url =
    some (text "cmd" ∷ text "/c" ∷ text "start" ∷ [] ∷ url ∷ [])
browser_command Platform.other which url = elim (which (text "xdg-open")) [
  | none ↦ none
  | some opener ↦ some (opener ∷ url ∷ [])
]

-- The settings that the alerter reads.
pub record AlertSettings : Type 0 where
  pub offline_alert : Bool
  pub offline_alert_url : Text
  pub port : ℕ

pub record OfflineAlerter : Type 0 where
  pub settings : AlertSettings
  pub port : ℕ
  pub clients : ℕ
  pub last_open_at : ℕ

-- `OfflineAlerter(settings, port=port)`
unfoldable pub new_alerter : AlertSettings → Option ℕ → OfflineAlerter
new_alerter s none = record { settings = s; port = s.port; clients = 0; last_open_at = 0 }
new_alerter s (some port) = record {
  settings = s;
  port = if port == 0 then s.port else port;
  clients = 0;
  last_open_at = 0;
}

unfoldable pub client_connected : OfflineAlerter → OfflineAlerter
client_connected a = record a { clients = a.clients + 1 }

unfoldable pub client_disconnected : OfflineAlerter → OfflineAlerter
client_disconnected a = record a { clients = a.clients - 1 }

abbrev pub is_watched : OfflineAlerter → Bool
is_watched a = ltb 0 a.clients

abbrev pub dashboard_url : OfflineAlerter → Text
dashboard_url a =
    if is_empty a.settings.offline_alert_url
    then text "http://localhost:" ++ decimal a.port ++ text "/dashboard"
    else a.settings.offline_alert_url

-- What comes of a call; a command that was run, with whether it could be.
pub data Outcome : Type 0 where
  disabled watched cooling no_opener : Outcome
  failed opened : List Text → Outcome

-- The machine: its platform and its openers.
pub record Machine : Type 0 where
  pub platform : Platform
  pub which : Text → Option Text

-- A call before it waits for its command: it is over, or it has started the command.
pub data Begun : Type 0 where
  over : Outcome → Begun
  awaiting : List Text → Begun

-- `node_went_offline` up to the start of the command, which changes nothing of the alerter; the name
-- of the node goes to the log only.
unfoldable pub begin_call : Machine → ℕ → OfflineAlerter → Begun
begin_call m now a =
    let tried : Begun = elim (browser_command m.platform m.which (dashboard_url a)) [
      | none ↦ over no_opener
      | some cmd ↦ awaiting cmd
    ] in
    if a.settings.offline_alert
    then if is_watched a
      then over watched
      else if ltb (now - a.last_open_at) reopen_cooldown_ms
      then over cooling
      else tried
    else over disabled

-- The rest of a call that began at `now`, once the command has ended, or could not be run. The alerter
-- is the one of then: other calls may have begun or ended in between.
unfoldable pub end_call : Bool → ℕ → List Text → OfflineAlerter → Outcome × OfflineAlerter
end_call true now cmd a = (opened cmd, record a { last_open_at = now })
end_call false now cmd a = (failed cmd, a)
