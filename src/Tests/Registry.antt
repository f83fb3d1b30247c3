-- ===== src/Tests/Registry.antt =====
-- The theorems on the registry at concrete heartbeats and nodes.
use native.Mathlib.Bridge.{le_prop}
use mathlib.Core.List.{Mem, forall_mem-cons, not-mem-nil}
use ollama_herd.Common.{
  ◌≡◌, ◌<◌, refl, arith, true, false, none, some, [], ◌∷◌, Text, text, text_eq, is_empty, all,
}
use ollama_herd.Dict.{Dict}
use ollama_herd.Dict
use ollama_herd.Models.Metrics.{MlxServerInfo}
use ollama_herd.Models.Node.{NodeState, NodeStatus, new_node}
use ollama_herd.Registry.{
  NodeRegistry, build_ollama_url, update_from_heartbeat, get_node, get_all_nodes,
  monitor_heartbeats, refresh, hardware_of, port_or_default, sweep, check_node, apply_heartbeat,
  sync_hardware, mark_unloaded,
}
use ollama_herd.Registry.Heartbeat.{
  IsFresh, get_node-update_from_heartbeat, update_from_heartbeat_raises,
}
use ollama_herd.Registry.History.{Step, here, next, IsFiled, empty_registry, Reach-IsFiled}
use ollama_herd.Registry.Mlx.{resolve_mlx_url, bare_name, host_of, Serves, urlparse-resolve_mlx_url}
use ollama_herd.Registry.Monitor.{IsTimely, monitor_heartbeats-IsTimely}
use ollama_herd.Url.Parse.{urlparse, number}
use ollama_herd.Url.Roundtrip.{is_plain}
use ollama_herd.Url.Decimal.{decimal, parse_decimal}
use ollama_herd.Tests.Samples.{
  server, mini, studio, lan, heartbeat, mini_node, studio_node, fleet, settings,
}

abbrev localhost : Text
localhost = text "http://localhost:11434"

-- The port of this host is no number below 65536.
abbrev bad_host : Text
bad_host = text "http://10.0.0.5:99999"

program : Unit {0}
unfolding build_ollama_url port_or_default apply_heartbeat sync_hardware text_eq urlparse
    parse_decimal decimal update_from_heartbeat get_node monitor_heartbeats sweep check_node
    Dict.get Dict.set mark_unloaded host_of resolve_mlx_url
program = tt

get_node-update_from_heartbeat_example :
    (n : NodeState) × ((update_from_heartbeat (heartbeat localhost) lan 100 fleet).1 ≡ some n)
    × (get_node mini (update_from_heartbeat (heartbeat localhost) lan 100 fleet).0 ≡ some n)
    × IsFresh (heartbeat localhost) 100 (text "http://10.0.0.5:11434") n
unfolding program
get_node-update_from_heartbeat_example =
    get_node-update_from_heartbeat (heartbeat localhost) lan 100 fleet
      (text "http://10.0.0.5:11434") refl

update_from_heartbeat_raises_example :
    ((update_from_heartbeat (heartbeat bad_host) (text "127.0.0.1") 100 fleet).1 ≡ none)
    × ((m : NodeState) × (get_node mini
            (update_from_heartbeat (heartbeat bad_host) (text "127.0.0.1") 100 fleet).0
          ≡ some m)
        × IsFresh (heartbeat bad_host) 100 mini_node.ollama_base_url m)
unfolding program
update_from_heartbeat_raises_example =
    update_from_heartbeat_raises (heartbeat bad_host) (text "127.0.0.1") 100 fleet mini_node refl
      refl

studio_alert : (monitor_heartbeats settings 100 fleet).1 ≡ studio ∷ []
unfolding program
studio_alert = refl

monitor_heartbeats-IsTimely_example :
    IsTimely settings 60
      (record studio_node { status = NodeStatus.degraded; missed_heartbeats = 1 })
unfolding program
monitor_heartbeats-IsTimely_example =
    monitor_heartbeats-IsTimely settings 60 fleet studio
      (record studio_node { status = NodeStatus.degraded; missed_heartbeats = 1 }) refl

abbrev heard : NodeRegistry
heard = (update_from_heartbeat (heartbeat localhost) lan 100 (empty_registry true)).0

abbrev heard_url : Text
heard_url = text "http://10.0.0.5:11434"

-- `mini` after its heartbeat and a round 20 ticks later.
abbrev slow_node : NodeState
slow_node =
    let p = heartbeat localhost in
    record (refresh p 100 heard_url (new_node mini (hardware_of p) heard_url)) {
      status = NodeStatus.degraded;
      missed_heartbeats = 1;
    }

Reach-IsFiled_example : IsFiled mini slow_node
unfolding program
Reach-IsFiled_example =
    Reach-IsFiled settings true (monitor_heartbeats settings 120 heard).0 mini slow_node
      (next (next here (Step.heartbeat (heartbeat localhost) lan 100 (empty_registry true)))
        (Step.round 120 heard))
      refl

abbrev mlx_model : Text
mlx_model = text "mlx:mlx-community/Qwen"

abbrev mlx_url : Text
mlx_url = text "http://10.0.0.5:11440"

abbrev IsAddressable : NodeState → Type 0
IsAddressable n =
    (is_empty (host_of n) ≡ false)
    × (all is_plain (host_of n) ≡ true)
    × ((srv : MlxServerInfo) → Mem srv n.mlx_servers → srv.port < 65536)

server_port : (srv : MlxServerInfo) → Mem srv (server ∷ []) → srv.port < 65536
server_port = (forall_mem-cons (λ srv. le_prop)).1 (omega arith, λ srv h. absurd (not-mem-nil h))

fleet_plain : (n : NodeState) → Mem n (get_all_nodes fleet) → IsAddressable n
unfolding program
fleet_plain =
    let none_else : (n : NodeState) → Mem n [] → IsAddressable n = λ n h. absurd (not-mem-nil h) in
    let other : (n : NodeState) → Mem n (studio_node ∷ []) → IsAddressable n =
      (forall_mem-cons (λ n. hlevel (le_prop))).1 ((refl, refl, server_port), none_else) in
    (forall_mem-cons (λ n. hlevel (le_prop))).1 ((refl, refl, server_port), other)

urlparse-resolve_mlx_url_example :
    (n : NodeState) × (srv : MlxServerInfo) × Mem n (get_all_nodes fleet)
    × Serves (bare_name mlx_model) n srv
    × (urlparse mlx_url ≡ record { hostname = some (host_of n); port = number srv.port })
unfolding program
urlparse-resolve_mlx_url_example = urlparse-resolve_mlx_url mlx_model fleet mlx_url fleet_plain refl
