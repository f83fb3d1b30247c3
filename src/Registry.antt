-- ===== src/Registry.antt =====
-- The node registry (src/fleet_manager/server/registry.py): heartbeats, drains, the heartbeat
-- monitor and the queries. The asyncio lock makes each operation one step, and the clock readings
-- of a step are one argument `now`.
pub mod Address
pub mod Heartbeat
pub mod Mlx
pub mod History
pub mod Monitor
use ollama_herd.Common.{
  ℕ, ◌+◌, ◌-◌, Bool, true, false, not, ◌&&◌, ◌||◌, Option, none, some, List, [], ◌∷◌, ◌++◌, Text,
  text, text_eq, mem, is_empty, ltb, ◌==◌, if◌then◌else◌, filter,
}
use ollama_herd.Dict.{Dict}
use ollama_herd.Dict
use ollama_herd.Models.Metrics.{OllamaMetrics}
use ollama_herd.Models.Node.{
  NodeState, NodeStatus, HardwareProfile, HeartbeatPayload, new_node, is_offline, is_degraded,
  loaded_names,
}
use ollama_herd.Models.Settings.{ServerSettings}
use ollama_herd.Url.Decimal.{decimal}
use ollama_herd.Url.Parse.{urlparse, Port, absent, number, invalid}

-- `alerting` is `on_node_offline is not None`.
pub record NodeRegistry : Type 0 where
  pub nodes : Dict NodeState
  pub alerting : Bool

abbrev pub loopback_ips : List Text
loopback_ips = text "127.0.0.1" ∷ text "::1" ∷ []

-- `parsed.port or 11434`; `none` is `ValueError`.
unfoldable pub port_or_default : Port → Option ℕ
port_or_default absent = some 11434
port_or_default (number n) = some (if n == 0 then 11434 else n)
port_or_default invalid = none

-- `f"http://{host}:{port}"`
abbrev pub http_url : Text → ℕ → Text
http_url host port = text "http://" ++ (host ++ b':' ∷ decimal port)

abbrev http_url? : Text → Option ℕ → Option Text
http_url? host none = none
http_url? host (some port) = some (http_url host port)

-- `parsed.hostname and parsed.hostname not in (…)`
abbrev pub is_remote_host : Option Text → Bool
is_remote_host none = false
is_remote_host (some h) = not (is_empty h) && not (mem h (text "localhost" ∷ loopback_ips))

-- The last lines of `_build_ollama_url`: which address goes with a port that was read.
abbrev remote_url : HeartbeatPayload → Text → Option ℕ → Option Text
remote_url p request_ip none = none
remote_url p request_ip (some port) = some (
    if not (is_empty request_ip) && not (mem request_ip loopback_ips)
    then http_url request_ip port
    else if not (is_empty p.lan_ip) && not (text_eq p.lan_ip (text "127.0.0.1"))
    then http_url p.lan_ip port
    else p.ollama_host)

-- `none` is the `ValueError` of `parsed.port`.
unfoldable pub build_ollama_url : HeartbeatPayload → Text → Option Text
unfolding port_or_default
build_ollama_url p request_ip =
    let parsed = urlparse p.ollama_host in
    let port = port_or_default parsed.port in
    if mem request_ip (text "127.0.0.1" ∷ text "::1" ∷ [] ∷ [])
    then http_url? (text "localhost") port
    else if is_remote_host parsed.hostname
    then some p.ollama_host
    else remote_url p request_ip port

abbrev pub or_text : Text → Text → Text
or_text s t = if is_empty s then t else s

abbrev pub hardware_of : HeartbeatPayload → HardwareProfile
hardware_of p = record {
  node_id = p.node_id;
  arch = or_text p.arch (text "unknown");
  chip = p.chip;
  cores_physical = p.cpu.cores_physical;
  memory_total_gb = p.memory.total_gb;
  memory_bandwidth_gbps = p.memory_bandwidth_gbps;
  ollama_host = p.ollama_host;
}

-- `for unloaded in prev - curr: unloaded_at[unloaded] = now`
unfoldable pub mark_unloaded : List Text → List Text → ℕ → Dict ℕ → Dict ℕ
mark_unloaded [] curr now d = d
mark_unloaded (m ∷ prev) curr now d =
    mark_unloaded prev curr now (if mem m curr then d else Dict.set m now d)

abbrev pub unloaded_at : Option OllamaMetrics → OllamaMetrics → ℕ → Dict ℕ → Dict ℕ
unloaded_at none curr now d = d
unloaded_at (some prev) curr now d = mark_unloaded (loaded_names prev) (loaded_names curr) now d

-- Tag metadata that a heartbeat leaves out is carried over from the node.
abbrev pub carry_meta : Option OllamaMetrics → OllamaMetrics → OllamaMetrics
carry_meta none curr = curr
carry_meta (some prev) curr = elim curr.models_available_meta [
  | none ↦ record curr { models_available_meta = prev.models_available_meta }
  | some m ↦ curr
]

unfoldable pub sync_hardware : HeartbeatPayload → HardwareProfile → HardwareProfile
sync_hardware p h = record h {
  chip = if not (is_empty p.chip) && not (text_eq h.chip p.chip) then p.chip else h.chip;
  memory_bandwidth_gbps =
      if not (p.memory_bandwidth_gbps == 0)
        && not (h.memory_bandwidth_gbps == p.memory_bandwidth_gbps)
      then p.memory_bandwidth_gbps
      else h.memory_bandwidth_gbps;
}

-- The field by field update, up to `node.status = NodeStatus.ONLINE`.
unfoldable pub apply_heartbeat : HeartbeatPayload → ℕ → NodeState → NodeState
apply_heartbeat p now node = record node {
  status = NodeStatus.online;
  hardware = sync_hardware p node.hardware;
  last_heartbeat = now;
  missed_heartbeats = 0;
  cpu = some p.cpu;
  memory = some p.memory;
  thermal = some p.thermal;
  disk = p.disk;
  ollama = some (carry_meta node.ollama p.ollama);
  model_unloaded_at = unloaded_at node.ollama p.ollama now node.model_unloaded_at;
  capacity = p.capacity;
  agent_version = p.agent_version;
  process_memory = p.process_memory;
  mlx_version = p.mlx_version;
  image = p.image;
  image_port = p.image_port;
  transcription = p.transcription;
  transcription_port = p.transcription_port;
  vision_embedding = p.vision_embedding;
  vision_embedding_port = p.vision_embedding_port;
  vision_embedding_status = p.vision_embedding_status;
  text_embedding = p.text_embedding;
  text_embedding_port = p.text_embedding_port;
  text_embedding_status = p.text_embedding_status;
  connection_failures = p.connection_failures;
  connection_failures_total = p.connection_failures_total;
  mlx_servers = p.mlx_servers;
  mlx_bind_host = or_text p.mlx_bind_host (text "127.0.0.1");
}

-- The update, with the URL of this heartbeat.
abbrev pub refresh : HeartbeatPayload → ℕ → Text → NodeState → NodeState
refresh p now url node = record (apply_heartbeat p now node) { ollama_base_url = url }

-- The handler, once the URL has been built and the node looked up. For a new node a port that raises
-- stops the registration; for a known one the update stays and nothing is returned.
abbrev pub receive :
    HeartbeatPayload
    → ℕ
    → Option Text
    → Option NodeState
    → NodeRegistry
    → NodeRegistry × Option NodeState
receive p now none none r = (r, none)
receive p now (some url) none r =
    let fresh = refresh p now url (new_node p.node_id (hardware_of p) url) in
    (record r { nodes = Dict.set p.node_id fresh r.nodes }, some fresh)
receive p now none (some node) r =
    (record r { nodes = Dict.set p.node_id (apply_heartbeat p now node) r.nodes }, none)
receive p now (some url) (some node) r =
    let fresh = refresh p now url node in
    (record r { nodes = Dict.set p.node_id fresh r.nodes }, some fresh)

-- The registry after a heartbeat, and the node state that is returned; `none` is `ValueError`.
unfoldable pub update_from_heartbeat :
    HeartbeatPayload → Text → ℕ → NodeRegistry → NodeRegistry × Option NodeState
update_from_heartbeat p request_ip now r =
    receive p now (build_ollama_url p request_ip) (Dict.get p.node_id r.nodes) r

unfoldable pub handle_drain : Text → NodeRegistry → NodeRegistry
handle_drain node_id r = elim (Dict.get node_id r.nodes) [
  | none ↦ r
  | some node ↦ record r {
    nodes = Dict.set node_id (record node { status = NodeStatus.offline }) r.nodes;
  }
]

unfoldable pub get_node : Text → NodeRegistry → Option NodeState
get_node node_id r = Dict.get node_id r.nodes

abbrev pub get_all_nodes : NodeRegistry → List NodeState
get_all_nodes r = Dict.values r.nodes

unfoldable pub get_online_nodes : NodeRegistry → List NodeState
get_online_nodes r = filter (λ n. not (is_offline n.status)) (get_all_nodes r)

-- `node.status != OFFLINE`, `node.ollama is not None`, and the model loaded or on disk.
abbrev pub has_model : Text → NodeState → Bool
has_model model n = not (is_offline n.status) && elim n.ollama [
  | none ↦ false
  | some o ↦ mem model (loaded_names o) || mem model o.models_available
]

unfoldable pub get_nodes_with_model : Text → NodeRegistry → List NodeState
get_nodes_with_model model r = filter (has_model model) (get_all_nodes r)

-- One node of a round of `monitor_heartbeats`: its new state, and whether the alert is sent.
unfoldable pub check_node : ServerSettings → ℕ → NodeState → NodeState × Bool
check_node s now node =
    let elapsed = now - node.last_heartbeat in
    if is_offline node.status
    then (node, false)
    else if ltb s.heartbeat_offline elapsed
    then (
      record node { status = NodeStatus.offline; missed_heartbeats = node.missed_heartbeats + 1 },
      true,
    )
    else if ltb s.heartbeat_timeout elapsed && not (is_degraded node.status)
    then (
      record node { status = NodeStatus.degraded; missed_heartbeats = node.missed_heartbeats + 1 },
      false,
    )
    else (node, false)

-- A round over the nodes: their new states, and the nodes that went offline, in order.
unfoldable pub sweep : ServerSettings → ℕ → Dict NodeState → Dict NodeState × List Text
sweep s now [] = ([], [])
sweep s now ((k, node) ∷ d) =
    let (node', offline) = check_node s now node in
    let rest = sweep s now d in
    ((k, node') ∷ rest.0, if offline then node.node_id ∷ rest.1 else rest.1)

-- One round of `monitor_heartbeats`, with the node ids that `on_node_offline` is called for.
unfoldable pub monitor_heartbeats : ServerSettings → ℕ → NodeRegistry → NodeRegistry × List Text
monitor_heartbeats s now r =
    let (nodes', offline) = sweep s now r.nodes in
    (record r { nodes = nodes' }, if r.alerting then offline else [])
