-- ===== src/Models/Node.antt =====
-- Node state, heartbeats and hardware profiles (src/fleet_manager/models/node.py).
use ollama_herd.Common.{ℕ, Bool, true, false, Option, none, List, [], map, Text, text}
use ollama_herd.Dict.{Dict}
use ollama_herd.Models.Json.{Json}
use ollama_herd.Models.Metrics.{
  CpuMetrics, MemoryMetrics, ThermalMetrics, DiskMetrics, OllamaMetrics, CapacityMetrics,
  ProcessMemory, ImageMetrics, TranscriptionMetrics, VisionEmbeddingMetrics, TextEmbeddingMetrics,
  MlxServerInfo,
}

pub data NodeStatus : Type 0 where
  online degraded offline : NodeStatus

pub record HeartbeatPayload : Type 0 where
  pub node_id : Text
  pub arch : Text
  pub timestamp : ℕ
  pub cpu : CpuMetrics
  pub memory : MemoryMetrics
  pub thermal : ThermalMetrics
  pub disk : Option DiskMetrics
  pub ollama : OllamaMetrics
  pub ollama_host : Text
  pub lan_ip : Text
  pub draining : Bool
  pub capacity : Option CapacityMetrics
  pub agent_version : Text
  pub process_memory : ProcessMemory
  pub mlx_version : Text
  pub image : Option ImageMetrics
  pub image_port : ℕ
  pub transcription : Option TranscriptionMetrics
  pub transcription_port : ℕ
  pub vision_embedding : Option VisionEmbeddingMetrics
  pub vision_embedding_port : ℕ
  pub vision_embedding_status : Dict Json
  pub text_embedding : Option TextEmbeddingMetrics
  pub text_embedding_port : ℕ
  pub text_embedding_status : Dict Json
  pub connection_failures : ℕ
  pub connection_failures_total : ℕ
  pub chip : Text
  pub memory_bandwidth_gbps : ℕ
  pub mlx_servers : List MlxServerInfo
  pub mlx_bind_host : Text

pub record HardwareProfile : Type 0 where
  pub node_id : Text
  pub arch : Text
  pub chip : Text
  pub cores_physical : ℕ
  pub memory_total_gb : ℕ
  pub memory_bandwidth_gbps : ℕ
  pub ollama_host : Text

pub record NodeState : Type 0 where
  pub node_id : Text
  pub status : NodeStatus
  pub hardware : HardwareProfile
  pub last_heartbeat : ℕ
  pub missed_heartbeats : ℕ
  pub cpu : Option CpuMetrics
  pub memory : Option MemoryMetrics
  pub thermal : Option ThermalMetrics
  pub disk : Option DiskMetrics
  pub ollama : Option OllamaMetrics
  pub ollama_base_url : Text
  pub model_unloaded_at : Dict ℕ
  pub capacity : Option CapacityMetrics
  pub agent_version : Text
  pub process_memory : ProcessMemory
  pub mlx_version : Text
  pub image : Option ImageMetrics
  pub image_port : ℕ
  pub transcription : Option TranscriptionMetrics
  pub transcription_port : ℕ
  pub vision_embedding : Option VisionEmbeddingMetrics
  pub vision_embedding_port : ℕ
  pub vision_embedding_status : Dict Json
  pub text_embedding : Option TextEmbeddingMetrics
  pub text_embedding_port : ℕ
  pub text_embedding_status : Dict Json
  pub connection_failures : ℕ
  pub connection_failures_total : ℕ
  pub mlx_servers : List MlxServerInfo
  pub mlx_bind_host : Text

-- `ProcessMemory()`: every field at its default.
abbrev pub no_process_memory : ProcessMemory
no_process_memory = record {
  footprint_gb = 0;
  peak_gb = 0;
  rss_gb = 0;
  children_footprint_gb = 0;
  children_peak_gb = 0;
  children = [];
}

-- `NodeState(node_id=…, hardware=…, ollama_base_url=…)`: the other fields at their defaults.
abbrev pub new_node : Text → HardwareProfile → Text → NodeState
new_node node_id hardware url = record {
  node_id = node_id;
  status = NodeStatus.online;
  hardware = hardware;
  last_heartbeat = 0;
  missed_heartbeats = 0;
  cpu = none;
  memory = none;
  thermal = none;
  disk = none;
  ollama = none;
  ollama_base_url = url;
  model_unloaded_at = [];
  capacity = none;
  agent_version = [];
  process_memory = no_process_memory;
  mlx_version = [];
  image = none;
  image_port = 0;
  transcription = none;
  transcription_port = 0;
  vision_embedding = none;
  vision_embedding_port = 0;
  vision_embedding_status = [];
  text_embedding = none;
  text_embedding_port = 0;
  text_embedding_status = [];
  connection_failures = 0;
  connection_failures_total = 0;
  mlx_servers = [];
  mlx_bind_host = text "127.0.0.1";
}

abbrev pub is_offline : NodeStatus → Bool
is_offline NodeStatus.offline = true
is_offline _ = false

abbrev pub is_degraded : NodeStatus → Bool
is_degraded NodeStatus.degraded = true
is_degraded _ = false

-- `[m.name for m in models_loaded]`
abbrev pub loaded_names : OllamaMetrics → List Text
loaded_names o = map (λ m. m.name) o.models_loaded
