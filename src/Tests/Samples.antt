-- ===== src/Tests/Samples.antt =====
-- A fleet of two nodes, and requests to it.
use ollama_herd.Common.{ℕ, true, false, none, some, List, [], ◌∷◌, Text, text}
use ollama_herd.Models.Json.{end}
use ollama_herd.Models.Metrics.{
  MemoryMetrics, MemoryPressure, ThermalState, OllamaMetrics, LoadedModel, ModelTagMeta,
  MlxServerInfo,
}
use ollama_herd.Models.Node.{
  HeartbeatPayload, HardwareProfile, NodeState, new_node, no_process_memory,
}
use ollama_herd.Models.Request.{InferenceRequest, QueueEntry, RequestFormat, RequestStatus}
use ollama_herd.Models.Settings.{ServerSettings}
use ollama_herd.Registry.{NodeRegistry}

abbrev pub llama : Text
llama = text "llama3:8b"

abbrev pub qwen : Text
qwen = text "qwen35:9b"

abbrev pub loaded : Text → Text → ℕ → LoadedModel
loaded name digest context = record {
  name = name;
  size_gb = 5000;
  requests_active = 0;
  parameter_size = text "8B";
  quantization = text "Q4_K_M";
  context_length = context;
  runner = text "ollama";
  digest = digest;
}

abbrev pub qwen_meta : ModelTagMeta
qwen_meta = record {
  modified_at = [];
  digest = text "d2";
  format = text "gguf";
  family = text "qwen35";
  families = [];
  parameter_size = text "9B";
  quantization_level = [];
  parent_model = [];
  capabilities = text "completion" ∷ [];
}

abbrev pub ollama_with : List LoadedModel → OllamaMetrics
ollama_with models = record {
  models_loaded = models;
  models_available = llama ∷ qwen ∷ [];
  models_available_meta = some ((qwen, qwen_meta) ∷ []);
  models_available_sizes = [];
  max_loaded_models = 0;
  num_parallel = 4;
  requests_active = 0;
  version = [];
  backend_clients = [];
}

-- One runner under two names, and a second model.
abbrev pub ollama : OllamaMetrics
ollama = ollama_with (
    loaded llama (text "d1") 8192
    ∷ loaded (text "llama3") (text "d1") 8192
    ∷ loaded qwen (text "d2") 4096
    ∷ [])

abbrev pub server : MlxServerInfo
server = record {
  port = 11440;
  model = text "mlx-community/Qwen";
  status = text "healthy";
  status_reason = [];
  kv_bits = 0;
  context_length = none;
  model_size_gb = 5000;
  last_ok_ts = 0;
  distributed = false;
  backend = [];
  node_count = 1;
}

abbrev pub memory : MemoryMetrics
memory = record {
  total_gb = 64000;
  used_gb = 50000;
  available_gb = 14000;
  pressure = MemoryPressure.normal;
  wired_gb = 0;
  compressed_gb = 0;
  swap_used_gb = 0;
  swap_total_gb = 0;
}

abbrev pub mini : Text
mini = text "mini"

abbrev pub studio : Text
studio = text "studio"

abbrev pub lan : Text
lan = text "10.0.0.5"

-- A heartbeat of `mini`, whose Ollama is configured as `host`.
abbrev pub heartbeat : Text → HeartbeatPayload
heartbeat host = record {
  node_id = mini;
  arch = text "apple_silicon";
  timestamp = 100;
  cpu = record { cores_physical = 10; utilization_pct = 20 };
  memory = memory;
  thermal = record { state = ThermalState.unknown; temperature_c = none; source = [] };
  disk = none;
  ollama = ollama;
  ollama_host = host;
  lan_ip = lan;
  draining = false;
  capacity = none;
  agent_version = [];
  process_memory = no_process_memory;
  mlx_version = [];
  image = none;
  image_port = 0;
  transcription = none;
  transcription_port = 0;
  vision_embedding = none;
  vision_embedding_port = 0;
  vision_embedding_status = [];
  text_embedding = none;
  text_embedding_port = 0;
  text_embedding_status = [];
  connection_failures = 0;
  connection_failures_total = 0;
  chip = text "M4";
  memory_bandwidth_gbps = 120;
  mlx_servers = server ∷ [];
  mlx_bind_host = text "0.0.0.0";
}

abbrev pub hardware : Text → HardwareProfile
hardware node_id = record {
  node_id = node_id;
  arch = text "apple_silicon";
  chip = text "M4";
  cores_physical = 10;
  memory_total_gb = 64000;
  memory_bandwidth_gbps = 120;
  ollama_host = text "http://localhost:11434";
}

abbrev pub node : Text → Text → ℕ → NodeState
node node_id url heard =
    let fresh = new_node node_id (hardware node_id) url in
    record fresh {
      last_heartbeat = heard;
      memory = some memory;
      ollama = some ollama;
      mlx_servers = server ∷ [];
    }

abbrev pub mini_node : NodeState
mini_node = node mini (text "http://10.0.0.5:11434") 100

abbrev pub studio_node : NodeState
studio_node = node studio (text "http://10.0.0.6:11434") 40

abbrev pub fleet : NodeRegistry
fleet = record { nodes = (mini, mini_node) ∷ (studio, studio_node) ∷ []; alerting = true }

abbrev pub settings : ServerSettings
settings = record {
  heartbeat_timeout = 15;
  heartbeat_offline = 30;
  stale_timeout = 600;
  client_max_in_flight = 2;
  client_concurrency_retry_after = 5;
  rebalance_threshold = 4;
  rebalance_max_per_cycle = 3;
  pre_warm_threshold = 3;
}

abbrev pub request : Text → Text → InferenceRequest
request id ip = record {
  request_id = id;
  model = llama;
  messages = [];
  stream = true;
  temperature = 700;
  max_tokens = none;
  original_format = RequestFormat.openai;
  raw_body = end;
  created_at = 0;
  original_model = [];
  fallback_models = [];
  tags = [];
  request_type = text "chat";
  has_images = false;
  client_ip = ip;
  estimated_tokens = none;
  overflow_context_length = none;
}

abbrev pub entry : Text → Text → QueueEntry
entry id ip = record {
  request = request id ip;
  status = RequestStatus.pending;
  assigned_node = mini;
  enqueued_at = 0;
  started_at = none;
  completed_at = none;
  last_progress_at = none;
  routing_score = none;
  routing_breakdown = none;
  retry_count = 0;
  fallback_used = false;
  excluded_nodes = [];
}

abbrev pub started : ℕ → QueueEntry → QueueEntry
started now e = record e { status = RequestStatus.in_flight; started_at = some now }
