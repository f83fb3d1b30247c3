-- ===== src/Models/Metrics.antt =====
-- What a node reports of itself (src/fleet_manager/models/node.py). Sizes, loads and
-- temperatures are whole numbers of one fixed fraction of their unit (thousandths of a GB for a
-- size), and times are whole ticks: the code compares, adds and subtracts them, and rounding of the
-- source's floats is not modelled.
use ollama_herd.Common.{ℕ, Bool, Option, List, Text}
use ollama_herd.Dict.{Dict}

pub data MemoryPressure : Type 0 where
  normal warn critical : MemoryPressure

pub data ThermalState : Type 0 where
  nominal warning unknown : ThermalState

pub record CpuMetrics : Type 0 where
  pub cores_physical : ℕ
  pub utilization_pct : ℕ

pub record MemoryMetrics : Type 0 where
  pub total_gb : ℕ
  pub used_gb : ℕ
  pub available_gb : ℕ
  pub pressure : MemoryPressure
  pub wired_gb : ℕ
  pub compressed_gb : ℕ
  pub swap_used_gb : ℕ
  pub swap_total_gb : ℕ

pub record ThermalMetrics : Type 0 where
  pub state : ThermalState
  pub temperature_c : Option ℕ
  pub source : Text

pub record DiskMetrics : Type 0 where
  pub total_gb : ℕ
  pub used_gb : ℕ
  pub available_gb : ℕ

pub record LoadedModel : Type 0 where
  pub name : Text
  pub size_gb : ℕ
  pub requests_active : ℕ
  pub parameter_size : Text
  pub quantization : Text
  pub context_length : ℕ
  pub runner : Text
  pub digest : Text

pub record ModelTagMeta : Type 0 where
  pub modified_at : Text
  pub digest : Text
  pub format : Text
  pub family : Text
  pub families : List Text
  pub parameter_size : Text
  pub quantization_level : Text
  pub parent_model : Text
  pub capabilities : List Text

pub record ProcessMemoryEntry : Type 0 where
  pub pid : ℕ
  pub role : Text
  pub footprint_gb : ℕ
  pub peak_gb : ℕ
  pub rss_gb : ℕ

pub record ProcessMemory : Type 0 where
  pub footprint_gb : ℕ
  pub peak_gb : ℕ
  pub rss_gb : ℕ
  pub children_footprint_gb : ℕ
  pub children_peak_gb : ℕ
  pub children : List ProcessMemoryEntry

pub record BackendClient : Type 0 where
  pub pid : ℕ
  pub process : Text
  pub cmdline : Text
  pub peer : Text
  pub connections : ℕ
  pub loopback : Bool

pub record OllamaMetrics : Type 0 where
  pub models_loaded : List LoadedModel
  pub models_available : List Text
  pub models_available_meta : Option (Dict ModelTagMeta)
  pub models_available_sizes : Dict ℕ
  pub max_loaded_models : ℕ
  pub num_parallel : ℕ
  pub requests_active : ℕ
  pub version : Text
  pub backend_clients : List BackendClient

pub record CapacityMetrics : Type 0 where
  pub mode : Text
  pub ceiling_gb : ℕ
  pub availability_score : ℕ
  pub reason : Text
  pub override_active : Bool
  pub learning_confidence : ℕ
  pub days_observed : ℕ

pub record ImageModel : Type 0 where
  pub name : Text
  pub binary : Text

pub record ImageMetrics : Type 0 where
  pub models_available : List ImageModel
  pub generating : Bool

pub record TranscriptionModel : Type 0 where
  pub name : Text
  pub binary : Text

pub record TranscriptionMetrics : Type 0 where
  pub models_available : List TranscriptionModel
  pub transcribing : Bool

pub record VisionEmbeddingModel : Type 0 where
  pub name : Text
  pub runtime : Text
  pub dimensions : ℕ

pub record VisionEmbeddingMetrics : Type 0 where
  pub models_available : List VisionEmbeddingModel
  pub processing : Bool

pub record TextEmbeddingModel : Type 0 where
  pub name : Text
  pub dimensions : ℕ
  pub cached : Bool
  pub kind : Text

pub record TextEmbeddingMetrics : Type 0 where
  pub models_available : List TextEmbeddingModel
  pub processing : Bool

pub record MlxServerInfo : Type 0 where
  pub port : ℕ
  pub model : Text
  pub status : Text
  pub status_reason : Text
  pub kv_bits : ℕ
  pub context_length : Option ℕ
  pub model_size_gb : ℕ
  pub last_ok_ts : ℕ
  pub distributed : Bool
  pub backend : Text
  pub node_count : ℕ
