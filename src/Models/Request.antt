-- ===== src/Models/Request.antt =====
-- Inference requests and queue entries (src/fleet_manager/models/request.py).
pub mod Naming
use ollama_herd.Common.{
  ℕ, Bool, true, false, ◌||◌, Option, some, List, [], ◌∷◌, ◌++◌, map, Text, text, has_code,
  is_empty, if◌then◌else◌, mem,
}
use ollama_herd.Models.Json.{Json, Items, Fields, nil, cons, str, arr, obj, get_field, field_truthy}

pub data RequestFormat : Type 0 where
  openai ollama anthropic responses : RequestFormat

pub data RequestStatus : Type 0 where
  pending in_flight completed failed : RequestStatus

unfoldable pub normalize_model_name : Text → Text
normalize_model_name name =
    if is_empty name then name else if has_code b':' name then name else name ++ text ":latest"

abbrev pub image_part_types : List Text
image_part_types = text "image_url" ∷ text "image" ∷ text "input_image" ∷ []

-- `isinstance(part, dict) and part.get("type") in _IMAGE_PART_TYPES`
unfoldable pub is_image_part : Json → Bool
is_image_part (obj part) = elim (get_field (text "type") part) [
  | some (str t) ↦ mem t image_part_types
  | _ ↦ false
]
is_image_part _ = false

pub any_image_part : Items → Bool
any_image_part nil = false
any_image_part (cons p ps) = is_image_part p || any_image_part ps

-- One round of the loop of `_detect_images`.
pub message_has_images : Json → Bool
unfolding any_image_part is_image_part
message_has_images (obj msg) =
    field_truthy (text "images") msg
    || elim (get_field (text "content") msg) [ some (arr parts) ↦ any_image_part parts | _ ↦ false ]
message_has_images _ = false

pub detect_images : List Json → Bool
unfolding message_has_images
detect_images [] = false
detect_images (m ∷ ms) = message_has_images m || detect_images ms

pub record InferenceRequest : Type 0 where
  pub request_id : Text
  pub model : Text
  pub messages : List Json
  pub stream : Bool
  pub temperature : ℕ
  pub max_tokens : Option ℕ
  pub original_format : RequestFormat
  pub raw_body : Fields
  pub created_at : ℕ
  pub original_model : Text
  pub fallback_models : List Text
  pub tags : List Text
  pub request_type : Text
  pub has_images : Bool
  pub client_ip : Text
  pub estimated_tokens : Option ℕ
  pub overflow_context_length : Option ℕ

-- The validator `_normalize_model_names`, which runs when a request is built.
unfoldable pub normalize_request : InferenceRequest → InferenceRequest
normalize_request r = record r {
  model = normalize_model_name r.model;
  original_model =
      if is_empty r.original_model then r.original_model else normalize_model_name r.original_model;
  fallback_models = map normalize_model_name r.fallback_models;
  has_images = if r.has_images then true else detect_images r.messages;
}

pub record QueueEntry : Type 0 where
  pub request : InferenceRequest
  pub status : RequestStatus
  pub assigned_node : Text
  pub enqueued_at : ℕ
  pub started_at : Option ℕ
  pub completed_at : Option ℕ
  pub last_progress_at : Option ℕ
  pub routing_score : Option ℕ
  pub routing_breakdown : Option (List (Text × ℕ))
  pub retry_count : ℕ
  pub fallback_used : Bool
  pub excluded_nodes : List Text
