-- ===== src/Clearing/Messages.antt =====
-- Anthropic messages as context_management.py reads them: the estimate of their tokens, and the
-- places of their tool results.
use ollama_herd.Common.{
  ℕ, suc, ◌+◌, ◌/◌, max, Option, none, some, List, [], ◌∷◌, ◌++◌, Text, text, length, if◌then◌else◌,
}
use ollama_herd.Models.Json.{Json, str, Fields, set_field, truthy, obj, end}
use ollama_herd.Models.Json.Dumps.{dumps}
use ollama_herd.Url.Decimal.{decimal}

abbrev pub cleared_placeholder : Text
cleared_placeholder = text "[tool_result cleared — not in window of recent context]"

-- A part of a tool result that is a list: `text` holds `sub.get("text") or ""`.
pub data Part : Type 0 where
  text_part : Text → Fields → Part
  other_part : Json → Part

-- `content` of a tool result: a text, a list, or anything else, absence included.
pub data ToolContent : Type 0 where
  string : Text → ToolContent
  parts : List Part → ToolContent
  other_content : Option Json → ToolContent

pub record ToolResult : Type 0 where
  -- empty where the key is absent
  pub tool_use_id : Text
  pub content : ToolContent
  pub rest : Fields

-- A block, by its `type`; `rest` are the keys that the code does not read.
pub data Block : Type 0 where
  text_block : Text → Fields → Block
  tool_use : Json → Fields → Block
  tool_result : ToolResult → Block
  other_block : Fields → Block
  not_dict : Json → Block

pub data Content : Type 0 where
  plain : Text → Content
  blocks : List Block → Content
  no_content : Option Json → Content

pub record Message : Type 0 where
  pub content : Content
  pub rest : Fields

-- `_estimate_tokens`
abbrev pub estimate_tokens : Text → ℕ
estimate_tokens t = max 1 (length t / 4)

abbrev part_tokens : Part → ℕ
part_tokens (text_part t fs) = estimate_tokens t
part_tokens (other_part j) = 0

sum_parts : List Part → ℕ
sum_parts [] = 0
sum_parts (p ∷ ps) = part_tokens p + sum_parts ps

-- `v or {}`
abbrev or_empty : Json → Json
or_empty v = if truthy v then v else obj end

unfoldable pub content_tokens : ToolContent → ℕ
unfolding sum_parts
content_tokens (string t) = estimate_tokens t
content_tokens (parts ps) = sum_parts ps
content_tokens (other_content o) = 0

unfoldable pub block_tokens : Block → ℕ
block_tokens (text_block t fs) = estimate_tokens t
block_tokens (tool_use input fs) = estimate_tokens (dumps (or_empty input))
block_tokens (tool_result r) = content_tokens r.content
block_tokens (other_block fs) = 0
block_tokens (not_dict j) = 0

unfoldable pub blocks_tokens : List Block → ℕ
blocks_tokens [] = 0
blocks_tokens (b ∷ bs) = block_tokens b + blocks_tokens bs

unfoldable pub message_tokens : Content → ℕ
message_tokens (plain t) = estimate_tokens t
message_tokens (blocks bs) = blocks_tokens bs
message_tokens (no_content o) = 0

-- `_total_tokens`
unfoldable pub total_tokens : List Message → ℕ
total_tokens [] = 0
total_tokens (m ∷ ms) = message_tokens m.content + total_tokens ms

-- The index of the message, that of the block, and the id of the tool use.
abbrev pub Position : Type 0
Position = ℕ × ℕ × Text

-- `block.get("tool_use_id") or f"unknown-{i}-{j}"`
unfoldable pub resolved_id : ℕ → ℕ → Text → Text
resolved_id i j [] = text "unknown-" ++ decimal i ++ b'-' ∷ decimal j
resolved_id i j (c ∷ s) = c ∷ s

-- The id, where the block is a tool result.
abbrev pub result_id : ℕ → ℕ → Block → Option Text
result_id i j (tool_result r) = some (resolved_id i j r.tool_use_id)
result_id i j _ = none

unfoldable pub block_positions : ℕ → ℕ → List Block → List Position
block_positions i j [] = []
block_positions i j (b ∷ bs) = elim (result_id i j b) [
  | none ↦ block_positions i (suc j) bs
  | some t ↦ (i, j, t) ∷ block_positions i (suc j) bs
]

unfoldable pub message_positions : ℕ → Content → List Position
message_positions i (plain t) = []
message_positions i (blocks bs) = block_positions i 0 bs
message_positions i (no_content o) = []

-- `_iter_tool_result_positions`, from message `i` on.
unfoldable pub iter_positions : ℕ → List Message → List Position
iter_positions i [] = []
iter_positions i (m ∷ ms) = message_positions i m.content ++ iter_positions (suc i) ms

-- `{**block, "content": placeholder}` where the block is a `dict`
unfoldable pub clear_block : Text → Block → Block
clear_block p (text_block t fs) = text_block t (set_field (text "content") (str p) fs)
clear_block p (tool_use input fs) = tool_use input (set_field (text "content") (str p) fs)
clear_block p (tool_result r) = tool_result (record r { content = string p })
clear_block p (other_block fs) = other_block (set_field (text "content") (str p) fs)
clear_block p (not_dict j) = not_dict j
