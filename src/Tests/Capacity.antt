-- ===== src/Tests/Capacity.antt =====
-- The learned capacity and the promotion of tool parameters at concrete inputs.
use ollama_herd.Common.{ℕ, ◌+◌, ◌≡◌, ◌≤◌, ◌<◌, refl, false, some, none, [], ◌∷◌, text, text_eq}
use ollama_herd.Dict
use ollama_herd.Models.Json.{Json, str, obj, arr, bool, nil, cons, end, field, get_field, set_field}
use ollama_herd.Capacity.Data.{
  CapacityMode, Observation, CapacityFloats, CapacityInfo, Learner, Sensed, prune, add_at, slot_at,
}
use ollama_herd.Capacity.{
  is_sustained, compute_capacity, overridden, fixed_capacity, observe, track_cpu,
  set_manual_override,
}
use ollama_herd.Capacity.Sustained.{HighSince, start, observed, is_sustained-HighSince}
use ollama_herd.Tests.Routing.{thousandths}
use ollama_herd.ToolSchema.{
  claude_code_tool_defaults, mode_inject, fixup_tool_schema, shape, shape_function,
  shape_parameters, shape_properties, fix_shape, apply_parameters, fix_parameters, fix_properties,
  decide, requires, append_names,
}
use ollama_herd.ToolSchema.Stable.{fixup_tool_schema_twice}

program : Unit {0}
unfolding text_eq Dict.get get_field set_field is_sustained compute_capacity overridden
    fixed_capacity observe track_cpu prune add_at slot_at set_manual_override fixup_tool_schema
    shape shape_function shape_parameters shape_properties fix_shape apply_parameters fix_parameters
    fix_properties decide requires append_names
program = tt

abbrev edit : Json → Json → Json
edit schema required = obj (
    field (text "function")
      (obj (
        field (text "name") (str (text "Edit")) (
          field (text "parameters")
            (obj (
              field (text "properties") (obj (field (text "replace_all") schema end))
                (field (text "required") required end)))
            end)))
      end)

abbrev boolean : Json
boolean = obj (field (text "type") (str (text "boolean")) end)

promoted :
    fixup_tool_schema claude_code_tool_defaults mode_inject (edit boolean (arr nil))
    ≡ edit
        (obj (field (text "type") (str (text "boolean")) (field (text "default") (bool false) end)))
        (arr (cons (str (text "replace_all")) nil))
unfolding program
promoted = refl

fixup_tool_schema_twice_example :
    fixup_tool_schema claude_code_tool_defaults mode_inject
      (fixup_tool_schema claude_code_tool_defaults mode_inject (edit boolean (arr nil)))
    ≡ fixup_tool_schema claude_code_tool_defaults mode_inject (edit boolean (arr nil))
fixup_tool_schema_twice_example =
    fixup_tool_schema_twice claude_code_tool_defaults mode_inject (edit boolean (arr nil))

abbrev floats : CapacityFloats thousandths
floats = record { decay = λ age. 1000; round_2 = λ x. x }

abbrev alone : Sensed thousandths
alone = record { in_meeting = false; cpu_trend = 0; slot_index = 0 }

abbrev nothing : CapacityInfo thousandths
nothing = record {
  mode = CapacityMode.bootstrap;
  ceiling_gb = 0;
  availability_score = 0;
  reason = [];
  override_active = false;
  learning_confidence = 0;
  days_observed = 0;
}

abbrev fresh_learner : Learner thousandths
fresh_learner = record {
  total_memory_gb = 64000;
  slots = [] ∷ [];
  first_observation = none;
  manual_override = none;
  sustained_high_cpu_since = none;
  last_capacity = nothing;
}

abbrev busy_at : ℕ → Observation
busy_at t = record { timestamp = t; cpu_pct = 90000; memory_pct = 50000 }

-- Two high observations, 130 seconds before a third.
is_sustained-HighSince_example :
    (t : ℕ) × HighSince thousandths floats t ((alone, busy_at 100) ∷ [])
    × (85000 < 90000)
    × (t + 120 ≤ 230)
unfolding program
is_sustained-HighSince_example =
    is_sustained-HighSince thousandths floats 230 90000 ((alone, busy_at 100) ∷ [])
      (observe thousandths floats alone (busy_at 100) fresh_learner).1
      (observed alone (busy_at 100) [] fresh_learner (start fresh_learner refl)) refl

-- The owner is away and has given the node to the fleet.
abbrev volunteered : Learner thousandths
volunteered = record fresh_learner {
  manual_override = some (record { mode = text "full"; expires = 500 });
}
