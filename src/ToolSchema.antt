-- ===== src/ToolSchema.antt =====
-- Promotion of optional tool parameters (src/fleet_manager/server/tool_schema_fixup.py). The name of
-- a tool is taken to be a text, and `required` to be a list, where they are there.
pub mod Stable
use ollama_herd.Common.{
  Bool, true, false, not, ◌||◌, Option, none, some, List, [], ◌∷◌, Text, text, text_eq, mem,
  is_some, if◌then◌else◌, map,
}
use ollama_herd.Dict.{Dict}
use ollama_herd.Dict
use ollama_herd.Models.Json.{
  Json, bool, num, str, arr, obj, Items, nil, cons, Fields, end, field, get_field, set_field,
}

abbrev pub mode_off : Text
mode_off = text "off"

abbrev pub mode_promote_existing : Text
mode_promote_existing = text "promote"

abbrev pub mode_inject : Text
mode_inject = text "inject"

abbrev pub valid_modes : List Text
valid_modes = mode_off ∷ mode_promote_existing ∷ mode_inject ∷ []

-- The parameters of each tool, with the values they have when they are omitted.
abbrev pub claude_code_tool_defaults : Dict Fields
claude_code_tool_defaults =
    (
      text "Bash",
      field (text "timeout") (num 120000) (
          field (text "run_in_background") (bool false)
            (field (text "dangerouslyDisableSandbox") (bool false) end)),
    )
    ∷ (text "Read", field (text "offset") (num 0) end)
    ∷ (
      text "Grep",
      field (text "output_mode") (str (text "files_with_matches")) (
          field (text "-n") (bool true) (
            field (text "-i") (bool false) (
              field (text "multiline") (bool false)
                (field (text "head_limit") (num 250) (field (text "offset") (num 0) end))))),
    )
    ∷ (text "Edit", field (text "replace_all") (bool false) end)
    ∷ (text "Write", end)
    ∷ (text "Agent", field (text "run_in_background") (bool false) end)
    ∷ (text "WebFetch", end)
    ∷ (text "TodoWrite", end)
    ∷ []

-- `p in required_set`
unfoldable pub requires : Text → Items → Bool
requires p nil = false
requires p (cons (str s) xs) = text_eq s p || requires p xs
requires p (cons _ xs) = requires p xs

-- `required_list`
abbrev pub required_list : Option Json → Items
required_list (some (arr xs)) = xs
required_list _ = nil

unfoldable pub append_names : Items → List Text → Items
append_names nil [] = nil
append_names nil (p ∷ ps) = cons (str p) (append_names nil ps)
append_names (cons x xs) ps = cons x (append_names xs ps)

abbrev pub in_fields : Text → Fields → Bool
in_fields k fs = is_some (get_field k fs)

-- A property's schema after the decision, and whether the property is promoted.
unfoldable pub decide : Text → Fields → Items → Text → Fields → Fields × Bool
decide mode defaults required pname schema =
    if requires pname required
    then (schema, false)
    else if in_fields (text "default") schema
    then (schema, true)
    else if text_eq mode mode_inject
    then elim (get_field pname defaults) [
      | none ↦ (schema, false)
      | some v ↦ (set_field (text "default") v schema, true)
    ]
    else (schema, false)

-- The loop over the properties: the new ones, and the names of those that are promoted.
unfoldable pub fix_properties : Text → Fields → Items → Fields → Fields × List Text
fix_properties mode defaults required end = (end, [])
fix_properties mode defaults required (field p (obj schema) fs) =
    let rest = fix_properties mode defaults required fs in
    let d = decide mode defaults required p schema in
    (field p (obj d.0) rest.0, if d.1 then p ∷ rest.1 else rest.1)
fix_properties mode defaults required (field p v fs) =
    let rest = fix_properties mode defaults required fs in (field p v rest.0, rest.1)

-- The tool's defaults in the table.
abbrev pub tool_defaults : Dict Fields → Option Json → Fields
tool_defaults table (some (str name)) = Dict.get_or name end table
tool_defaults table _ = Dict.get_or [] end table

-- The new parameters, where a property is promoted.
abbrev pub with_promoted : Fields → Items → Fields × List Text → Option Fields
with_promoted params required (props, []) = none
with_promoted params required (props, p ∷ ps) = some (
    set_field (text "required") (arr (append_names required (p ∷ ps)))
      (set_field (text "properties") (obj props) params))

unfoldable pub fix_parameters : Text → Fields → Fields → Fields → Option Fields
fix_parameters mode defaults params props =
    let required = required_list (get_field (text "required") params) in
    with_promoted params required (fix_properties mode defaults required props)

-- A tool, its function, the function's parameters and their properties.
abbrev pub Shape : Type 0
Shape = Fields × Fields × Fields × Fields

-- The checks of the shape, from the inside: the properties are there and are not empty.
unfoldable pub shape_properties : Fields → Fields → Fields → Option Json → Option Shape
shape_properties tool function params (some (obj (field p v fs))) =
    some (tool, function, params, field p v fs)
shape_properties tool function params _ = none

unfoldable pub shape_parameters : Fields → Fields → Option Json → Option Shape
shape_parameters tool function (some (obj params)) =
    shape_properties tool function params (get_field (text "properties") params)
shape_parameters tool function _ = none

unfoldable pub shape_function : Fields → Option Json → Option Shape
shape_function tool (some (obj function)) =
    shape_parameters tool function (get_field (text "parameters") function)
shape_function tool _ = none

unfoldable pub shape : Json → Option Shape
shape (obj tool) = shape_function tool (get_field (text "function") tool)
shape _ = none

abbrev pub rebuild : Fields → Fields → Fields → Json
rebuild tool function params =
    obj
      (set_field (text "function") (obj (set_field (text "parameters") (obj params) function)) tool)

unfoldable pub apply_parameters : Json → Fields → Fields → Option Fields → Json
apply_parameters ollama_tool tool function none = ollama_tool
apply_parameters ollama_tool tool function (some params) = rebuild tool function params

unfoldable pub fix_shape : Dict Fields → Text → Json → Option Shape → Json
fix_shape table mode ollama_tool none = ollama_tool
fix_shape table mode ollama_tool (some (tool, function, params, props)) =
    apply_parameters ollama_tool tool function
      (fix_parameters mode (tool_defaults table (get_field (text "name") function)) params props)

-- `mode not in VALID_MODES or mode == MODE_OFF`
abbrev pub leaves_alone : Text → Bool
leaves_alone mode = not (mem mode valid_modes) || text_eq mode mode_off

unfoldable pub fixup_tool_schema : Dict Fields → Text → Json → Json
fixup_tool_schema table mode ollama_tool =
    if leaves_alone mode then ollama_tool else fix_shape table mode ollama_tool (shape ollama_tool)

unfoldable pub fixup_tool_schemas : Dict Fields → Text → Option (List Json) → Option (List Json)
fixup_tool_schemas table mode none = none
fixup_tool_schemas table mode (some tools) = some (map (fixup_tool_schema table mode) tools)
