-- ===== src/ToolSchema/Stable.antt =====
-- What the promotion of parameters keeps (src/fleet_manager/server/tool_schema_fixup.py).
use ollama_herd.Common.{
  Bool, true, false, ◌||◌, Option, none, some, List, [], ◌∷◌, Text, text, text_eq, text_eq_iff, mem,
  if◌then◌else◌, ◌≡◌, refl, sym, ◌∙◌, ap, subst, arith, Bool-cases, Option-cases, inl, inr,
}
use ollama_herd.Dict.{Dict}
use ollama_herd.Models.Json.{
  Json, null, bool, num, str, arr, obj, Items, nil, cons, Fields, end, field, get_field, set_field,
}
use ollama_herd.ToolSchema.{
  requires, required_list, append_names, decide, fix_properties, tool_defaults, with_promoted,
  fix_parameters, Shape, shape_properties, shape_parameters, shape_function, shape, rebuild,
  apply_parameters, fix_shape, leaves_alone, fixup_tool_schema,
}

get_field-set_field :
    (k j : Text) (v : Json) (fs : Fields)
    → get_field j (set_field k v fs) ≡ (if text_eq k j then some v else get_field j fs)
unfolding get_field set_field
get_field-set_field k j v end = refl
get_field-set_field k j v (field i w fs) =
    ground (arith, get_field-set_field k j v fs, text_eq_iff i k, text_eq_iff i j, text_eq_iff k j)

requires-append_names :
    (p : Text) (xs : Items) (ps : List Text)
    → requires p (append_names xs ps) ≡ (requires p xs || mem p ps)
unfolding requires append_names
requires-append_names p nil [] = refl
requires-append_names p nil (q ∷ ps) =
    ground (arith, requires-append_names p nil ps, text_eq_iff p q, text_eq_iff q p)
requires-append_names p (cons (str s) xs) ps = ground (arith, requires-append_names p xs ps)
requires-append_names p (cons null xs) ps = requires-append_names p xs ps
requires-append_names p (cons (bool b) xs) ps = requires-append_names p xs ps
requires-append_names p (cons (num n) xs) ps = requires-append_names p xs ps
requires-append_names p (cons (arr x) xs) ps = requires-append_names p xs ps
requires-append_names p (cons (obj x) xs) ps = requires-append_names p xs ps

decide_again :
    (mode : Text) (defaults : Fields) (required again : Items) (p : Text) (schema : Fields)
    → ((requires p required || (decide mode defaults required p schema).1) ≡ true
        → requires p again ≡ true)
    → decide mode defaults again p (decide mode defaults required p schema).0
      ≡ ((decide mode defaults required p schema).0, false)
unfolding decide
decide_again mode defaults required again p schema covers = elim (Bool-cases (requires p again)) [
  | inl now ↦ rw now refl
  | inr still ↦ elim (Option-cases (get_field p defaults)) [
    | inl nothing ↦ ground arith
    | inr (v, known) ↦ ground arith
  ]
]

fix_again :
    (mode : Text) (defaults : Fields) (required again : Items) (fs : Fields)
    → ((p : Text)
        → (requires p required || mem p (fix_properties mode defaults required fs).1) ≡ true
        → requires p again ≡ true)
    → fix_properties mode defaults again (fix_properties mode defaults required fs).0
      ≡ ((fix_properties mode defaults required fs).0, [])
unfolding fix_properties
fix_again mode defaults required again end covers = refl
fix_again mode defaults required again (field p (obj schema) fs) covers =
    let rest =
      fix_again mode defaults required again fs
        λ q h. covers q (wider q (decide mode defaults required p schema).1 h) in
    let here =
      decide_again mode defaults required again p schema
        λ h. covers p (promoted (decide mode defaults required p schema).1 h) in
    rw (here, rest) refl
  where
    wider :
        (q : Text) (d : Bool)
        → (requires q required || mem q (fix_properties mode defaults required fs).1) ≡ true
        → (requires q required
            || mem q (
                if d
                then p ∷ (fix_properties mode defaults required fs).1
                else (fix_properties mode defaults required fs).1))
          ≡ true
    wider q true h = ground arith
    wider q false h = h

    promoted :
        (d : Bool)
        → (requires p required || d) ≡ true
        → (requires p required
            || mem p (
                if d
                then p ∷ (fix_properties mode defaults required fs).1
                else (fix_properties mode defaults required fs).1))
          ≡ true
    promoted true h = ground (arith, text_eq_iff p p)
    promoted false h = ground arith
fix_again mode defaults required again (field p null fs) covers =
    rw (fix_again mode defaults required again fs covers) refl
fix_again mode defaults required again (field p (bool b) fs) covers =
    rw (fix_again mode defaults required again fs covers) refl
fix_again mode defaults required again (field p (num n) fs) covers =
    rw (fix_again mode defaults required again fs covers) refl
fix_again mode defaults required again (field p (str t) fs) covers =
    rw (fix_again mode defaults required again fs covers) refl
fix_again mode defaults required again (field p (arr xs) fs) covers =
    rw (fix_again mode defaults required again fs covers) refl

-- What the new parameters hold.
with_promoted_facts :
    (params : Fields) (required : Items) (fixed : Fields × List Text) (params' : Fields)
    → with_promoted params required fixed ≡ some params'
    → (get_field (text "properties") params' ≡ some (obj fixed.0))
      × (required_list (get_field (text "required") params') ≡ append_names required fixed.1)
unfolding text_eq
with_promoted_facts params required (props, []) params' e = cc
with_promoted_facts params required (props, p ∷ ps) params' e =
    let fixed : Fields = set_field (text "properties") (obj props) params in
    let wanted : Json = arr (append_names required (p ∷ ps)) in
    let same : set_field (text "required") wanted fixed ≡ params' = ground arith in
    subst Holds same (
      get_field-set_field (text "required") (text "properties") wanted fixed
          ∙ get_field-set_field (text "properties") (text "properties") (obj props) params,
      ap required_list (get_field-set_field (text "required") (text "required") wanted fixed),
    )
  where
    Holds : Fields → Type 0
    Holds x =
        (get_field (text "properties") x ≡ some (obj props))
        × (required_list (get_field (text "required") x) ≡ append_names required (p ∷ ps))

fix_parameters_twice :
    (mode : Text) (defaults params props params' : Fields)
    → fix_parameters mode defaults params props ≡ some params'
    → (get_field (text "properties") params'
        ≡ some (
            obj
              (fix_properties mode defaults
                (required_list (get_field (text "required") params))
                props).0))
      × (fix_parameters mode defaults params'
            (fix_properties mode defaults
              (required_list (get_field (text "required") params))
              props).0
          ≡ none)
unfolding fix_parameters
fix_parameters_twice mode defaults params props params' e =
    let required = required_list (get_field (text "required") params) in
    let fixed = fix_properties mode defaults required props in
    let facts = with_promoted_facts params required fixed params' e in
    let again =
      fix_again mode defaults required (append_names required fixed.1) props
        λ p h. requires-append_names p required fixed.1 ∙ h in
    (facts.0, rw (facts.1, again) refl)

fix_properties_field :
    (mode : Text) (defaults : Fields) (required : Items) (p : Text) (v : Json) (fs : Fields)
    → (w : Json) × (gs : Fields) × ((fix_properties mode defaults required (field p v fs)).0
        ≡ field p w gs)
unfolding fix_properties
fix_properties_field mode defaults required p (obj x) fs = (_, _, refl)
fix_properties_field mode defaults required p null fs = (_, _, refl)
fix_properties_field mode defaults required p (bool b) fs = (_, _, refl)
fix_properties_field mode defaults required p (num n) fs = (_, _, refl)
fix_properties_field mode defaults required p (str t) fs = (_, _, refl)
fix_properties_field mode defaults required p (arr xs) fs = (_, _, refl)

-- The shape of what is rebuilt.
shape-rebuild :
    (tool function params : Fields) (p : Text) (v : Json) (fs : Fields)
    → get_field (text "properties") params ≡ some (obj (field p v fs))
    → shape (rebuild tool function params)
      ≡ some (
        set_field
            (text "function")
            (obj (set_field (text "parameters") (obj params) function))
            tool,
        set_field (text "parameters") (obj params) function,
        params,
        field p v fs,
      )
unfolding shape shape_function shape_parameters shape_properties text_eq
shape-rebuild tool function params p v fs e =
    let inner = set_field (text "parameters") (obj params) function in
    let at_tool = get_field-set_field (text "function") (text "function") (obj inner) tool in
    let at_function =
      get_field-set_field (text "parameters") (text "parameters") (obj params) function in
    rw (at_tool, at_function, e) refl

-- A second pass over what a first pass rebuilt changes nothing.
fix_shape_twice :
    (table : Dict Fields) (mode : Text) (tool function params : Fields) (p : Text) (v : Json)
    (fs params' : Fields)
    → fix_parameters mode
        (tool_defaults table (get_field (text "name") function))
        params
        (field p v fs)
      ≡ some params'
    → fix_shape table mode (rebuild tool function params') (shape (rebuild tool function params'))
      ≡ rebuild tool function params'
unfolding fix_shape apply_parameters text_eq
fix_shape_twice table mode tool function params p v fs params' e =
    let defaults = tool_defaults table (get_field (text "name") function) in
    let required = required_list (get_field (text "required") params) in
    let twice = fix_parameters_twice mode defaults params (field p v fs) params' e in
    let new = fix_properties_field mode defaults required p v fs in
    let shaped =
      shape-rebuild tool function params' p new.0 new.1 (twice.0 ∙ ap (λ x. some (obj x)) new.2) in
    let fixed = rebuild tool function params' in
    let inner = set_field (text "parameters") (obj params') function in
    let outer = set_field (text "function") (obj inner) tool in
    let named = get_field-set_field (text "parameters") (text "name") (obj params') function in
    let rest = field p new.0 new.1 in
    let nothing_left : fix_parameters mode (tool_defaults table (get_field (text "name") inner))
          params' rest
        ≡ none =
      ap (λ x. fix_parameters mode (tool_defaults table x) params' rest) named
      ∙ (ap (fix_parameters mode defaults params') (sym new.2) ∙ twice.1) in
    ap (fix_shape table mode fixed) shaped ∙ ap (apply_parameters fixed outer inner) nothing_left

-- Promotion is stable: a tool that was fixed is not changed by fixing it again.
pub fixup_tool_schema_twice :
    (table : Dict Fields) (mode : Text) (tool : Json)
    → fixup_tool_schema table mode (fixup_tool_schema table mode tool)
      ≡ fixup_tool_schema table mode tool
unfolding fixup_tool_schema fix_shape apply_parameters fix_parameters fix_properties
fixup_tool_schema_twice table mode tool = elim (Bool-cases (leaves_alone mode)) [
  | inl off ↦ rw off refl
  | inr on ↦ rw on (again (shape tool) refl)
]
  where
    Stable : Json → Type 0
    Stable x = fix_shape table mode x (shape x) ≡ x

    again : (o : Option Shape) → shape tool ≡ o → Stable (fix_shape table mode tool o)
    again none e = ap (fix_shape table mode tool) e
    again (some (t, function, params, end)) e = ap (fix_shape table mode tool) e
    again (some (t, function, params, field p v fs)) e =
        split
          (fix_parameters mode (tool_defaults table (get_field (text "name") function)) params
            (field p v fs))
          refl
      where
        split :
            (q : Option Fields)
            → fix_parameters mode
                (tool_defaults table (get_field (text "name") function))
                params
                (field p v fs)
              ≡ q
            → Stable (fix_shape table mode tool (some (t, function, params, field p v fs)))
        split none q =
            let same = ap (apply_parameters tool t function) q in
            subst Stable (sym same) (ap (fix_shape table mode tool) e ∙ same)
        split (some params') q =
            let same = ap (apply_parameters tool t function) q in
            subst Stable (sym same) (fix_shape_twice table mode t function params p v fs params' q)
