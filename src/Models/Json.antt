-- ===== src/Models/Json.antt =====
-- JSON values, as the request bodies and status dictionaries hold them. Numbers are whole: no code
-- that is modelled computes with a number of a body.
pub mod Dumps
use ollama_herd.Common.{
  ℕ, zero, suc, Bool, true, false, Option, none, some, [], ◌∷◌, Text, text_eq, if◌then◌else◌,
}

mutual
  pub data Json : Type 0 where
    null : Json
    bool : Bool → Json
    num : ℕ → Json
    str : Text → Json
    arr : Items → Json
    obj : Fields → Json

  pub data Items : Type 0 where
    nil : Items
    cons : Json → Items → Items

  pub data Fields : Type 0 where
    end : Fields
    field : Text → Json → Fields → Fields

-- `d.get(k)` on a `dict`: the keys are unique.
unfoldable pub get_field : Text → Fields → Option Json
get_field k end = none
get_field k (field j v fs) = if text_eq j k then some v else get_field k fs

-- `bool(v)`
abbrev pub truthy : Json → Bool
truthy null = false
truthy (bool b) = b
truthy (num zero) = false
truthy (num (suc n)) = true
truthy (str []) = false
truthy (str (c ∷ s)) = true
truthy (arr nil) = false
truthy (arr (cons x xs)) = true
truthy (obj end) = false
truthy (obj (field k v fs)) = true

-- `bool(d.get(k))`
abbrev pub field_truthy : Text → Fields → Bool
field_truthy k fs = elim (get_field k fs) [ none ↦ false | some v ↦ truthy v ]

-- `d[k] = v` on a `dict`.
unfoldable pub set_field : Text → Json → Fields → Fields
set_field k v end = field k v end
set_field k v (field j w fs) = if text_eq j k then field j v fs else field j w (set_field k v fs)
