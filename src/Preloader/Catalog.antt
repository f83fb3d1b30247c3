-- ===== src/Preloader/Catalog.antt =====
-- `lookup_model` of src/fleet_manager/server/model_knowledge.py; the catalog itself is an argument.
use ollama_herd.Common.{
  ℕ, ◌||◌, Option, none, some, List, [], ◌∷◌, ◌++◌, Text, text, text_eq, if◌then◌else◌, starts_with,
}

-- The fields that the modelled code reads.
pub record ModelSpec : Type 0 where
  pub ollama_name : Text
  pub family : Text
  pub ram_gb : ℕ

-- `_BY_NAME.get(name)`: of two specs with a name the later one stays.
unfoldable pub by_name : List ModelSpec → Text → Option ModelSpec
by_name [] name = none
by_name (m ∷ ms) name = elim (by_name ms name) [
  | some spec ↦ some spec
  | none ↦ if text_eq m.ollama_name name then some m else none
]

-- `s.removesuffix(suffix)`, for a suffix that is not empty.
unfoldable pub remove_suffix : Text → Text → Text
remove_suffix suffix [] = []
remove_suffix suffix (c ∷ s) =
    let rest = remove_suffix suffix s in if text_eq (c ∷ s) suffix then [] else c ∷ rest

unfoldable pub by_family : List ModelSpec → Text → Option ModelSpec
by_family [] base = none
by_family (m ∷ ms) base =
    if text_eq m.family base || starts_with (base ++ text ":") m.ollama_name
    then some m
    else by_family ms base

unfoldable pub lookup_model : List ModelSpec → Text → Option ModelSpec
lookup_model catalog name =
    let base = remove_suffix (text ":latest") name in
    elim (by_name catalog name) [
      | some spec ↦ some spec
      | none ↦ elim (by_name catalog base) [ some spec ↦ some spec | none ↦ by_family catalog base ]
    ]
