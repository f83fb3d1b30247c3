-- ===== src/Models/Request/Naming.antt =====
-- The normalization of model names.
use ollama_herd.Common.{
  ◌≡◌, refl, Bool, true, false, List, [], ◌∷◌, ◌++◌, map, arith, Text, text, has_code, is_empty,
  if◌then◌else◌, Bool-cases, inl, inr, ◌⊎◌,
}
use ollama_herd.Models.Request.{
  normalize_model_name, normalize_request, InferenceRequest, detect_images,
}

has_code-append : (s t : Text) → has_code b':' (s ++ b':' ∷ t) ≡ true
has_code-append [] t = refl
has_code-append (c ∷ s) t = ground (arith, has_code-append s t)

normalize_model_name_twice :
    (name : Text) → normalize_model_name (normalize_model_name name) ≡ normalize_model_name name
unfolding normalize_model_name
normalize_model_name_twice [] = refl
normalize_model_name_twice (c ∷ s) = ground (arith, has_code-append (c ∷ s) (text "latest"))

map_twice :
    (names : List Text)
    → map normalize_model_name (map normalize_model_name names) ≡ map normalize_model_name names
map_twice [] = refl
map_twice (n ∷ ns) = rw (normalize_model_name_twice n, map_twice ns) refl

has_tag : (name : Text) → is_empty name ≡ false → has_code b':' (normalize_model_name name) ≡ true
unfolding normalize_model_name
has_tag [] h = cc
has_tag (c ∷ s) h = ground (arith, has_code-append (c ∷ s) (text "latest"))

is_empty-normalize_model_name : (name : Text) → is_empty (normalize_model_name name) ≡ is_empty name
unfolding normalize_model_name
is_empty-normalize_model_name [] = refl
is_empty-normalize_model_name (c ∷ s) = ground arith

abbrev original : Text → Text
original o = if is_empty o then o else normalize_model_name o

original_twice : (o : Text) → original (original o) ≡ original o
original_twice o = ground (arith, is_empty-normalize_model_name o, normalize_model_name_twice o)

images_twice : (a b : Bool) → (if if a then true else b then true else b) ≡ (if a then true else b)
images_twice true b = refl
images_twice false b = ground arith

-- Validation is stable: a request that has been validated is not changed by validating it again,
-- and its model, unless the name is empty, carries a tag.
normalize_request_twice :
    (r : InferenceRequest)
    → (normalize_request (normalize_request r) ≡ normalize_request r)
      × ((is_empty r.model ≡ true) ⊎ (has_code b':' (normalize_request r).model ≡ true))
unfolding normalize_request
normalize_request_twice r = (
  rw
      (
        normalize_model_name_twice r.model,
        map_twice r.fallback_models,
        original_twice r.original_model,
        images_twice r.has_images (detect_images r.messages),
      )
      refl,
  elim (Bool-cases (is_empty r.model)) [ inl e ↦ inl e | inr e ↦ inr (has_tag r.model e) ],
)
