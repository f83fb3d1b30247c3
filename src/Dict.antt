-- ===== src/Dict.antt =====
-- Python's `dict` with text keys: an association list in insertion order. A write to a key that is
-- there keeps its place; a new key goes to the end.
pub mod Unique
use ollama_herd.Common.{
  ◌+◌, ◌≤◌, ◌<◌, ◌≡◌, refl, Bool, true, Option, none, some, List, [], ◌∷◌, arith, Text, text_eq,
  text_eq_iff, text_eq_refl, if◌then◌else◌, length, is_some, map, Bool-cases, inl, inr, subst, sym,
}

abbrev pub Dict {ℓ} : Type ℓ → Type ℓ
Dict V = List (Text × V)

module _ {ℓ} {V : Type ℓ} where
  -- `d.get(k)`
  unfoldable pub get : Text → Dict V → Option V
  get k [] = none
  get k ((j, v) ∷ d) = if text_eq j k then some v else get k d

  -- `d.get(k, default)`
  abbrev pub get_or : Text → V → Dict V → V
  get_or k e d = elim (get k d) [ none ↦ e | some v ↦ v ]

  -- `k in d`
  abbrev pub contains : Text → Dict V → Bool
  contains k d = is_some (get k d)

  -- `d[k] = v`
  unfoldable pub set : Text → V → Dict V → Dict V
  set k v [] = (k, v) ∷ []
  set k v ((j, w) ∷ d) = if text_eq j k then (j, v) ∷ d else (j, w) ∷ set k v d

  -- `d.pop(k, None)`: keys are unique, so to drop every entry with the key is the same.
  unfoldable pub pop : Text → Dict V → Dict V
  pop k [] = []
  pop k ((j, w) ∷ d) = if text_eq j k then pop k d else (j, w) ∷ pop k d

  abbrev pub values : Dict V → List V
  values d = map (λ e. e.1) d

  abbrev pub keys : Dict V → List Text
  keys d = map (λ e. e.0) d

  pub get-set :
      (k j : Text) (v : V) (d : Dict V)
      → get j (set k v d) ≡ (if text_eq k j then some v else get j d)
  unfolding get set
  get-set k j v [] = refl
  get-set k j v ((i, w) ∷ d) =
      ground (arith, text_eq_iff k j, text_eq_iff i k, text_eq_iff i j, get-set k j v d)

  pub get-set_self : (k : Text) (v : V) (d : Dict V) → get k (set k v d) ≡ some v
  get-set_self k v d = rw (get-set k k v d, text_eq_refl k)

  pub get-pop :
      (k j : Text) (d : Dict V) → get j (pop k d) ≡ (if text_eq k j then none else get j d)
  unfolding get pop
  get-pop k j [] = ground arith
  get-pop k j ((i, w) ∷ d) =
      ground (arith, text_eq_iff k j, text_eq_iff i k, text_eq_iff i j, get-pop k j d)

  pub get-pop_self : (k : Text) (d : Dict V) → get k (pop k d) ≡ none
  get-pop_self k d = rw (get-pop k k d, text_eq_refl k)

  pub length-set-le : (k : Text) (v : V) (d : Dict V) → length (set k v d) ≤ length d + 1
  unfolding set
  length-set-le k v [] = omega arith
  length-set-le k v ((j, w) ∷ d) = ground (arith, length-set-le k v d)

  pub length-pop-le : (k : Text) (d : Dict V) → length (pop k d) ≤ length d
  unfolding pop
  length-pop-le k [] = omega arith
  length-pop-le k ((j, w) ∷ d) = ground (arith, length-pop-le k d)

  pub length-pop-lt : (k : Text) (d : Dict V) → contains k d ≡ true → length (pop k d) < length d
  unfolding pop get
  length-pop-lt k [] h = cc
  length-pop-lt k ((j, w) ∷ d) h = ground (arith, length-pop-lt k d, length-pop-le k d)

  -- Every entry satisfies `P`.
  abbrev pub Entries {κ} : (Text → V → Type κ) → Dict V → Type κ
  Entries P [] = Unit
  Entries P ((k, v) ∷ d) = P k v × Entries P d

  pub set-Entries {κ} :
      (P : Text → V → Type κ) (k : Text) (v : V) (d : Dict V)
      → P k v
      → Entries P d
      → Entries P (set k v d)
  unfolding set
  set-Entries P k v [] new old = (new, tt)
  set-Entries P k v ((j, w) ∷ d) new old = elim (Bool-cases (text_eq j k)) [
    | inl same ↦
        let here : j ≡ k = (text_eq_iff j k).0 same in
        rw same (subst (λ x. P x v) (sym here) new, old.1)
    | inr other ↦ rw other (old.0, set-Entries P k v d new old.1)
  ]

  pub get-Entries {κ} :
      (P : Text → V → Type κ) (k : Text) (v : V) (d : Dict V)
      → Entries P d
      → get k d ≡ some v
      → P k v
  unfolding get
  get-Entries P k v [] all e = cc
  get-Entries P k v ((j, w) ∷ d) all e = elim (Bool-cases (text_eq j k)) [
    | inl same ↦
        let here : j ≡ k = (text_eq_iff j k).0 same in
        let now : w ≡ v = ground arith in subst (λ x. P x v) here (subst (P j) now all.0)
    | inr other ↦ get-Entries P k v d all.1 (rw (← e) (rw other refl))
  ]

  pub pop-Entries {κ} :
      (P : Text → V → Type κ) (k : Text) (d : Dict V) → Entries P d → Entries P (pop k d)
  unfolding pop
  pop-Entries P k [] all = tt
  pop-Entries P k ((j, w) ∷ d) all = elim (Bool-cases (text_eq j k)) [
    | inl same ↦ rw same (pop-Entries P k d all.1)
    | inr other ↦ rw other (all.0, pop-Entries P k d all.1)
  ]

  pub map-Entries {κ μ} :
      (P : Text → V → Type κ) (Q : Text → V → Type μ) (d : Dict V)
      → ((k : Text) (v : V) → P k v → Q k v)
      → Entries P d
      → Entries Q d
  map-Entries P Q [] f all = tt
  map-Entries P Q ((j, w) ∷ d) f all = (f j w all.0, map-Entries P Q d f all.1)
