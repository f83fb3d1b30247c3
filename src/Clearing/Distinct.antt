-- ===== src/Clearing/Distinct.antt =====
-- Places of tool results whose ids are distinct: a first part of them is found by its ids.
use ollama_herd.Common.{
  ℕ, zero, suc, ◌-◌, ◌≡◌, refl, false, not, ◌&&◌, ◌||◌, List, [], ◌∷◌, ◌++◌, Text, text_eq_iff, mem,
  length, take, filter, any, arith, Bool-cases, inl, inr, ltb,
}
use ollama_herd.Clearing.Messages.{Position}
use ollama_herd.Clearing.Cut.{ids_of, is_sticky, older, to_advance}
use ollama_herd.Clearing.Blank.{Test, any-append}

-- No id of a tool use stands at two places.
abbrev pub DistinctIds : List Position → Type 0
DistinctIds [] = Unit
DistinctIds (p ∷ ps) = (mem p.2 (ids_of ps) ≡ false) × DistinctIds ps

mem-ids_of-filter :
    (t : Text) (q : Test) (ps : List Position)
    → mem t (ids_of ps) ≡ false
    → mem t (ids_of (filter q ps)) ≡ false
mem-ids_of-filter t q [] h = refl
mem-ids_of-filter t q (p ∷ ps) h = ground (arith, mem-ids_of-filter t q ps)

filter-DistinctIds : (q : Test) (ps : List Position) → DistinctIds ps → DistinctIds (filter q ps)
filter-DistinctIds q [] u = tt
filter-DistinctIds q (p ∷ ps) u =
    ground (arith, filter-DistinctIds q ps, mem-ids_of-filter p.2 q ps)

filter_none : (ps : List Position) → filter (λ p. false) ps ≡ []
filter_none [] = refl
filter_none (p ∷ ps) = filter_none ps

-- An id that none of the positions has makes no difference.
filter_absent :
    (t : Text) (ts : List Text) (ps : List Position)
    → mem t (ids_of ps) ≡ false
    → filter (λ p. mem p.2 (t ∷ ts)) ps ≡ filter (λ p. mem p.2 ts) ps
filter_absent t ts [] h = refl
filter_absent t ts (p ∷ ps) h =
    ground (arith, filter_absent t ts ps, text_eq_iff t p.2, text_eq_iff p.2 t)

filter-take :
    (n : ℕ) (ps : List Position)
    → DistinctIds ps
    → filter (λ p. mem p.2 (ids_of (take n ps))) ps ≡ take n ps
filter-take zero ps u = filter_none ps
filter-take (suc n) [] u = refl
filter-take (suc n) (p ∷ ps) u =
    ground (arith, filter_absent p.2 (ids_of (take n ps)) ps, filter-take n ps, text_eq_iff p.2 p.2)

any-filter-filter :
    (f a b : Test) (ps : List Position)
    → (any f (filter a ps) || any f (filter b (filter (λ p. not (a p)) ps)))
      ≡ any f (filter (λ p. a p || b p) ps)
any-filter-filter f a b [] = refl
any-filter-filter f a b (p ∷ ps) = ground (arith, any-filter-filter f a b ps)

take_all : (ps : List Position) → take (length ps) ps ≡ ps
take_all [] = refl
take_all (p ∷ ps) = ground (arith, take_all ps)

-- The results that become sticky are a first part of those that are not.
pub to_advance-take :
    (keep trigger before : ℕ) (sticky : List Text) (ps : List Position)
    → (n : ℕ) × (to_advance keep trigger before sticky ps
        ≡ take n (filter (λ p. not (is_sticky sticky p)) ps))
unfolding to_advance older
to_advance-take keep trigger before sticky ps =
    let ns = filter (λ p. not (is_sticky sticky p)) ps in
    elim (Bool-cases (ltb trigger before && ltb keep (length ns))) [
      | inl over ↦ elim (Bool-cases (ltb 0 keep)) [
        | inl some_kept ↦ (length ns - keep, ground arith)
        | inr none_kept ↦ (length ns, ground (arith, take_all ns))
      ]
      | inr under ↦ (0, ground arith)
    ]

-- To clear the sticky results and then `n` of the others is to clear those whose id is sticky or
-- one of the `n` ids.
pub any-cut :
    (f : Test) (sticky : List Text) (n : ℕ) (ps : List Position)
    → DistinctIds ps
    → any f (filter (is_sticky sticky) ps ++ take n (filter (λ p. not (is_sticky sticky p)) ps))
      ≡ any f (
          filter
            (λ p.
              is_sticky sticky p
              || mem p.2 (ids_of (take n (filter (λ p. not (is_sticky sticky p)) ps))))
            ps)
any-cut f sticky n ps u =
    let ns = filter (λ p. not (is_sticky sticky p)) ps in
    let new = ids_of (take n ns) in
    rw
      (
        any-append f (filter (is_sticky sticky) ps) (take n ns),
        ← any-filter-filter f (is_sticky sticky) (λ p. mem p.2 new) ps,
        filter-take n ns (filter-DistinctIds (λ p. not (is_sticky sticky p)) ps u),
      )
      refl
