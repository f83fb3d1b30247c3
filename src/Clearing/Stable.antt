-- ===== src/Clearing/Stable.antt =====
-- The stable cut: what a turn sends is decided by the store, so that it stays the same in the next.
use ollama_herd.Common.{
  ℕ, ◌≡◌, refl, sym, subst, Bool, true, false, not, ◌&&◌, ◌||◌, some, List, [], ◌∷◌, ◌++◌, Text,
  is_empty, mem, leb, length, filter, any, arith, Bool-cases, inl, inr,
}
use ollama_herd.Clearing.Messages.{Message, Position, total_tokens, iter_positions}
use ollama_herd.Clearing.Sticky.{StickyStore, IsSticky, sticky_ids}
use ollama_herd.Clearing.Cut.{
  ids_of, is_sticky, to_advance, finish, first_report, add_new, touch_all, clear_sticky,
  clear_old_tool_results, ClearingReport,
}

module _ {S : Type 0} (store : StickyStore S) (laws : IsSticky store) where
  mem-add_new :
      (t : Text) (ids : List Text) (s : S)
      → is_empty t ≡ false
      → mem t (sticky_ids store (add_new store ids s)) ≡ (mem t (sticky_ids store s) || mem t ids)
  mem-add_new t [] s h = ground arith
  mem-add_new t (u ∷ us) s h = ground (arith, laws.mem-add t (u ∷ us) s)

  mem-touch_all :
      (t : Text) (ps : List Position) (s : S)
      → mem t (sticky_ids store (touch_all store ps s)) ≡ mem t (sticky_ids store s)
  mem-touch_all t [] s = refl
  mem-touch_all t (p ∷ ps) s = laws.mem-touch t (ids_of (p ∷ ps)) s

  -- The results that pass the store's set, as a test.
  abbrev stuck : S → Position → Bool
  stuck s = is_sticky (sticky_ids store s)

module _ {S : Type 0} (store : StickyStore S) (laws : IsSticky store) (keep trigger : ℕ) (p : Text)
    (ms : List Message) (s : S) where
  abbrev places : List Position
  places = iter_positions 0 ms

  abbrev advance : List Position
  advance = to_advance keep trigger (total_tokens ms) (sticky_ids store s) places

  abbrev cut : List Position
  cut = filter (stuck store laws s) places ++ advance

  abbrev after : S
  after = (clear_old_tool_results (some store) keep trigger p ms s).2

  append_empty : (xs ys : List Position) → xs ++ ys ≡ [] → ys ≡ []
  append_empty [] ys h = h
  append_empty (x ∷ xs) ys h = cc

  no_advance : leb (total_tokens ms) trigger ≡ true → advance ≡ []
  unfolding to_advance
  no_advance h = ground arith

  mem-finish :
      (t : Text) (cp : List Position)
      → is_empty t ≡ false
      → cp ≡ cut
      → mem t (
          sticky_ids store
            (finish p ms places cp s
              (store.touch_last_seen (ids_of places) (add_new store (ids_of advance) s))).2)
        ≡ (mem t (sticky_ids store s) || mem t (ids_of advance))
  mem-finish t [] h e =
      rw (append_empty (filter (stuck store laws s) places) advance (sym e)) (ground arith)
  mem-finish t (c ∷ cp) h e = ground (
    arith,
    laws.mem-touch t (ids_of places) (add_new store (ids_of advance) s),
    mem-add_new store laws t (ids_of advance) s h,
  )

  abbrev skips : Bool
  skips = leb (total_tokens ms) trigger && not (any (stuck store laws s) places)

  clear_sticky_early :
      skips ≡ true
      → clear_sticky store keep trigger p ms s
        ≡ (ms, first_report (total_tokens ms) (length places), touch_all store places s)
  unfolding clear_sticky
  clear_sticky_early h = rw h refl

  clear_sticky_late :
      skips ≡ false
      → clear_sticky store keep trigger p ms s
        ≡ finish p ms places cut s
            (store.touch_last_seen (ids_of places) (add_new store (ids_of advance) s))
  unfolding clear_sticky
  clear_sticky_late h = rw h refl

  -- After a turn the store has the ids that it had and those of the results that the turn advances
  -- over.
  pub mem-clear_sticky :
      (t : Text)
      → is_empty t ≡ false
      → mem t (sticky_ids store after) ≡ (mem t (sticky_ids store s) || mem t (ids_of advance))
  unfolding clear_old_tool_results
  mem-clear_sticky t h = elim (Bool-cases skips) [
    | inl early ↦
        let kept = mem-touch_all store laws t places s in
        subst Grown (sym (clear_sticky_early early)) (rw (no_advance (ground arith)) (ground arith))
    | inr late ↦ subst Grown (sym (clear_sticky_late late)) (mem-finish t cut h refl)
  ]
    where
      Grown : List Message × ClearingReport × S → Type 0
      Grown r =
          mem t (sticky_ids store r.2) ≡ (mem t (sticky_ids store s) || mem t (ids_of advance))
