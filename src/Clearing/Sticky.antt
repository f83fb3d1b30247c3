-- ===== src/Clearing/Sticky.antt =====
-- The set of cleared tool uses that context_management.py asks for, an interface.
use ollama_herd.Common.{◌≡◌, ◌&&◌, ◌||◌, not, Option, none, some, List, [], Text, mem, is_empty}

-- An object like ClearingStore, whose state is `S`. A read that raises gives nothing; a write that
-- raises leaves some state.
pub record StickyStore (S : Type 0) : Type 0 where
  pub load_all : S → Option (List Text)
  pub add : List Text → S → S
  pub touch_last_seen : List Text → S → S

-- The read of clear_old_tool_results, which takes a failure for the empty set.
abbrev pub sticky_ids : {S : Type 0} → StickyStore S → S → List Text
sticky_ids store s = elim (store.load_all s) [ none ↦ [] | some ids ↦ ids ]

-- The store is a set of ids to which ids are added and from which none is taken.
pub record IsSticky {S : Type 0} (store : StickyStore S) : Type 0 where
  pub mem-add :
      (t : Text) (ids : List Text) (s : S)
      → mem t (sticky_ids store (store.add ids s))
        ≡ (mem t (sticky_ids store s) || (not (is_empty t) && mem t ids))
  pub mem-touch :
      (t : Text) (ids : List Text) (s : S)
      → mem t (sticky_ids store (store.touch_last_seen ids s)) ≡ mem t (sticky_ids store s)
