-- ===== src/Clearing/Store.antt =====
-- The table of cleared tool uses: src/fleet_manager/server/clearing_store.py.
use ollama_herd.Common.{
  ℕ, ◌+◌, ◌*◌, ◌≡◌, refl, sym, ap, ◌∙◌, Bool, true, false, not, ◌&&◌, ◌||◌, Option, none, some,
  List, [], ◌∷◌, map, Text, text_eq, text_eq_iff, mem, is_empty, ltb, min, max, if◌then◌else◌,
  length, filter, arith,
}
use ollama_herd.Dict.{Dict}
use ollama_herd.Dict
use ollama_herd.Clearing.Sticky.{StickyStore, IsSticky, sticky_ids}

-- The columns of `cleared_tool_uses` beside its key.
pub record Row : Type 0 where
  pub cleared_at : ℕ
  pub last_seen : ℕ

abbrev pub Table : Type 0
Table = Dict Row

abbrev pub default_prune_days : ℕ
default_prune_days = 7

-- Whether SQLite answers; where it raises OperationalError, the methods catch it.
pub data Sqlite : Type 0 where
  answers : Sqlite
  raises : Sqlite

-- `[tid for tid in tool_use_ids if tid]`
abbrev pub nonempty_ids : List Text → List Text
nonempty_ids ids = filter (λ t. not (is_empty t)) ids

unfoldable pub load_all : Sqlite → Table → List Text
load_all answers rows = Dict.keys rows
load_all raises rows = []

-- `INSERT ... ON CONFLICT(tool_use_id) DO UPDATE SET last_seen = ?`
unfoldable pub upsert : ℕ → Text → Table → Table
upsert now t [] = (t, record { cleared_at = now; last_seen = now }) ∷ []
upsert now t ((u, r) ∷ rows) =
    if text_eq u t then (u, record r { last_seen = now }) ∷ rows else (u, r) ∷ upsert now t rows

unfoldable pub upsert_all : ℕ → List Text → Table → Table
upsert_all now [] rows = rows
upsert_all now (t ∷ ts) rows = upsert_all now ts (upsert now t rows)

unfoldable pub add : Sqlite → ℕ → List Text → Table → Table
add answers now ids rows = upsert_all now (nonempty_ids ids) rows
add raises now ids rows = rows

-- `UPDATE cleared_tool_uses SET last_seen = ? WHERE tool_use_id = ?`
unfoldable pub update_seen : ℕ → Text → Table → Table
update_seen now t [] = []
update_seen now t ((u, r) ∷ rows) =
    (u, if text_eq u t then record r { last_seen = now } else r) ∷ update_seen now t rows

unfoldable pub update_all : ℕ → List Text → Table → Table
update_all now [] rows = rows
update_all now (t ∷ ts) rows = update_all now ts (update_seen now t rows)

unfoldable pub touch_last_seen : Sqlite → ℕ → List Text → Table → Table
touch_last_seen answers now ids rows = update_all now (nonempty_ids ids) rows
touch_last_seen raises now ids rows = rows

-- `last_seen < now - days * 86400`
abbrev pub is_stale : ℕ → ℕ → Row → Bool
is_stale now days r = ltb (r.last_seen + days * 86400) now

-- The table, and the number of rows that are deleted.
unfoldable pub prune_older_than : Sqlite → ℕ → ℕ → Table → Table × ℕ
prune_older_than answers now days rows = (
  filter (λ e. not (is_stale now days e.1)) rows,
  length (filter (λ e. is_stale now days e.1) rows),
)
prune_older_than raises now days rows = (rows, 0)

pub record Stats : Type 0 where
  pub total_cleared_ids : ℕ
  pub oldest_cleared_at : Option ℕ
  pub newest_seen_at : Option ℕ

-- An aggregate of SQL: nothing for no rows.
least : List ℕ → Option ℕ
least [] = none
least (n ∷ ns) = elim (least ns) [ none ↦ some n | some m ↦ some (min n m) ]

greatest : List ℕ → Option ℕ
greatest [] = none
greatest (n ∷ ns) = elim (greatest ns) [ none ↦ some n | some m ↦ some (max n m) ]

-- Where SQLite raises, the dictionary holds the count only.
unfoldable pub stats : Sqlite → Table → Stats
unfolding least greatest
stats answers rows = record {
  total_cleared_ids = length rows;
  oldest_cleared_at = least (map (λ e. e.1.cleared_at) rows);
  newest_seen_at = greatest (map (λ e. e.1.last_seen) rows);
}
stats raises rows = record {
  total_cleared_ids = 0;
  oldest_cleared_at = none;
  newest_seen_at = none;
}

-- The store at the time `now`, as clear_old_tool_results uses it, and whether SQLite answers each of
-- its three calls.
unfoldable pub clearing_store : Sqlite → Sqlite → Sqlite → ℕ → StickyStore Table
clearing_store read write touch now = record {
  load_all = λ rows. some (load_all read rows);
  add = add write now;
  touch_last_seen = touch_last_seen touch now;
}

abbrev pub does_answer : Sqlite → Bool
does_answer answers = true
does_answer raises = false

mem-upsert :
    (t u : Text) (now : ℕ) (rows : Table)
    → mem t (Dict.keys (upsert now u rows)) ≡ (text_eq t u || mem t (Dict.keys rows))
unfolding upsert
mem-upsert t u now [] = refl
mem-upsert t u now ((j, r) ∷ rows) = ground (arith, mem-upsert t u now rows, text_eq_iff j u)

mem-upsert_all :
    (t : Text) (now : ℕ) (ids : List Text) (rows : Table)
    → mem t (Dict.keys (upsert_all now ids rows)) ≡ (mem t (Dict.keys rows) || mem t ids)
unfolding upsert_all
mem-upsert_all t now [] rows = ground arith
mem-upsert_all t now (u ∷ ids) rows =
    ground (arith, mem-upsert_all t now ids (upsert now u rows), mem-upsert t u now rows)

mem-nonempty_ids :
    (t : Text) (ids : List Text) → mem t (nonempty_ids ids) ≡ (not (is_empty t) && mem t ids)
mem-nonempty_ids t [] = ground arith
mem-nonempty_ids t (u ∷ ids) = ground (arith, mem-nonempty_ids t ids, text_eq_iff t u)

keys-update_seen :
    (now : ℕ) (t : Text) (rows : Table) → Dict.keys (update_seen now t rows) ≡ Dict.keys rows
unfolding update_seen
keys-update_seen now t [] = refl
keys-update_seen now t ((u, r) ∷ rows) = ground (arith, keys-update_seen now t rows)

keys-update_all :
    (now : ℕ) (ids : List Text) (rows : Table)
    → Dict.keys (update_all now ids rows) ≡ Dict.keys rows
unfolding update_all
keys-update_all now [] rows = refl
keys-update_all now (t ∷ ts) rows =
    ground (arith, keys-update_all now ts (update_seen now t rows), keys-update_seen now t rows)

mem-add :
    (write : Sqlite) (now : ℕ) (t : Text) (ids : List Text) (rows : Table)
    → mem t (Dict.keys (add write now ids rows))
      ≡ (mem t (Dict.keys rows) || (does_answer write && not (is_empty t) && mem t ids))
unfolding add
mem-add answers now t ids rows =
    ground (arith, mem-upsert_all t now (nonempty_ids ids) rows, mem-nonempty_ids t ids)
mem-add raises now t ids rows = ground arith

keys-touch_last_seen :
    (touch : Sqlite) (now : ℕ) (ids : List Text) (rows : Table)
    → Dict.keys (touch_last_seen touch now ids rows) ≡ Dict.keys rows
unfolding touch_last_seen
keys-touch_last_seen answers now ids rows = keys-update_all now (nonempty_ids ids) rows
keys-touch_last_seen raises now ids rows = refl

mem-load_all :
    (read : Sqlite) (t : Text) (rows : Table)
    → mem t (load_all read rows) ≡ (does_answer read && mem t (Dict.keys rows))
unfolding load_all
mem-load_all answers t rows = refl
mem-load_all raises t rows = refl

-- The store is the set of the table's ids, where SQLite answers: a read that is refused gives the
-- empty set; after `add` the set holds what it held and, unless the write is refused, the ids that
-- are not empty; and `touch_last_seen` adds and takes none, refused or not.
pub clearing_store_lem :
    (read write touch : Sqlite) (now : ℕ) (t : Text) (ids : List Text) (rows : Table)
    → (mem t (
          sticky_ids
            (clearing_store read write touch now)
            ((clearing_store read write touch now).add ids rows))
        ≡ (does_answer read
            && (mem t (Dict.keys rows) || (does_answer write && not (is_empty t) && mem t ids))))
      × (mem t (
            sticky_ids
              (clearing_store read write touch now)
              ((clearing_store read write touch now).touch_last_seen ids rows))
          ≡ (does_answer read && mem t (Dict.keys rows)))
      × (mem t (sticky_ids (clearing_store read write touch now) rows)
          ≡ (does_answer read && mem t (Dict.keys rows)))
unfolding clearing_store
clearing_store_lem read write touch now t ids rows = (
  mem-load_all read t (add write now ids rows)
      ∙ ap (λ b. does_answer read && b) (mem-add write now t ids rows),
  mem-load_all read t (touch_last_seen touch now ids rows)
      ∙ ap (λ ks. does_answer read && mem t ks) (keys-touch_last_seen touch now ids rows),
  mem-load_all read t rows,
)

-- Where SQLite answers, the store has the laws that the clearing of tool results asks for.
pub clearing_store-IsSticky : (now : ℕ) → IsSticky (clearing_store answers answers answers now)
clearing_store-IsSticky now = record {
  mem-add = λ t ids s.
      (clearing_store_lem answers answers answers now t ids s).0
      ∙ sym (ap (λ b. b || (not (is_empty t) && mem t ids)) (held now t s));
  mem-touch =
      λ t ids s. (clearing_store_lem answers answers answers now t ids s).1 ∙ sym (held now t s);
}
  where
    held :
        (now : ℕ) (t : Text) (s : Table)
        → mem t (sticky_ids (clearing_store answers answers answers now) s) ≡ mem t (Dict.keys s)
    held now t s = (clearing_store_lem answers answers answers now t [] s).2
