-- ===== src/Clearing/Retention.antt =====
-- How long the table keeps an id (src/fleet_manager/server/clearing_store.py).
use ollama_herd.Common.{
  ℕ, ◌+◌, ◌*◌, ◌≤◌, ◌≡◌, refl, ◌∙◌, true, false, not, some, List, [], ◌∷◌, Text, text_eq,
  text_eq_iff, mem, is_empty, if◌then◌else◌, filter, arith,
}
use ollama_herd.Dict
use ollama_herd.Clearing.Store.{
  Row, Table, answers, nonempty_ids, load_all, upsert, upsert_all, add, update_seen, update_all,
  touch_last_seen, is_stale, prune_older_than,
}

get-upsert :
    (t u : Text) (now : ℕ) (r : Row) (rows : Table)
    → Dict.get t rows ≡ some r
    → Dict.get t (upsert now u rows)
      ≡ some (if text_eq t u then record r { last_seen = now } else r)
unfolding Dict.get upsert
get-upsert t u now r [] h = cc
get-upsert t u now r ((j, w) ∷ rows) h =
    ground (arith, get-upsert t u now r rows, text_eq_iff j t, text_eq_iff j u, text_eq_iff t u)

-- A row that is there keeps its place and its `cleared_at`.
abbrev KeepsFirst : Text → Table → Row → Type 0
KeepsFirst t rows r =
    (later : Row) × (Dict.get t rows ≡ some later) × (later.cleared_at ≡ r.cleared_at)

upsert_all-KeepsFirst :
    (t : Text) (now : ℕ) (us : List Text) (rows : Table) (r : Row)
    → Dict.get t rows ≡ some r
    → KeepsFirst t (upsert_all now us rows) r
unfolding upsert_all
upsert_all-KeepsFirst t now [] rows r h = (r, h, refl)
upsert_all-KeepsFirst t now (u ∷ us) rows r h =
    let w : Row = if text_eq t u then record r { last_seen = now } else r in
    let rest = upsert_all-KeepsFirst t now us (upsert now u rows) w (get-upsert t u now r rows h) in
    (rest.0, rest.1, ground arith)

-- Adding ids, the same or others, leaves the time at which an id was first cleared.
pub cleared_at-add :
    (t : Text) (now : ℕ) (ids : List Text) (rows : Table) (r : Row)
    → Dict.get t rows ≡ some r
    → (later : Row) × (Dict.get t (add answers now ids rows) ≡ some later)
      × (later.cleared_at ≡ r.cleared_at)
unfolding add
cleared_at-add t now ids rows r h = upsert_all-KeepsFirst t now (nonempty_ids ids) rows r h

get-update_seen :
    (t u : Text) (now : ℕ) (rows : Table) (r : Row)
    → Dict.get t rows ≡ some r
    → Dict.get t (update_seen now u rows)
      ≡ some (if text_eq t u then record r { last_seen = now } else r)
unfolding Dict.get update_seen
get-update_seen t u now [] r h = cc
get-update_seen t u now ((j, w) ∷ rows) r h =
    ground
      (arith, get-update_seen t u now rows r, text_eq_iff j t, text_eq_iff j u, text_eq_iff t u)

get-update_all :
    (t : Text) (now : ℕ) (us : List Text) (rows : Table) (r : Row)
    → Dict.get t rows ≡ some r
    → Dict.get t (update_all now us rows)
      ≡ some (if mem t us then record r { last_seen = now } else r)
unfolding update_all
get-update_all t now [] rows r h = h
get-update_all t now (u ∷ us) rows r h =
    let w : Row = if text_eq t u then record r { last_seen = now } else r in
    get-update_all t now us (update_seen now u rows) w (get-update_seen t u now rows r h)
    ∙ ground arith

mem-nonempty_ids_here :
    (t : Text) (ids : List Text)
    → is_empty t ≡ false
    → mem t ids ≡ true
    → mem t (nonempty_ids ids) ≡ true
mem-nonempty_ids_here t [] h m = cc
mem-nonempty_ids_here t (u ∷ ids) h m = ground (arith, mem-nonempty_ids_here t ids, text_eq_iff t u)

-- Pruning keeps the first row of an id that is not stale.
mem-prune :
    (t : Text) (now days : ℕ) (rows : Table) (r : Row)
    → Dict.get t rows ≡ some r
    → is_stale now days r ≡ false
    → mem t (Dict.keys (filter (λ e. not (is_stale now days e.1)) rows)) ≡ true
unfolding Dict.get
mem-prune t now days [] r h fine = cc
mem-prune t now days ((j, w) ∷ rows) r h fine =
    ground (arith, mem-prune t now days rows r, text_eq_iff j t, text_eq_iff t j)

-- An id in the table that was seen at the time `seen` is still a cleared id after a pruning at a
-- time no more than the days of the pruning later.
pub prune_older_than-touch_last_seen :
    (t : Text) (seen now days : ℕ) (ids : List Text) (rows : Table) (r : Row)
    → Dict.get t rows ≡ some r
    → is_empty t ≡ false
    → mem t ids ≡ true
    → now ≤ seen + days * 86400
    → mem t (
        load_all answers
          (prune_older_than answers now days (touch_last_seen answers seen ids rows)).0)
      ≡ true
unfolding load_all prune_older_than touch_last_seen
prune_older_than-touch_last_seen t seen now days ids rows r h full here soon =
    let touched = get-update_all t seen (nonempty_ids ids) rows r h in
    let hit = mem-nonempty_ids_here t ids full here in
    mem-prune t now days (update_all seen (nonempty_ids ids) rows) (record r { last_seen = seen })
      (touched ∙ rw hit refl) (ground arith)
