-- ===== src/Affinity/Order.antt =====
-- Which sessions go when the table is full (src/fleet_manager/server/session_affinity.py).
use ollama_herd.Common.{
  ℕ, zero, suc, ◌-◌, ◌≤◌, ◌<◌, ◌≡◌, ◌⊎◌, refl, sym, ◌∙◌, ap, subst, true, false, Option, none, some,
  List, [], ◌∷◌, Text, text_eq, text_eq_iff, text_eq_sym, if◌then◌else◌, filter, length, take, mem,
  ltb, is_empty, arith, Bool-cases, inl, inr,
}
use ollama_herd.Dict.{Dict}
use ollama_herd.Dict
use ollama_herd.Dict.Unique.{Unique, set-Unique}
use ollama_herd.Affinity.{
  Seen, SessionAffinityTracker, is_expired, pop_all, insert_seen, sort_seen, drop_expired, oldest,
  drop_oldest, evict, remember,
}
use ollama_herd.Affinity.Eviction.{get-pop_all, pop_all-Unique, mem-keys, mem-keys-sort_seen}

-- The entry, unless it is expired.
unless_expired : ℕ → ℕ → Option Seen → Option Seen
unless_expired ttl now none = none
unless_expired ttl now (some s) = if ltb ttl (now - s.1) then none else some s

absent_expired :
    (ttl now : ℕ) (d : Dict Seen) (k : Text)
    → Dict.contains k d ≡ false
    → mem k (Dict.keys (filter (is_expired ttl now) d)) ≡ false
unfolding Dict.get
absent_expired ttl now [] k h = refl
absent_expired ttl now ((j, v) ∷ d) k h =
    ground (arith, absent_expired ttl now d k, text_eq_sym k j)

get-expired :
    (ttl now : ℕ) (d : Dict Seen) (k : Text)
    → Unique d
    → (if mem k (Dict.keys (filter (is_expired ttl now) d)) then none else Dict.get k d)
      ≡ unless_expired ttl now (Dict.get k d)
unfolding Dict.get unless_expired
get-expired ttl now [] k u = refl
get-expired ttl now ((j, v) ∷ d) k u = ground (
  arith,
  get-expired ttl now d k u.1,
  absent_expired ttl now d j u.0,
  text_eq_iff j k,
  text_eq_iff k j,
)

get-drop_expired :
    (ttl now : ℕ) (d : Dict Seen) (k : Text)
    → Unique d
    → Dict.get k (drop_expired ttl now d) ≡ unless_expired ttl now (Dict.get k d)
unfolding drop_expired
get-drop_expired ttl now d k u =
    get-pop_all k (Dict.keys (filter (is_expired ttl now) d)) d ∙ get-expired ttl now d k u

-- All were seen at `at` or later.
AtLeast : ℕ → Dict Seen → Type 0
AtLeast at fs = Dict.Entries (λ k v. at ≤ v.1) fs

IsSorted : Dict Seen → Type 0
unfolding AtLeast
IsSorted [] = Unit
IsSorted (f ∷ fs) = AtLeast f.1.1 fs × IsSorted fs

AtLeast-insert_seen :
    (at : ℕ) (e : Text × Seen) (fs : Dict Seen)
    → at ≤ e.1.1
    → AtLeast at fs
    → AtLeast at (insert_seen e fs)
unfolding AtLeast insert_seen
AtLeast-insert_seen at e [] h all = (h, tt)
AtLeast-insert_seen at e (f ∷ fs) h all = elim (Bool-cases (ltb f.1.1 e.1.1)) [
  | inl later ↦ rw later (all.0, AtLeast-insert_seen at e fs h all.1)
  | inr here ↦ rw here (h, all)
]

AtLeast-le : (a b : ℕ) (fs : Dict Seen) → a ≤ b → AtLeast b fs → AtLeast a fs
unfolding AtLeast
AtLeast-le a b [] h all = tt
AtLeast-le a b (f ∷ fs) h all = (omega (arith, h, all.0), AtLeast-le a b fs h all.1)

insert_seen-IsSorted :
    (e : Text × Seen) (fs : Dict Seen) → IsSorted fs → IsSorted (insert_seen e fs)
unfolding IsSorted insert_seen AtLeast
insert_seen-IsSorted e [] h = (tt, tt)
insert_seen-IsSorted e (f ∷ fs) h = elim (Bool-cases (ltb f.1.1 e.1.1)) [
  | inl later ↦
      rw later (AtLeast-insert_seen f.1.1 e fs (ground arith) h.0, insert_seen-IsSorted e fs h.1)
  | inr here ↦
      let below : e.1.1 ≤ f.1.1 = ground arith in
      rw here ((below, AtLeast-le e.1.1 f.1.1 fs below h.0), h)
]

sort_seen-IsSorted : (d : Dict Seen) → IsSorted (sort_seen d)
unfolding sort_seen IsSorted
sort_seen-IsSorted [] = tt
sort_seen-IsSorted (e ∷ d) = insert_seen-IsSorted e (sort_seen d) (sort_seen-IsSorted d)

get-insert_seen :
    (k : Text) (e : Text × Seen) (fs : Dict Seen)
    → Dict.contains e.0 fs ≡ false
    → Dict.get k (insert_seen e fs) ≡ (if text_eq e.0 k then some e.1 else Dict.get k fs)
unfolding insert_seen Dict.get
get-insert_seen k e [] h = refl
get-insert_seen k e (f ∷ fs) h =
    ground
      (arith, get-insert_seen k e fs, text_eq_iff e.0 k, text_eq_iff f.0 k, text_eq_iff f.0 e.0)

get-sort_seen : (k : Text) (d : Dict Seen) → Unique d → Dict.get k (sort_seen d) ≡ Dict.get k d
unfolding sort_seen Dict.get
get-sort_seen k [] u = refl
get-sort_seen k (e ∷ d) u =
    let absent : Dict.contains e.0 (sort_seen d) ≡ false =
      sym (mem-keys e.0 (sort_seen d)) ∙ mem-keys-sort_seen e.0 d ∙ mem-keys e.0 d ∙ u.0 in
    get-insert_seen k e (sort_seen d) absent ∙ rw (get-sort_seen k d u.1) refl

-- Of a sorted table, what is taken from the front is no newer than what stays.
taken_older :
    (n : ℕ) (fs : Dict Seen) (k j : Text) (s u : Seen)
    → IsSorted fs
    → mem k (Dict.keys (take n fs)) ≡ true
    → mem j (Dict.keys (take n fs)) ≡ false
    → Dict.get k fs ≡ some s
    → Dict.get j fs ≡ some u
    → s.1 ≤ u.1
unfolding IsSorted AtLeast Dict.get
taken_older zero fs k j s u sorted taken left e f = cc
taken_older (suc n) [] k j s u sorted taken left e f = cc
taken_older (suc n) (x ∷ fs) k j s u sorted taken left e f = elim (Bool-cases (text_eq x.0 k)) [
  | inl here ↦
      let other : text_eq x.0 j ≡ false = ground (arith, text_eq_sym j x.0) in
      let later : Dict.get j fs ≡ some u = sym (rw other refl) ∙ f in
      let same : x.1 ≡ s = ground arith in
      subst (λ v. v.1 ≤ u.1) same (Dict.get-Entries (λ k v. x.1.1 ≤ v.1) j u fs sorted.0 later)
  | inr there ↦
      let still : mem k (Dict.keys (take n fs)) ≡ true = ground (arith, text_eq_sym k x.0) in
      let other : text_eq x.0 j ≡ false = ground (arith, text_eq_sym j x.0) in
      let others : mem j (Dict.keys (take n fs)) ≡ false = ground arith in
      taken_older n fs k j s u sorted.1 still others (sym (rw there refl) ∙ e)
        (sym (rw other refl) ∙ f)
]

absurd_some : {A : Type 0} {a : A} → none ≡ some a → ⊥
absurd_some e = cc

-- What was in a table and is popped was named.
mem-popped :
    (ks : List Text) (d : Dict Seen) (k : Text) (s : Seen)
    → Dict.get k d ≡ some s
    → Dict.get k (pop_all ks d) ≡ none
    → mem k ks ≡ true
mem-popped ks d k s there gone = elim (Bool-cases (mem k ks)) [
  | inl named ↦ named
  | inr kept ↦ elim (absurd_some {a = s} (sym gone ∙ get-pop_all k ks d ∙ rw kept there)) [ ]
]

-- What stays was not named, and was in the table.
stays-popped :
    (ks : List Text) (d : Dict Seen) (j : Text) (u : Seen)
    → Dict.get j (pop_all ks d) ≡ some u
    → (mem j ks ≡ false) × (Dict.get j d ≡ some u)
stays-popped ks d j u stays = elim (Bool-cases (mem j ks)) [
  | inl named ↦ elim (absurd_some (sym (rw named refl) ∙ sym (get-pop_all j ks d) ∙ stays)) [ ]
  | inr kept ↦ (kept, sym (rw kept refl) ∙ sym (get-pop_all j ks d) ∙ stays)
]

drop_oldest_older :
    (max : ℕ) (d : Dict Seen) (k j : Text) (s u : Seen)
    → Unique d
    → Dict.get k d ≡ some s
    → Dict.get k (drop_oldest max d) ≡ none
    → Dict.get j (drop_oldest max d) ≡ some u
    → (s.1 ≤ u.1) × (Dict.get j d ≡ some u)
unfolding drop_oldest
drop_oldest_older max d k j s u distinct there gone stays = elim (Bool-cases (ltb max (length d))) [
  | inr few ↦ elim (absurd_some (sym (sym (rw few refl) ∙ gone) ∙ there)) [ ]
  | inl many ↦
      let named = mem-popped (oldest max d) d k s there (sym (rw many refl) ∙ gone) in
      let left = stays-popped (oldest max d) d j u (sym (rw many refl) ∙ stays) in
      (
        taken_older (length d - max) (sort_seen d) k j s u (sort_seen-IsSorted d) named left.0
            (get-sort_seen k d distinct ∙ there) (get-sort_seen j d distinct ∙ left.1),
        left.1,
      )
]

unless_expired-some :
    (ttl now : ℕ) (o : Option Seen) (u : Seen) → unless_expired ttl now o ≡ some u → now - u.1 ≤ ttl
unfolding unless_expired
unless_expired-some ttl now none u e = elim (absurd_some e) [ ]
unless_expired-some ttl now (some v) u e = elim (Bool-cases (ltb ttl (now - v.1))) [
  | inl old ↦ elim (absurd_some (sym (rw old refl) ∙ e)) [ ]
  | inr live ↦ let same : v ≡ u = ground arith in subst (λ w. now - w.1 ≤ ttl) same (ground arith)
]

evict_older :
    (ttl max now : ℕ) (d : Dict Seen) (k j : Text) (s u : Seen)
    → Unique d
    → Dict.get k d ≡ some s
    → Dict.get k (drop_oldest max (drop_expired ttl now d)) ≡ none
    → Dict.get j (drop_oldest max (drop_expired ttl now d)) ≡ some u
    → (ttl < now - s.1) ⊎ (s.1 ≤ u.1)
unfolding drop_expired unless_expired
evict_older ttl max now d k j s u distinct there gone stays =
    elim (Bool-cases (ltb ttl (now - s.1))) [
      | inl old ↦ inl (ground arith)
      | inr live ↦
          let left : Dict.get k (drop_expired ttl now d) ≡ some s =
            get-drop_expired ttl now d k distinct
            ∙ ap (unless_expired ttl now) there
            ∙ rw live refl in
          inr
            (drop_oldest_older max (drop_expired ttl now d) k j s u
              (pop_all-Unique (Dict.keys (filter (is_expired ttl now) d)) d distinct) left gone
              stays).0
    ]

evict_live :
    (ttl max now : ℕ) (d : Dict Seen) (j : Text) (u : Seen)
    → Unique d
    → Dict.get j (drop_oldest max (drop_expired ttl now d)) ≡ some u
    → now - u.1 ≤ ttl
unfolding drop_oldest
evict_live ttl max now d j u distinct stays =
    let kept = drop_expired ttl now d in
    unless_expired-some ttl now (Dict.get j d) u (
      sym (get-drop_expired ttl now d j distinct) ∙ elim (Bool-cases (ltb max (length kept))) [
        | inr few ↦ sym (rw few refl) ∙ stays
        | inl many ↦ (stays-popped (oldest max kept) kept j u (sym (rw many refl) ∙ stays)).1
      ])

remember_full :
    (session_key node_id : Text) (now : ℕ) (t : SessionAffinityTracker)
    → is_empty session_key ≡ false
    → is_empty node_id ≡ false
    → t.max_sessions < length (Dict.set session_key (node_id, now) t.seen)
    → (remember session_key node_id now t).seen
      ≡ drop_oldest t.max_sessions
          (drop_expired t.ttl_s now (Dict.set session_key (node_id, now) t.seen))
unfolding remember evict
remember_full session_key node_id now t named placed full = ground arith

-- A session that is remembered in a full table makes room: what stays is not expired, and what goes
-- is expired, or was seen no later than anything that stays.
pub remember_evicts :
    (session_key node_id : Text) (now : ℕ) (t : SessionAffinityTracker) (k j : Text) (s u : Seen)
    → Unique t.seen
    → is_empty session_key ≡ false
    → is_empty node_id ≡ false
    → t.max_sessions < length (Dict.set session_key (node_id, now) t.seen)
    → Dict.get k (Dict.set session_key (node_id, now) t.seen) ≡ some s
    → Dict.get k (remember session_key node_id now t).seen ≡ none
    → Dict.get j (remember session_key node_id now t).seen ≡ some u
    → (now - u.1 ≤ t.ttl_s) × ((t.ttl_s < now - s.1) ⊎ (s.1 ≤ u.1))
remember_evicts session_key node_id now t k j s u distinct named placed full there gone stays =
    let d = Dict.set session_key (node_id, now) t.seen in
    let unique = set-Unique session_key (node_id, now) t.seen distinct in
    let over = remember_full session_key node_id now t named placed full in
    (
      evict_live t.ttl_s t.max_sessions now d j u unique (sym (ap (Dict.get j) over) ∙ stays),
      evict_older t.ttl_s t.max_sessions now d k j s u unique there
          (sym (ap (Dict.get k) over) ∙ gone) (sym (ap (Dict.get j) over) ∙ stays),
    )
