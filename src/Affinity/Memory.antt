-- ===== src/Affinity/Memory.antt =====
-- What the table remembers: a session that has just been remembered is found.
use ollama_herd.Common.{
  ℕ, zero, suc, ◌-◌, ◌≤◌, ◌<◌, ◌≡◌, refl, Bool, true, false, none, some, List, [], ◌∷◌, ◌++◌, arith,
  Text, text_eq, any, Option-cases, text_eq_sym, text_eq_refl, filter, length, length-append, take,
  mem, Bool-cases, inl, inr, is_empty,
}
use ollama_herd.Dict.{Dict}
use ollama_herd.Dict
use ollama_herd.Models.Request.{InferenceRequest}
use ollama_herd.Affinity.{
  Seen, SessionAffinityTracker, is_expired, pop_all, insert_seen, sort_seen, drop_expired, oldest,
  drop_oldest, evict, remember, preferred_node, is_assistant, session_tag, session_key_for,
}
use ollama_herd.Affinity.Eviction.{
  get-pop_all, mem-keys, mem-keys-sort_seen, mem-keys-take, length-sort_seen,
}

-- Every session was seen by `now`.
abbrev pub SeenBy : ℕ → Dict Seen → Type 0
SeenBy now d = Dict.Entries (λ k v. v.1 ≤ now) d

length-set_known :
    (k : Text) (v : Seen) (d : Dict Seen)
    → Dict.contains k d ≡ true
    → length (Dict.set k v d) ≡ length d
unfolding Dict.get Dict.set
length-set_known k v [] h = cc
length-set_known k v ((j, w) ∷ d) h = ground (arith, length-set_known k v d)

set_absent :
    (k : Text) (v : Seen) (d : Dict Seen)
    → Dict.contains k d ≡ false
    → Dict.set k v d ≡ d ++ (k, v) ∷ []
unfolding Dict.get Dict.set
set_absent k v [] h = refl
set_absent k v ((j, w) ∷ d) h = ground (arith, set_absent k v d)

filter-append_false :
    (p : Text × Seen → Bool) (d : Dict Seen) (x : Text × Seen)
    → p x ≡ false
    → filter p (d ++ x ∷ []) ≡ filter p d
filter-append_false p [] x h = ground arith
filter-append_false p (e ∷ d) x h = ground (arith, filter-append_false p d x h)

mem-keys-filter :
    (k : Text) (p : Text × Seen → Bool) (d : Dict Seen)
    → Dict.contains k d ≡ false
    → mem k (Dict.keys (filter p d)) ≡ false
unfolding Dict.get
mem-keys-filter k p [] h = refl
mem-keys-filter k p ((j, v) ∷ d) h = ground (arith, mem-keys-filter k p d, text_eq_sym k j)

module _ (x : Text × Seen) where
  pop-append :
      (k : Text) (d : Dict Seen)
      → text_eq x.0 k ≡ false
      → Dict.pop k (d ++ x ∷ []) ≡ Dict.pop k d ++ x ∷ []
  unfolding Dict.pop
  pop-append k [] h = ground arith
  pop-append k ((j, v) ∷ d) h = ground (arith, pop-append k d h)

  pop_all-append :
      (ks : List Text) (d : Dict Seen)
      → mem x.0 ks ≡ false
      → pop_all ks (d ++ x ∷ []) ≡ pop_all ks d ++ x ∷ []
  unfolding pop_all
  pop_all-append [] d h = refl
  pop_all-append (k ∷ ks) d h = ground (arith, pop-append k d, pop_all-append ks (Dict.pop k d))

  insert_seen-append :
      (e : Text × Seen) (fs : Dict Seen)
      → e.1.1 ≤ x.1.1
      → insert_seen e (fs ++ x ∷ []) ≡ insert_seen e fs ++ x ∷ []
  unfolding insert_seen
  insert_seen-append e [] h = ground arith
  insert_seen-append e (f ∷ fs) h = ground (arith, insert_seen-append e fs h)

  sort_seen-append :
      (d : Dict Seen) → SeenBy x.1.1 d → sort_seen (d ++ x ∷ []) ≡ sort_seen d ++ x ∷ []
  unfolding sort_seen insert_seen
  sort_seen-append [] h = refl
  sort_seen-append (e ∷ d) h = rw (sort_seen-append d h.1) (insert_seen-append e (sort_seen d) h.0)

take-append :
    (n : ℕ) (fs : Dict Seen) (x : Text × Seen) → n ≤ length fs → take n (fs ++ x ∷ []) ≡ take n fs
take-append zero fs x h = refl
take-append (suc n) [] x h = absurd (omega arith)
take-append (suc n) (f ∷ fs) x h = ground (arith, take-append n fs x)

get-append :
    (k : Text) (v : Seen) (d : Dict Seen)
    → Dict.contains k d ≡ false
    → Dict.get k (d ++ (k, v) ∷ []) ≡ some v
unfolding Dict.get
get-append k v [] h = ground (arith, text_eq_refl k)
get-append k v ((j, w) ∷ d) h = ground (arith, get-append k v d)

pop_all-SeenBy :
    (now : ℕ) (ks : List Text) (d : Dict Seen) → SeenBy now d → SeenBy now (pop_all ks d)
unfolding pop_all
pop_all-SeenBy now [] d h = h
pop_all-SeenBy now (k ∷ ks) d h =
    pop_all-SeenBy now ks (Dict.pop k d) (Dict.pop-Entries (λ j v. v.1 ≤ now) k d h)

module _ (k node : Text) (now : ℕ) where
  -- The newest session of all is not dropped for its age, where one may stay.
  get-drop_oldest :
      (max : ℕ) (d : Dict Seen)
      → 0 < max
      → Dict.contains k d ≡ false
      → SeenBy now d
      → Dict.get k (drop_oldest max (d ++ (k, (node, now)) ∷ [])) ≡ some (node, now)
  unfolding drop_oldest
  get-drop_oldest max d room absent by =
      let x : Text × Seen = (k, (node, now)) in
      let all = d ++ x ∷ [] in
      let n = length all - max in
      let few : n ≤ length (sort_seen d) =
        omega (arith, length-append d (x ∷ []), length-sort_seen d) in
      let kept : mem k (oldest max all) ≡ false =
        rw (sort_seen-append x d by, take-append n (sort_seen d) x few)
          (mem-keys-take k n (sort_seen d)
            (ground (arith, mem-keys-sort_seen k d, mem-keys k d))) in
      let here = get-append k (node, now) d absent in
      ground (arith, get-pop_all k (oldest max all) all, here, kept)

  get-evict :
      (t : SessionAffinityTracker) (d : Dict Seen)
      → 0 < t.max_sessions
      → Dict.contains k d ≡ false
      → SeenBy now d
      → t.seen ≡ d ++ (k, (node, now)) ∷ []
      → Dict.get k (evict now t).seen ≡ some (node, now)
  unfolding evict drop_expired
  get-evict t d room absent by e =
      let x : Text × Seen = (k, (node, now)) in
      let p = is_expired t.ttl_s now in
      let old = Dict.keys (filter p d) in
      let live : p x ≡ false = ground arith in
      let new : mem k old ≡ false = mem-keys-filter k p d absent in
      rw (e, filter-append_false p d x live, pop_all-append x old d new)
        (get-drop_oldest t.max_sessions (pop_all old d) room (ground (arith, get-pop_all k old d))
          (pop_all-SeenBy now old d by))

  get-remember :
      (t : SessionAffinityTracker)
      → is_empty k ≡ false
      → is_empty node ≡ false
      → 0 < t.max_sessions
      → length t.seen ≤ t.max_sessions
      → SeenBy now t.seen
      → Dict.get k (remember k node now t).seen ≡ some (node, now)
  unfolding remember
  get-remember t named placed room few by =
      let d = Dict.set k (node, now) t.seen in
      let t' : SessionAffinityTracker = record t { seen = d } in
      let self = Dict.get-set_self k (node, now) t.seen in
      elim (Bool-cases (Dict.contains k t.seen)) [
        | inl known ↦ ground (arith, length-set_known k (node, now) t.seen known, self)
        | inr absent ↦
            let kept =
              get-evict t' t.seen room absent by (set_absent k (node, now) t.seen absent) in
            ground (arith, self, kept)
      ]

-- A session that has just been remembered is found on its node at that time, also when the table
-- was full, provided it may hold a session at all and none was seen later.
pub preferred_node-remember :
    (k node : Text) (now : ℕ) (t : SessionAffinityTracker)
    → is_empty k ≡ false
    → is_empty node ≡ false
    → 0 < t.max_sessions
    → length t.seen ≤ t.max_sessions
    → SeenBy now t.seen
    → (preferred_node k now (remember k node now t)).1 ≡ some node
unfolding preferred_node
preferred_node-remember k node now t named placed room few by =
    ground (arith, get-remember k node now t named placed room few by)

-- A pin that is given is not older than the time to live, and giving it changes nothing.
pub preferred_node_fresh :
    (k node : Text) (now : ℕ) (t : SessionAffinityTracker)
    → (preferred_node k now t).1 ≡ some node
    → ((preferred_node k now t).0 ≡ t)
      × ((at : ℕ) × (Dict.get k t.seen ≡ some (node, at)) × (now - at ≤ t.ttl_s))
unfolding preferred_node
preferred_node_fresh k node now t e = elim (Option-cases (Dict.get k t.seen)) [
  | inl absent ↦ absurd (ground arith)
  | inr ((n, at), known) ↦ (ground arith, (at, ground arith, ground arith))
]

-- A request with no tag of a session and no earlier turn of an assistant pins no session.
pub remember-session_key_for :
    (r : InferenceRequest) (node : Text) (now : ℕ) (t : SessionAffinityTracker)
    → session_tag r.tags ≡ none
    → any is_assistant r.messages ≡ false
    → remember (session_key_for r) node now t ≡ t
unfolding remember session_key_for
remember-session_key_for r node now t plain first = ground arith
