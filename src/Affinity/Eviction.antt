-- ===== src/Affinity/Eviction.antt =====
-- The size of the session table.
use ollama_herd.Common.{
  ℕ, zero, suc, ◌+◌, ◌-◌, ◌≤◌, ◌≡◌, refl, true, false, ◌||◌, none, List, [], ◌∷◌, arith, Text,
  text_eq, text_eq_iff, text_eq_sym, if◌then◌else◌, filter, length, take, mem, length-take,
}
use ollama_herd.Dict.{Dict}
use ollama_herd.Dict
use ollama_herd.Dict.Unique.{Unique, set-Unique, pop-Unique}
use ollama_herd.Affinity.{
  Seen, SessionAffinityTracker, is_expired, pop_all, insert_seen, sort_seen, drop_expired, oldest,
  drop_oldest, evict, remember,
}

-- No key stands twice, and each is in the dictionary.
abbrev pub AreKeys : List Text → Dict Seen → Type 0
AreKeys [] d = Unit
AreKeys (k ∷ ks) d = (mem k ks ≡ false) × (Dict.contains k d ≡ true) × AreKeys ks d

pub get-pop_all :
    (j : Text) (ks : List Text) (d : Dict Seen)
    → Dict.get j (pop_all ks d) ≡ (if mem j ks then none else Dict.get j d)
unfolding pop_all
get-pop_all j [] d = refl
get-pop_all j (k ∷ ks) d =
    ground (arith, get-pop_all j ks (Dict.pop k d), Dict.get-pop k j d, text_eq_sym j k)

pub pop_all-Unique : (ks : List Text) (d : Dict Seen) → Unique d → Unique (pop_all ks d)
unfolding pop_all
pop_all-Unique [] d u = u
pop_all-Unique (k ∷ ks) d u = pop_all-Unique ks (Dict.pop k d) (pop-Unique k d u)

pub length-pop_all-le : (ks : List Text) (d : Dict Seen) → length (pop_all ks d) ≤ length d
unfolding pop_all
length-pop_all-le [] d = omega arith
length-pop_all-le (k ∷ ks) d =
    omega (arith, length-pop_all-le ks (Dict.pop k d), Dict.length-pop-le k d)

AreKeys-pop :
    (k : Text) (ks : List Text) (d : Dict Seen)
    → mem k ks ≡ false
    → AreKeys ks d
    → AreKeys ks (Dict.pop k d)
AreKeys-pop k [] d h a = tt
AreKeys-pop k (j ∷ ks) d h a = ground (arith, AreKeys-pop k ks d, Dict.get-pop k j d, a.0, a.1, a.2)

length-pop_all :
    (ks : List Text) (d : Dict Seen) → AreKeys ks d → length (pop_all ks d) + length ks ≤ length d
unfolding pop_all
length-pop_all [] d a = omega arith
length-pop_all (k ∷ ks) d a =
    let rest = length-pop_all ks (Dict.pop k d) (AreKeys-pop k ks d a.0 a.2) in
    omega (arith, rest, Dict.length-pop-lt k d a.1)

mem-keys-insert_seen :
    (k : Text) (e : Text × Seen) (fs : Dict Seen)
    → mem k (Dict.keys (insert_seen e fs)) ≡ (text_eq k e.0 || mem k (Dict.keys fs))
unfolding insert_seen
mem-keys-insert_seen k e [] = refl
mem-keys-insert_seen k e (f ∷ fs) = ground (arith, mem-keys-insert_seen k e fs)

length-insert_seen : (e : Text × Seen) (fs : Dict Seen) → length (insert_seen e fs) ≡ length fs + 1
unfolding insert_seen
length-insert_seen e [] = refl
length-insert_seen e (f ∷ fs) = ground (arith, length-insert_seen e fs)

pub length-sort_seen : (d : Dict Seen) → length (sort_seen d) ≡ length d
unfolding sort_seen
length-sort_seen [] = refl
length-sort_seen (e ∷ es) = omega (arith, length-insert_seen e (sort_seen es), length-sort_seen es)

-- The keys of a dictionary in the order of another.
abbrev Within : Dict Seen → Dict Seen → Type 0
Within fs d = AreKeys (Dict.keys fs) d

insert_seen-Within :
    (e : Text × Seen) (fs d : Dict Seen)
    → mem e.0 (Dict.keys fs) ≡ false
    → Dict.contains e.0 d ≡ true
    → Within fs d
    → Within (insert_seen e fs) d
unfolding insert_seen
insert_seen-Within e [] d new there w = (refl, there, tt)
insert_seen-Within e (f ∷ fs) d new there w = ground (
  arith,
  insert_seen-Within e fs d,
  mem-keys-insert_seen f.0 e fs,
  text_eq_sym e.0 f.0,
  w.0,
  w.1,
  w.2,
)

pub mem-keys : (k : Text) (d : Dict Seen) → mem k (Dict.keys d) ≡ Dict.contains k d
unfolding Dict.get
mem-keys k [] = refl
mem-keys k ((j, v) ∷ d) = ground (arith, mem-keys k d, text_eq_sym k j)

pub mem-keys-sort_seen :
    (k : Text) (d : Dict Seen) → mem k (Dict.keys (sort_seen d)) ≡ mem k (Dict.keys d)
unfolding sort_seen
mem-keys-sort_seen k [] = refl
mem-keys-sort_seen k (e ∷ d) =
    ground (arith, mem-keys-sort_seen k d, mem-keys-insert_seen k e (sort_seen d))

sort_seen-Within :
    (es d : Dict Seen)
    → Unique es
    → ((k : Text) → Dict.contains k es ≡ true → Dict.contains k d ≡ true)
    → Within (sort_seen es) d
unfolding sort_seen Dict.get
sort_seen-Within [] d u h = tt
sort_seen-Within (e ∷ es) d u h =
    insert_seen-Within e (sort_seen es) d
      (ground (arith, mem-keys-sort_seen e.0 es, mem-keys e.0 es, u.0))
      (h e.0 (ground (arith, text_eq_iff e.0 e.0)))
      (sort_seen-Within es d u.1 λ k c. h k (ground (arith, c)))

pub mem-keys-take :
    (k : Text) (n : ℕ) (fs : Dict Seen)
    → mem k (Dict.keys fs) ≡ false
    → mem k (Dict.keys (take n fs)) ≡ false
mem-keys-take k zero fs h = refl
mem-keys-take k (suc n) [] h = refl
mem-keys-take k (suc n) (f ∷ fs) h = ground (arith, mem-keys-take k n fs)

take-AreKeys : (n : ℕ) (fs d : Dict Seen) → Within fs d → Within (take n fs) d
take-AreKeys zero fs d w = tt
take-AreKeys (suc n) [] d w = tt
take-AreKeys (suc n) (f ∷ fs) d w = (mem-keys-take f.0 n fs w.0, w.1, take-AreKeys n fs d w.2)

length-keys : (d : Dict Seen) → length (Dict.keys d) ≡ length d
length-keys [] = refl
length-keys (e ∷ d) = omega (arith, length-keys d)

length-drop_oldest-le : (max : ℕ) (d : Dict Seen) → Unique d → length (drop_oldest max d) ≤ max
unfolding drop_oldest
length-drop_oldest-le max d u =
    let n = length d - max in
    let keys = take-AreKeys n (sort_seen d) d (sort_seen-Within d d u (λ k h. h)) in
    let size = length-pop_all (oldest max d) d keys in
    let taken = length-keys (take n (sort_seen d)) in
    ground (arith, size, taken, length-take n (sort_seen d), length-sort_seen d)

drop_oldest-Unique : (max : ℕ) (d : Dict Seen) → Unique d → Unique (drop_oldest max d)
unfolding drop_oldest
drop_oldest-Unique max d u = ground (arith, pop_all-Unique (oldest max d) d u, u)

-- The table never grows beyond its limit when a session is remembered, and its keys stay distinct.
pub length-remember-le :
    (session_key node_id : Text) (now : ℕ) (t : SessionAffinityTracker)
    → Unique t.seen
    → length t.seen ≤ t.max_sessions
    → (length (remember session_key node_id now t).seen ≤ t.max_sessions)
      × Unique (remember session_key node_id now t).seen
unfolding remember evict drop_expired
length-remember-le session_key node_id now t u few =
    let d = Dict.set session_key (node_id, now) t.seen in
    let v = set-Unique session_key (node_id, now) t.seen u in
    let kept = drop_expired t.ttl_s now d in
    let w = pop_all-Unique (Dict.keys (filter (is_expired t.ttl_s now) d)) d v in
    (
      ground (arith, length-drop_oldest-le t.max_sessions kept w),
      ground (arith, v, w, drop_oldest-Unique t.max_sessions kept w),
    )
