-- ===== src/Queue/Moves.antt =====
-- What `move_pending` moves.
use ollama_herd.Common.{
  ℕ, zero, suc, ◌≡◌, ◌≢◌, refl, ap, false, Option, none, some, List, [], ◌∷◌, ◌++◌, Text, text_eq,
  text_eq_iff, map, arith, Bool-cases, Option-cases, List-cases, inl, inr, has_code, ltb, length,
  take, drop,
}
use ollama_herd.Dict.{Dict}
use ollama_herd.Dict
use ollama_herd.Models.Request.{QueueEntry}
use ollama_herd.Registry.{NodeRegistry}
use ollama_herd.Queue.State.{DeviceModelQueue, new_queue, put_item, ensure_workers}
use ollama_herd.Queue.Keys.{partition-queue_key}
use ollama_herd.Queue.Manager.{
  QueueManager, queue_key, put_queue, queue_or_new, refresh_workers, move_items, move_pending,
  with_target, move_one, reassign, finish_move, refresh_at,
}

-- The source after `count` moves, and the target.
abbrev pub drained : ℕ → DeviceModelQueue → DeviceModelQueue
drained count s = record s { pending = drop count s.pending }

abbrev pub receives : List QueueEntry → DeviceModelQueue → DeviceModelQueue
receives items t = record t { pending = t.pending ++ map (reassign t.node_id) items }

text_ne : (a b : Text) → a ≢ b → text_eq a b ≡ false
text_ne a b h = ground (arith, text_eq_iff a b)

-- A round that finds an item: the queues that are read afterwards.
record IsMoved (source target : Text) (s t : DeviceModelQueue) (m m' : QueueManager) : Type 0 where
  from : Dict.get source m'.queues ≡ some s
  to : Dict.get target m'.queues ≡ some t
  clients : m'.clients ≡ m.clients

append_assoc {ℓ} : {A : Type ℓ} (xs ys zs : List A) → (xs ++ ys) ++ zs ≡ xs ++ (ys ++ zs)
append_assoc [] ys zs = refl
append_assoc (x ∷ xs) ys zs = rw (append_assoc xs ys zs)

append_nil {ℓ} : {A : Type ℓ} (xs : List A) → xs ++ [] ≡ xs
append_nil [] = refl
append_nil (x ∷ xs) = rw (append_nil xs)

receives_nil : (t : DeviceModelQueue) → receives [] t ≡ t
receives_nil t = ap (λ (p : List QueueEntry). record t { pending = p }) (append_nil t.pending)

receives_cons :
    (entry : QueueEntry) (items : List QueueEntry) (t : DeviceModelQueue)
    → receives items (put_item (reassign t.node_id entry) t) ≡ receives (entry ∷ items) t
unfolding put_item
receives_cons entry items t =
    ap (λ (p : List QueueEntry). record t { pending = p })
      (append_assoc t.pending (reassign t.node_id entry ∷ []) (map (reassign t.node_id) items))

take-suc {ℓ} :
    {A : Type ℓ} (n : ℕ) (xs : List A) (y : A) (ys : List A)
    → xs ≡ y ∷ ys
    → take (suc n) xs ≡ y ∷ take n ys
take-suc n xs y ys e = rw e refl

drop-suc {ℓ} :
    {A : Type ℓ} (n : ℕ) (xs : List A) (y : A) (ys : List A)
    → xs ≡ y ∷ ys
    → drop (suc n) xs ≡ drop n ys
drop-suc n xs y ys e = rw e refl

take_empty {ℓ} : {A : Type ℓ} (n : ℕ) (xs : List A) → xs ≡ [] → take (suc n) xs ≡ []
take_empty n xs e = rw e refl

drained_empty : (n : ℕ) (s : DeviceModelQueue) → s.pending ≡ [] → drained (suc n) s ≡ s
drained_empty n s e = ap (λ (p : List QueueEntry). record s { pending = p }) (ground arith)

drained-suc :
    (n : ℕ) (s : DeviceModelQueue) (entry : QueueEntry) (rest : List QueueEntry)
    → s.pending ≡ entry ∷ rest
    → drained (suc n) s ≡ drained n (record s { pending = rest })
drained-suc n s entry rest e =
    ap (λ (p : List QueueEntry). record s { pending = p }) (drop-suc n s.pending entry rest e)

module _ (source target : Text) (distinct : source ≢ target) where
  move_one_empty :
      (s : DeviceModelQueue) (m : QueueManager)
      → Dict.get source m.queues ≡ some s
      → s.pending ≡ []
      → move_one source target m ≡ none
  unfolding move_one
  move_one_empty s m e empty = ground arith

  move_one_lem :
      (s t : DeviceModelQueue) (m : QueueManager) (entry : QueueEntry) (rest : List QueueEntry)
      → Dict.get source m.queues ≡ some s
      → Dict.get target m.queues ≡ some t
      → s.pending ≡ entry ∷ rest
      → move_one source target m
        ≡ some (
            put_queue target
              (put_item (reassign t.node_id entry) t)
              (put_queue source (record s { pending = rest }) m))
  unfolding move_one
  move_one_lem s t m entry rest e f p =
      let left : DeviceModelQueue = record s { pending = rest } in
      ground (arith, text_ne source target distinct, Dict.get-set source target left m.queues)

  -- The first `count` requests of the source, or all of them, go to the end of the target.
  move_items_lem :
      (count : ℕ) (s t : DeviceModelQueue) (m : QueueManager)
      → Dict.get source m.queues ≡ some s
      → Dict.get target m.queues ≡ some t
      → ((move_items count source target m).1 ≡ length (take count s.pending))
        × IsMoved source target
            (drained count s)
            (receives (take count s.pending) t)
            m
            (move_items count source target m).0
  unfolding move_items
  move_items_lem zero s t m e f =
      (refl, record { from = e; to = rw (receives_nil t) f; clients = refl })
  move_items_lem (suc count) s t m e f = elim (List-cases s.pending) [
    | inl empty ↦
        rw
          (
            move_one_empty s m e empty,
            move_items,
            take_empty count s.pending empty,
            drained_empty count s empty,
          )
          (refl, record { from = e; to = rw (receives_nil t) f; clients = refl })
    | inr (entry, rest, p) ↦
        let s₁ : DeviceModelQueue = record s { pending = rest } in
        let t₁ = put_item (reassign t.node_id entry) t in
        let m₀ = put_queue source s₁ m in
        let m₁ = put_queue target t₁ m₀ in
        let from : Dict.get source m₁.queues ≡ some s₁ = ground (
          arith,
          text_ne source target distinct,
          text_eq_iff source target,
          text_eq_iff target source,
          Dict.get-set target source t₁ m₀.queues,
          Dict.get-set_self source s₁ m.queues,
        ) in
        let ih = move_items_lem count s₁ t₁ m₁ from (Dict.get-set_self target t₁ m₀.queues) in
        rw
          (
            move_one_lem s t m entry rest e f p,
            move_items,
            take-suc count s.pending entry rest p,
            drained-suc count s entry rest p,
            ← receives_cons entry (take count rest) t,
          )
          (omega (arith, ih.0), record { from = ih.1.from; to = ih.1.to; clients = ih.1.clients })
  ]

  -- The workers of the target are brought up to its concurrency: no request moves.
  finish_move_lem :
      (registry : Option NodeRegistry) (s t : DeviceModelQueue) (m m' : QueueManager) (moved : ℕ)
      → IsMoved source target s t m m'
      → let done = finish_move registry target (m', moved) in
        (Dict.get source done.0.queues ≡ some s)
        × ((q : DeviceModelQueue) × (Dict.get target done.0.queues ≡ some q)
            × (q.pending ≡ t.pending)
            × (q.in_flight ≡ t.in_flight))
        × (done.0.clients ≡ m.clients)
  unfolding ensure_workers
  finish_move_lem registry s t m m' moved h = elim (Bool-cases (ltb 0 moved)) [
    | inl some_moved ↦
        let q = refresh_workers registry t in
        rw (some_moved, finish_move, refresh_at, h.to)
          (
            ground (
              arith,
              h.from,
              text_ne source target distinct,
              text_eq_iff source target,
              text_eq_iff target source,
              Dict.get-set target source q m'.queues,
            ),
            (q, Dict.get-set_self target q m'.queues, refl, refl),
            h.clients,
          )
    | inr none_moved ↦ rw (none_moved, finish_move) (h.from, (t, h.to, refl, refl), h.clients)
  ]

module _ (source node model : Text) (named : has_code b':' node ≡ false)
    (distinct : source ≢ queue_key node model) where
  -- The target of a move is there, new or not, and the source is as it was.
  with_target_lem :
      (s : DeviceModelQueue) (m : QueueManager)
      → Dict.get source m.queues ≡ some s
      → (ready : QueueManager) × (with_target (queue_key node model) m ≡ some ready)
        × IsMoved source
            (queue_key node model)
            s
            (queue_or_new node model (Dict.get (queue_key node model) m.queues))
            m
            ready
  with_target_lem s m e = elim (Option-cases (Dict.get (queue_key node model) m.queues)) [
    | inl absent ↦
        let new = new_queue node model in
        (
          put_queue (queue_key node model) new m,
          rw
              (
                absent,
                with_target,
                partition-queue_key node model named,
                ap (λ (x : Text × Option Text). x.0) (partition-queue_key node model named),
              )
              refl,
          record {
            from = ground (
              arith,
              text_ne source (queue_key node model) distinct,
              text_eq_iff source (queue_key node model),
              text_eq_iff (queue_key node model) source,
              Dict.get-set (queue_key node model) source new m.queues,
            );
            to = rw (absent) (Dict.get-set_self (queue_key node model) new m.queues);
            clients = refl;
          },
        )
    | inr (t, there) ↦
        (m, rw (there, with_target) refl, record { from = e; to = rw there refl; clients = refl })
  ]

  -- Up to `count` requests move from one queue to another, in their order: the number returned is
  -- the number of requests moved, they stand at the end of the target with the target's node as
  -- theirs, and the rest of the source is as it was. The target is made from its key when there is
  -- no such queue. The clients' slots are not touched.
  pub move_pending_lem :
      (registry : Option NodeRegistry) (count : ℕ) (m : QueueManager) (s : DeviceModelQueue)
      → Dict.get source m.queues ≡ some s
      → let target = queue_key node model in
        let t = queue_or_new node model (Dict.get target m.queues) in
        let done = move_pending registry source target count m in
        let items = take count s.pending in
        (done.1 ≡ length items)
        × (Dict.get source done.0.queues ≡ some (record s { pending = drop count s.pending }))
        × ((q : DeviceModelQueue) × (Dict.get target done.0.queues ≡ some q)
            × (q.pending ≡ t.pending ++ map (reassign t.node_id) items)
            × (q.in_flight ≡ t.in_flight))
        × (done.0.clients ≡ m.clients)
  unfolding move_pending
  move_pending_lem registry count m s e =
      let target = queue_key node model in
      let (ready, w, before) = with_target_lem s m e in
      let t = queue_or_new node model (Dict.get target m.queues) in
      let moves = move_items_lem source target distinct count s t ready before.from before.to in
      let after = move_items count source target ready in
      let done =
        finish_move_lem source target distinct registry (drained count s)
          (receives (take count s.pending) t) ready after.0 after.1 moves.1 in
      rw (e, w, move_pending) (moves.0, done.0, done.1, ground (arith, done, before.clients))
