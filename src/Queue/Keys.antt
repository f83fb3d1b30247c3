-- ===== src/Queue/Keys.antt =====
-- Queue keys, `node:model`.
use ollama_herd.Common.{
  ◌≡◌, refl, sym, ap, ◌∙◌, false, Option, some, [], ◌∷◌, Text, arith, has_code,
}
use ollama_herd.Url.Parse.{partition}
use ollama_herd.Queue.Manager.{queue_key}

-- A key splits at its first colon into a node without colons and the model.
pub partition-queue_key :
    (node model : Text)
    → has_code b':' node ≡ false
    → partition b':' (queue_key node model) ≡ (node, some model)
unfolding partition
partition-queue_key [] model h = refl
partition-queue_key (c ∷ node) model h = ground (arith, partition-queue_key node model)

-- Two queues of nodes whose ids hold no colon have one key only if node and model are the same.
pub queue_key-injective :
    (n m a b : Text)
    → has_code b':' n ≡ false
    → has_code b':' m ≡ false
    → queue_key n a ≡ queue_key m b
    → (n ≡ m) × (a ≡ b)
queue_key-injective n m a b h k e =
    let same : ◌≡◌ {A = Text × Option Text} (n, some a) (m, some b) =
      sym (partition-queue_key n a h) ∙ ap (partition b':') e ∙ partition-queue_key m b k in
    let rest = ap (λ (t : Text × Option Text). t.1) same in
    (ap (λ (t : Text × Option Text). t.0) same, cc rest)

-- A split that succeeds gives the parts that the key is made of.
pub queue_key-partition :
    (key model : Text)
    → (partition b':' key).1 ≡ some model
    → queue_key (partition b':' key).0 model ≡ key
unfolding partition
queue_key-partition [] model e = cc
queue_key-partition (c ∷ key) model e = ground (arith, queue_key-partition key model)
