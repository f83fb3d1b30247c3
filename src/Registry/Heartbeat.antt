-- ===== src/Registry/Heartbeat.antt =====
-- What a heartbeat does to the registry: the node it names, the others, and the error path.
use ollama_herd.Common.{
  ℕ, ◌≡◌, refl, ◌≢◌, not, ◌&&◌, Option, none, some, List, [], ◌∷◌, Text, text_eq_iff, mem,
  if◌then◌else◌, arith,
}
use ollama_herd.Dict.{Dict}
use ollama_herd.Dict
use ollama_herd.Models.Metrics.{OllamaMetrics}
use ollama_herd.Models.Node.{NodeState, NodeStatus, HeartbeatPayload, loaded_names, new_node}
use ollama_herd.Registry.{
  NodeRegistry, build_ollama_url, update_from_heartbeat, apply_heartbeat, get_node, mark_unloaded,
  unloaded_at, carry_meta, refresh, receive, hardware_of,
}

-- What a node that has just been heard from looks like.
pub record IsFresh (p : HeartbeatPayload) (now : ℕ) (url : Text) (n : NodeState) : Type 0 where
  pub is_online : n.status ≡ NodeStatus.online
  pub none_missed : n.missed_heartbeats ≡ 0
  pub heard : n.last_heartbeat ≡ now
  pub reachable : n.ollama_base_url ≡ url
  pub memory_seen : n.memory ≡ some p.memory
  pub capacity_seen : n.capacity ≡ p.capacity
  pub servers_seen : n.mlx_servers ≡ p.mlx_servers
  pub loaded_seen :
      (o : OllamaMetrics) × (n.ollama ≡ some o)
      × (o.models_loaded ≡ p.ollama.models_loaded)
      × (o.models_available ≡ p.ollama.models_available)

carry_meta-models :
    (o : Option OllamaMetrics) (c : OllamaMetrics)
    → ((carry_meta o c).models_loaded ≡ c.models_loaded)
      × ((carry_meta o c).models_available ≡ c.models_available)
carry_meta-models none c = (refl, refl)
carry_meta-models (some o) c = ground arith

apply-IsFresh :
    (p : HeartbeatPayload) (now : ℕ) (url : Text) (n : NodeState)
    → IsFresh p now url (refresh p now url n)
unfolding apply_heartbeat
apply-IsFresh p now url n =
    let same = carry_meta-models n.ollama p.ollama in
    record {
      is_online = refl;
      none_missed = refl;
      heard = refl;
      reachable = refl;
      memory_seen = refl;
      capacity_seen = refl;
      servers_seen = refl;
      loaded_seen = (carry_meta n.ollama p.ollama, refl, same.0, same.1);
    }

receive-IsFresh :
    (p : HeartbeatPayload) (now : ℕ) (url : Text) (o : Option NodeState) (r : NodeRegistry)
    → let done = receive p now (some url) o r in
      (n : NodeState) × (done.1 ≡ some n)
      × (get_node p.node_id done.0 ≡ some n)
      × IsFresh p now url n
unfolding get_node
receive-IsFresh p now url none r = (
  _,
  refl,
  Dict.get-set_self p.node_id _ r.nodes,
  apply-IsFresh p now url (new_node p.node_id (hardware_of p) url),
)
receive-IsFresh p now url (some node) r =
    (_, refl, Dict.get-set_self p.node_id _ r.nodes, apply-IsFresh p now url node)

receive_other :
    (p : HeartbeatPayload) (now : ℕ) (url : Option Text) (o : Option NodeState) (r : NodeRegistry)
    (j : Text)
    → p.node_id ≢ j
    → get_node j (receive p now url o r).0 ≡ get_node j r
unfolding get_node
receive_other p now none none r j h = refl
receive_other p now (some url) none r j h =
    let fresh = refresh p now url (new_node p.node_id (hardware_of p) url) in
    ground (arith, Dict.get-set p.node_id j fresh r.nodes, text_eq_iff p.node_id j)
receive_other p now none (some node) r j h =
    ground (
      arith,
      Dict.get-set p.node_id j (apply_heartbeat p now node) r.nodes,
      text_eq_iff p.node_id j,
    )
receive_other p now (some url) (some node) r j h =
    ground
      (arith, Dict.get-set p.node_id j (refresh p now url node) r.nodes, text_eq_iff p.node_id j)

raised-IsFresh :
    (p : HeartbeatPayload) (now : ℕ) (n : NodeState)
    → IsFresh p now n.ollama_base_url (apply_heartbeat p now n)
unfolding apply_heartbeat
raised-IsFresh p now n = apply-IsFresh p now n.ollama_base_url n

module _ (p : HeartbeatPayload) (request_ip : Text) (now : ℕ) (r : NodeRegistry) where
  -- Where the node's URL can be built, a heartbeat returns a state, and the registry holds that
  -- state under the node's id, whether the node was known or not: it is online with no missed
  -- heartbeat, last heard now, reachable at that URL, and its memory, capacity, MLX servers and
  -- models are those of the heartbeat.
  pub get_node-update_from_heartbeat :
      (url : Text)
      → build_ollama_url p request_ip ≡ some url
      → (n : NodeState) × ((update_from_heartbeat p request_ip now r).1 ≡ some n)
        × (get_node p.node_id (update_from_heartbeat p request_ip now r).0 ≡ some n)
        × IsFresh p now url n
  unfolding update_from_heartbeat
  get_node-update_from_heartbeat url e =
      rw e (receive-IsFresh p now url (Dict.get p.node_id r.nodes) r)

  -- A heartbeat changes no other node, whether its URL can be built or not.
  pub get_node-update_from_heartbeat_ne :
      (j : Text)
      → p.node_id ≢ j
      → get_node j (update_from_heartbeat p request_ip now r).0 ≡ get_node j r
  unfolding update_from_heartbeat
  get_node-update_from_heartbeat_ne j h =
      receive_other p now (build_ollama_url p request_ip) (Dict.get p.node_id r.nodes) r j h

  -- Where reading the port raises, a heartbeat of an unknown node changes nothing and returns
  -- nothing.
  pub update_from_heartbeat_unknown :
      build_ollama_url p request_ip ≡ none
      → get_node p.node_id r ≡ none
      → update_from_heartbeat p request_ip now r ≡ (r, none)
  unfolding update_from_heartbeat get_node
  update_from_heartbeat_unknown e new = rw (e, new) refl

  -- Where reading the port raises, a heartbeat of a known node is applied all the same, with the URL
  -- left as it was, though nothing is returned.
  pub update_from_heartbeat_raises :
      (n : NodeState)
      → build_ollama_url p request_ip ≡ none
      → get_node p.node_id r ≡ some n
      → ((update_from_heartbeat p request_ip now r).1 ≡ none)
        × ((m : NodeState) × (get_node p.node_id (update_from_heartbeat p request_ip now r).0
              ≡ some m)
            × IsFresh p now n.ollama_base_url m)
  unfolding update_from_heartbeat get_node
  update_from_heartbeat_raises n e known =
      rw (e, known)
        (
          refl,
          (
            apply_heartbeat p now n,
            Dict.get-set_self p.node_id (apply_heartbeat p now n) r.nodes,
            raised-IsFresh p now n,
          ),
        )

get-mark_unloaded :
    (prev curr : List Text) (now : ℕ) (d : Dict ℕ) (m : Text)
    → Dict.get m (mark_unloaded prev curr now d)
      ≡ (if mem m prev && not (mem m curr) then some now else Dict.get m d)
unfolding mark_unloaded
get-mark_unloaded [] curr now d m = refl
get-mark_unloaded (x ∷ prev) curr now d m = ground (
  arith,
  get-mark_unloaded prev curr now d m,
  get-mark_unloaded prev curr now (Dict.set x now d) m,
  Dict.get-set x m now d,
  text_eq_iff m x,
  text_eq_iff x m,
)

-- After the update a model has the unload time `now` exactly if the node had it loaded before and
-- the heartbeat does not list it; every other model keeps the time it had.
pub get-unloaded_at :
    (prev curr : OllamaMetrics) (now : ℕ) (d : Dict ℕ) (m : Text)
    → Dict.get m (unloaded_at (some prev) curr now d) ≡ (
        if mem m (loaded_names prev) && not (mem m (loaded_names curr))
        then some now
        else Dict.get m d)
get-unloaded_at prev curr now d m =
    get-mark_unloaded (loaded_names prev) (loaded_names curr) now d m
