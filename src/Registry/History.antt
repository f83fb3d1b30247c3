-- ===== src/Registry/History.antt =====
-- Histories of the registry: heartbeats, drains and monitor rounds in any order, and what holds
-- after each of them.
use ollama_herd.Common.{
  ℕ, ◌≤◌, ◌≡◌, refl, Bool, Option, none, some, [], ◌∷◌, Text, arith, Option-cases, inl, inr,
}
use ollama_herd.Dict.{Dict}
use ollama_herd.Dict
use ollama_herd.Models.Node.{NodeState, NodeStatus, HeartbeatPayload, new_node}
use ollama_herd.Models.Settings.{ServerSettings}
use ollama_herd.Registry.{
  NodeRegistry, update_from_heartbeat, apply_heartbeat, refresh, receive, hardware_of,
  build_ollama_url, handle_drain, check_node, sweep, monitor_heartbeats, get_node,
}

pub data Step (s : ServerSettings) : NodeRegistry → NodeRegistry → Type 0 where
  heartbeat :
      (p : HeartbeatPayload) (request_ip : Text) (now : ℕ) (r : NodeRegistry)
      → Step s r (update_from_heartbeat p request_ip now r).0
  drain : (node_id : Text) (r : NodeRegistry) → Step s r (handle_drain node_id r)
  round : (now : ℕ) (r : NodeRegistry) → Step s r (monitor_heartbeats s now r).0

pub data Reach (s : ServerSettings) (r : NodeRegistry) : NodeRegistry → Type 0 where
  here : Reach s r r
  next : {t u : NodeRegistry} → Reach s r t → Step s t u → Reach s r u

-- An entry is filed under the node's own id, and its count of missed heartbeats says how often the
-- monitor has moved the node down since it was last heard from.
abbrev pub most_missed : NodeStatus → ℕ
most_missed NodeStatus.online = 0
most_missed NodeStatus.degraded = 1
most_missed NodeStatus.offline = 2

pub record IsFiled (k : Text) (n : NodeState) : Type 0 where
  pub own_id : n.node_id ≡ k
  pub few_missed : n.missed_heartbeats ≤ most_missed n.status

apply-IsFiled :
    (p : HeartbeatPayload) (now : ℕ) (k : Text) (n : NodeState)
    → n.node_id ≡ k
    → IsFiled k (apply_heartbeat p now n)
unfolding apply_heartbeat
apply-IsFiled p now k n e = record { own_id = e; few_missed = omega arith }

refresh-IsFiled :
    (p : HeartbeatPayload) (now : ℕ) (url k : Text) (n : NodeState)
    → n.node_id ≡ k
    → IsFiled k (refresh p now url n)
unfolding apply_heartbeat
refresh-IsFiled p now url k n e = record { own_id = e; few_missed = omega arith }

check-IsFiled :
    (s : ServerSettings) (now : ℕ) (k : Text) (n : NodeState)
    → IsFiled k n
    → IsFiled k (check_node s now n).0
unfolding check_node
check-IsFiled s now k n v = record {
  own_id = ground arith;
  few_missed = ground (arith, v.few_missed);
}

abbrev pub Filed : NodeRegistry → Type 0
Filed r = Dict.Entries IsFiled r.nodes

receive-Filed :
    (p : HeartbeatPayload) (now : ℕ) (url : Option Text) (o : Option NodeState) (r : NodeRegistry)
    → Dict.get p.node_id r.nodes ≡ o
    → Filed r
    → Filed (receive p now url o r).0
receive-Filed p now none none r e v = v
receive-Filed p now (some url) none r e v =
    Dict.set-Entries IsFiled p.node_id _ r.nodes
      (refresh-IsFiled p now url p.node_id (new_node p.node_id (hardware_of p) url) refl) v
receive-Filed p now none (some n) r e v =
    let old = Dict.get-Entries IsFiled p.node_id n r.nodes v e in
    Dict.set-Entries IsFiled p.node_id _ r.nodes (apply-IsFiled p now p.node_id n old.own_id) v
receive-Filed p now (some url) (some n) r e v =
    let old = Dict.get-Entries IsFiled p.node_id n r.nodes v e in
    Dict.set-Entries IsFiled p.node_id _ r.nodes (refresh-IsFiled p now url p.node_id n old.own_id)
      v

most_missed-le : {m : ℕ} (status : NodeStatus) → m ≤ most_missed status → m ≤ 2
most_missed-le NodeStatus.online h = omega arith
most_missed-le NodeStatus.degraded h = omega arith
most_missed-le NodeStatus.offline h = h

drain-Filed : (k : Text) (r : NodeRegistry) → Filed r → Filed (handle_drain k r)
unfolding handle_drain
drain-Filed k r v = elim (Option-cases (Dict.get k r.nodes)) [
  | inl e ↦ rw (e, handle_drain) v
  | inr (n, e) ↦
      let old = Dict.get-Entries IsFiled k n r.nodes v e in
      rw (e, handle_drain)
        (Dict.set-Entries IsFiled k (record n { status = NodeStatus.offline }) r.nodes
          (record { own_id = old.own_id; few_missed = most_missed-le n.status old.few_missed }) v)
]

sweep-Filed :
    (s : ServerSettings) (now : ℕ) (d : Dict NodeState)
    → Dict.Entries IsFiled d
    → Dict.Entries IsFiled (sweep s now d).0
unfolding sweep
sweep-Filed s now [] v = tt
sweep-Filed s now ((k, n) ∷ d) v = (check-IsFiled s now k n v.0, sweep-Filed s now d v.1)

Step-Filed : {s : ServerSettings} {r t : NodeRegistry} → Step s r t → Filed r → Filed t
unfolding update_from_heartbeat monitor_heartbeats
Step-Filed (heartbeat p ip now r) v =
    receive-Filed p now (build_ollama_url p ip) (Dict.get p.node_id r.nodes) r refl v
Step-Filed (drain k r) v = drain-Filed k r v
Step-Filed {s} (round now r) v = sweep-Filed s now r.nodes v

Reach-Filed : {s : ServerSettings} {r t : NodeRegistry} → Reach s r t → Filed r → Filed t
Reach-Filed here v = v
Reach-Filed (next h st) v = Step-Filed st (Reach-Filed h v)

abbrev pub empty_registry : Bool → NodeRegistry
empty_registry alerting = record { nodes = []; alerting = alerting }

-- After any history of heartbeats, drains and monitor rounds from an empty registry, a node that
-- the registry gives for an id has that id; it has missed no heartbeat while it is online, at most
-- one while it is degraded, and never more than two.
pub Reach-IsFiled :
    (s : ServerSettings) (alerting : Bool) (r : NodeRegistry) (k : Text) (n : NodeState)
    → Reach s (empty_registry alerting) r
    → get_node k r ≡ some n
    → IsFiled k n
unfolding get_node
Reach-IsFiled s alerting r k n h e = Dict.get-Entries IsFiled k n r.nodes (Reach-Filed h tt) e
