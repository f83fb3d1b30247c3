-- ===== src/Registry/Monitor.antt =====
-- A round of the heartbeat monitor.
use ollama_herd.Common.{
  ℕ, ◌-◌, ◌≤◌, ◌≡◌, refl, Bool, true, false, not, ◌&&◌, some, [], ◌∷◌, Text, if◌then◌else◌, arith,
  ltb, map, filter,
}
use ollama_herd.Dict.{Dict}
use ollama_herd.Dict
use ollama_herd.Models.Node.{NodeState, NodeStatus, is_offline}
use ollama_herd.Models.Settings.{ServerSettings}
use ollama_herd.Registry.{NodeRegistry, check_node, sweep, monitor_heartbeats, get_node}

-- What the status of a node says of the time since its last heartbeat.
abbrev pub Allows : ServerSettings → ℕ → NodeStatus → Type 0
Allows s elapsed NodeStatus.online =
    (elapsed ≤ s.heartbeat_timeout) × (elapsed ≤ s.heartbeat_offline)
Allows s elapsed NodeStatus.degraded = elapsed ≤ s.heartbeat_offline
Allows s elapsed NodeStatus.offline = Unit

abbrev pub IsTimely : ServerSettings → ℕ → NodeState → Type 0
IsTimely s now n = Allows s (now - n.last_heartbeat) n.status

check_node-IsTimely :
    (s : ServerSettings) (now : ℕ) (n : NodeState) → IsTimely s now (check_node s now n).0
unfolding check_node
check_node-IsTimely s now n = ground arith

check_node_again :
    (s : ServerSettings) (now : ℕ) (n : NodeState)
    → check_node s now (check_node s now n).0 ≡ ((check_node s now n).0, false)
unfolding check_node
check_node_again s now n = ground arith

-- Whether a round at `now` takes a node that was usable out of service.
abbrev pub goes_offline : ServerSettings → ℕ → NodeState → Bool
goes_offline s now n = not (is_offline n.status) && ltb s.heartbeat_offline (now - n.last_heartbeat)

check_node-alert :
    (s : ServerSettings) (now : ℕ) (n : NodeState) → (check_node s now n).1 ≡ goes_offline s now n
unfolding check_node
check_node-alert s now n = ground arith

-- After a round, a node that is not offline was heard from within `heartbeat_offline`, and one that
-- is online within `heartbeat_timeout`.
pub sweep-IsTimely :
    (s : ServerSettings) (now : ℕ) (d : Dict NodeState)
    → Dict.Entries (λ k n. IsTimely s now n) (sweep s now d).0
unfolding sweep
sweep-IsTimely s now [] = tt
sweep-IsTimely s now ((k, n) ∷ d) = (check_node-IsTimely s now n, sweep-IsTimely s now d)

-- A second round at the same time changes nothing and alerts nobody.
pub sweep-sweep :
    (s : ServerSettings) (now : ℕ) (d : Dict NodeState)
    → sweep s now (sweep s now d).0 ≡ ((sweep s now d).0, [])
unfolding sweep
sweep-sweep s now [] = refl
sweep-sweep s now ((k, n) ∷ d) = ground (arith, check_node_again s now n, sweep-sweep s now d)

sweep-alerts :
    (s : ServerSettings) (now : ℕ) (d : Dict NodeState)
    → (sweep s now d).1 ≡ map (λ n. n.node_id) (filter (goes_offline s now) (Dict.values d))
unfolding sweep
sweep-alerts s now [] = refl
sweep-alerts s now ((k, n) ∷ d) = ground (arith, check_node-alert s now n, sweep-alerts s now d)

-- A round leaves a node that is offline exactly as it was, and puts no node back online.
pub check_node_down :
    (s : ServerSettings) (now : ℕ) (n : NodeState)
    → (is_offline n.status ≡ true → (check_node s now n).0 ≡ n)
      × ((check_node s now n).0.status ≡ NodeStatus.online → n.status ≡ NodeStatus.online)
unfolding check_node
check_node_down s now n = (ground arith, ground arith)

-- A round with a callback calls it for exactly the nodes that were in service and have not been
-- heard from for longer than `heartbeat_offline`, each once, in the order of the registry; without
-- a callback it calls nothing. A second round at the same time then changes nothing and calls
-- nothing.
monitor_heartbeats-alerts :
    (s : ServerSettings) (now : ℕ) (r : NodeRegistry)
    → ((monitor_heartbeats s now r).1 ≡ (
        if r.alerting
        then map (λ n. n.node_id) (filter (goes_offline s now) (Dict.values r.nodes))
        else []))
      × (monitor_heartbeats s now (monitor_heartbeats s now r).0
          ≡ ((monitor_heartbeats s now r).0, []))
unfolding monitor_heartbeats
monitor_heartbeats-alerts s now r =
    (ground (arith, sweep-alerts s now r.nodes), ground (arith, sweep-sweep s now r.nodes))

-- After a round, a node that the registry gives and that is not offline was heard from within
-- `heartbeat_offline`, and one that is online within `heartbeat_timeout`.
pub monitor_heartbeats-IsTimely :
    (s : ServerSettings) (now : ℕ) (r : NodeRegistry) (k : Text) (n : NodeState)
    → get_node k (monitor_heartbeats s now r).0 ≡ some n
    → IsTimely s now n
unfolding monitor_heartbeats get_node
monitor_heartbeats-IsTimely s now r k n e =
    Dict.get-Entries (λ j m. IsTimely s now m) k n (sweep s now r.nodes).0
      (sweep-IsTimely s now r.nodes) e
