-- ===== src/Lib.antt =====
-- Ollama Herd routes the requests of many clients to the Ollama servers of many machines. Each
-- machine runs a node agent that sends heartbeats; the router keeps the nodes' states, chooses a
-- queue, `node:model`, for each request, and runs the requests of a queue by a limited number of
-- workers. This library models the state that the router keeps and the operations on it.
--
-- Files, and the code under src/fleet_manager/ that they model:
--   Models      models/node.py, models/request.py, models/config.py: records with the source's
--               fields, names of models, detection of images. Models/Json: the values of a body,
--               and json.dumps of them.
--   Url         Python's str(int) and urllib.parse.urlparse, as far as hostname and port go.
--   Registry    server/registry.py, class NodeRegistry: update_from_heartbeat, handle_drain, the
--               queries, one round of monitor_heartbeats, _build_ollama_url. Registry/Mlx:
--               resolve_mlx_url and all_mlx_urls. Registry/History: histories of these operations.
--   Serializers server/serializers.py: what the read APIs and the queues ask of a node state.
--   Queue       server/queue_manager.py, class QueueManager. Queue/Clients: the limit on a client's
--               requests. Queue/Concurrency: the limit of a queue. Queue/State: one queue, its
--               workers and slots. Queue/Manager: the operations on all queues. The other files
--               hold proofs: Workers, Holding, Limit and Bound the limit on the requests in flight,
--               Accounting the clients' counts, Reaper, Keys, Filing, Reachable, Settle
--               and Moves.
--   Affinity    server/session_affinity.py: SessionAffinityTracker, its eviction, and session_key_for.
--   Scorer      server/scorer.py: _eliminate and, in Scorer/Signals, Scorer/Load and Scorer/Ranking, the
--               signals and score_request. What a model costs and its size are arguments, and so is the latency
--               store. Scorer/Floats: Python's floats, an interface.
--   Rebalancer  server/rebalancer.py: a cycle of _check_rebalance.
--   Clearing    server/context_management.py and server/clearing_store.py. Clearing/Messages: messages and
--               the estimate of their tokens. Clearing/Sticky: the store as the clearing
--               sees it. Clearing/Cut: clear_old_tool_results. Clearing/Store: the table.
--   Pins        server/pinned_models.py: the file, set_pin, get_for_node, merge_pins.
--   Preloader   server/model_preloader.py. Preloader/Catalog: lookup_model of server/model_knowledge.py.
--               Preloader/Sizing: the costs that are learned, the estimates of sizes, and those of
--               server/scorer.py. Preloader/Load: the choice of a node, the gate, the load and the wait.
--               Preloader/Plan: the plan, the start and a refresh.
--   OfflineAlert  server/offline_alert.py: the watchers, and node_went_offline in two steps, before
--               and after it waits for its command.
--   Capacity    node/capacity_learner.py: observe, the decision, the manual override. Capacity/Data: the
--               state of the learner and its slots.
--   ToolSchema  server/tool_schema_fixup.py.
--   ContextOptimizer  server/context_optimizer.py: the recommendation, the start, a check.
--   EnvFile     common/env_file.py: load_env_file; common/env_writer.py: set_env_var, unset_env_var. The
--               lines of the file, and its values as texts.
--   Dict        Python's dict with text keys, in insertion order, with the laws of its operations.
--   Common      what all modules share: texts as lists of code points, lists, Boolean tests.
--   Tests       sample states, and the theorems at concrete inputs.
--
-- A request is scored against the nodes of the registry and the sessions, and put on the queue of the
-- best node. The queue manager asks the registry for a node's state when it computes a queue's
-- concurrency. The registry is an argument of these operations; they share no other state. The preloader
-- loads models by an interface, Fleet: the registry, the traces, the proxy and the clock, on a state of
-- their own. The clearing of old tool results asks its store for what was cleared before. The context
-- optimizer writes the overrides that the preloader reads from the settings.
--
-- Conventions. A number is a natural number: times are ticks of the clock and sizes thousandths of a
-- GB, and what Python's floats round is not modelled outside the scorer. A subtraction that Python would take below zero
-- stops at zero; each such result is compared only with limits that are at least zero. A block without
-- await, or under the asyncio lock, is one step with one reading of the clock. Sets are lists of their
-- members. A worker is known by its place in worker_tasks, and an event by its request and a serial
-- number. What a client does (a cancelled future, a process_fn that raises) is an argument of a step.
-- The durations of a reaper event are in ticks, where the source writes whole seconds. The URL reader
-- assumes no blanks, control characters or unbalanced brackets. A part of a message whose type is not
-- a text counts as no image. Times are milliseconds in the preloader and the
-- offline alert, and seconds in the clearing store,
-- the capacity learner and the context optimizer. What is learned of a context's cost is rounded up.
-- SQLite answers a call or raises. The catalog of models is an argument.
--
-- Fuel. The printing of a number is given one more round than the number: each round divides by ten. The
-- wait for a model has a look for each millisecond of its timeout, where the source sleeps a second
-- between looks. The doubling up to a number is given the number itself: each round adds one at least.
--
-- Not modelled: logging, telemetry, HTTP, the streaming proxies, the trace and latency stores, the health
-- engine, the dashboard, the command line and the rest of the node agent, which are input and output;
-- get_queue_info, start_reaper and shutdown, and the endless loops of the preloader and the optimizer,
-- which read or manage tasks; the files of the capacity learner and its detectors, whose answers are
-- arguments; score_loaded_models, the estimate of a request's tokens, the rebalancer's pre-warming, the
-- repair of tool calls and the translators between API formats; the compaction, which asks a model.
pub mod Common
pub mod Dict
pub mod EnvFile
pub mod Models
pub mod Url
pub mod Registry
pub mod Serializers
pub mod Queue
pub mod Affinity
pub mod Scorer
pub mod Rebalancer
pub mod Clearing
pub mod Preloader
pub mod OfflineAlert
pub mod Pins
pub mod ContextOptimizer
pub mod Capacity
pub mod ToolSchema
mod Tests
