-- ===== src/Lib.antt =====
-- Remora is a distributed smart-contract executor: a primary takes batches of transactions from
-- consensus, gives the shared objects of each a version, and forwards the transactions to proxies,
-- which check signatures (the stateless part) and execute (the stateful part), and which fetch the
-- objects that they miss from one another. These modules model the parts of the primary that decide
-- what is sent where and in which order, the proxy, and the controllers by which tasks wait for one
-- another.
--
-- The parts, in the order in which a transaction meets them:
--
--   Consensus        src/primary/mock_consensus.rs: the loop of `run` as a step relation, one step for
--                    each branch of its `select!`; the delays are any order of completion.
--   LoadBalancer     src/primary/load_balancer.rs: the split of a committed batch.
--   OwnedForwarder   src/primary/owned_obj_txn_forwarder.rs: transactions without shared objects.
--   Schedule         src/primary/shared_obj_txn_forwarder.rs, `PreConsensusSchedTask`: the dependency
--                    graph of a batch (Graph), its subgraphs by depth-first search (Search, Conflicts),
--                    and their assignment to proxies (Scores, Policy, Batch).
--   Versions         src/primary/shared_obj_txn_forwarder.rs, `VersionAssignmentTask`: the versions
--                    that a transaction requires, and the new one that it leaves.
--   Versioned        src/executor/versioned_dependency_controller.rs: the notifications that a task
--                    awaits and signals, by object and version.
--   Handoff          `Versions` and `Versioned` together: the notification between a transaction and the
--                    next one on the same object.
--   Forwarder        src/primary/shared_obj_txn_forwarder.rs: the choice of a proxy by the states that
--                    it hosts (MostStates) or by its load (Loads), the states that it misses
--                    (MissingStates), and the forwarding task that uses them (Context, Task).
--   Planning         `Schedule` and `Forwarder` together: the planning of a batch, and the forwarding of
--                    its transactions.
--   WorkerPool       src/executor/worker_pool.rs: which worker gets which forwarding task.
--   Oneshot          src/executor/oneshot_dependency_controller.rs: where a verification's result
--                    meets the task that waits for it.
--   Proxy            src/proxy/core.rs: the handlers of messages from the primary (Primary) and from
--                    other proxies (Peers), and the tasks that they spawn (Tasks); states that move
--                    between proxies (Migration), results of verifications (Results), and the
--                    primary's messages at the proxies (Accepts).
--   Tpcc             src/executor/tpcc/: an executor, with its rows and their encoding (Library, Data),
--                    what a transaction accesses (Transactions), how it changes the rows (Integers,
--                    Rows), and its execution on a store (Execute).
--   Fake             src/executor/fake.rs: an executor whose transactions raise the versions of their
--                    inputs.
--   Execution        src/executor/api.rs: the executor and its store, as the proxy calls them, and what
--                    the stores of the two executors share (Store).
--   Api, Config      The transactions, messages, modes and policies of src/executor/api.rs and
--                    src/config.rs.
--
-- Prelude has the association lists that stand for maps, the keys that are compared, and lemmas on
-- lists; SequenceNumber is the interface to the version numbers; Tests runs the model on small inputs.
--
-- How the code corresponds. Each Rust function is a function of the same name that takes the state
-- and returns it; `none` in the place of a result is a panic. A `DashMap` or `FxHashMap` is an
-- association list. Calls of tasks interleave as sequences of whole methods: what a method does to
-- several keys is one step, though the source locks the map for one key at a time. A `Notify` or a
-- channel is the number under which it was made, so two tasks share one when their numbers agree; a
-- state that sends keeps the list of what it sent. Identifiers are numbers, and durations numbers of
-- microseconds.
--
-- What is assumed. `SequenceNumber` belongs to Sui: it is a parameter, with the laws that the next
-- version is one larger and that `one_before` undoes `next`. Versions, loads and counters stay below
-- 2 ^ 64. The receiving ends of channels stay open, but for the one that ends the consensus loop, and
-- so do the sending ends of oneshot channels, without which the wait for a result is a panic. The
-- executor and its store are a parameter of the proxy, which is generic in them; so is the type of
-- objects, of which only the version is looked at. The TPC-C executor is modelled in its release build:
-- debug assertions are not checked, and machine integers wrap, a signed one as its two's complement.
-- Sui's objects, BCS and the hasher are parameters of it (Tpcc.Library), with laws on what is read back.
-- The objects and input kinds of Sui are a parameter of the fake executor, too (Fake); it spins to take
-- time, which is left out.
--
-- The planning of batches uses graphs of petgraph, floating-point arithmetic, random numbers and the
-- bytes of an object id: these are parameters (Schedule.Graph, Schedule.External), with laws on what an
-- undirected neighbour is, on the range of a random number and on that of a byte.
--
-- Loops are recursive in the list that they go through, so no fuel is needed, but for the depth-first
-- search: it gets as many rounds as the graph has nodes, which are enough. The loop of the
-- consensus does not end: its theorems are about each state that it can reach.
--
-- Not modelled: networking, metrics, the command line, the generation of load, the wiring of nodes,
-- and the deadlines of timers, which are input and output; the Sui executor and the cryptography, which
-- are calls of other libraries; the random workloads of the fake and the TPC-C executor, and the filling
-- of their stores at the start; and the threads of the pools of workers.
pub mod Prelude
pub mod SequenceNumber
pub mod Config
pub mod Api
pub mod Versions
pub mod Versioned
pub mod Handoff
pub mod Oneshot
pub mod Forwarder
pub mod Consensus
pub mod LoadBalancer
pub mod OwnedForwarder
pub mod Execution
pub mod Fake
pub mod WorkerPool
pub mod Proxy
pub mod Schedule
pub mod Planning
pub mod Tpcc
mod Tests
