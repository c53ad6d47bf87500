-- ===== src/Schedule.antt =====
-- src/primary/shared_obj_txn_forwarder.rs, `PreConsensusSchedTask`: a batch of transactions is planned
-- before consensus. Those that share objects are found as the weakly connected subgraphs of a
-- dependency graph, and each subgraph of at least two is given to one proxy.
pub mod Graph
pub mod External
pub mod Scores
pub mod Search
pub mod Conflicts
pub mod Policy
pub mod Index
pub mod Choice
pub mod Batch
