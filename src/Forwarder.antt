-- ===== src/Forwarder.antt =====
-- src/primary/shared_obj_txn_forwarder.rs, the forwarding of transactions with shared objects: the
-- choice of a proxy, the states that it lacks, and the messages that it gets.
pub mod MostStates
pub mod Loads
pub mod MissingStates
pub mod Context
pub mod Task
