-- ===== src/Tests.antt =====
-- Runs of the model on small inputs, and each property at a concrete input.
pub mod Data
mod Versions
mod Oneshot
mod Forwarder
mod Consensus
mod LoadBalancer
mod Proxy
mod Schedule
mod Fake
mod Tpcc
mod WorkerPool
