-- ===== src/Handoff.antt =====
-- Version assignment (VersionAssignmentTask) and dependency control (VersionedDependencyController)
-- together: the `Notify` between a transaction and the next one on an object.
pub mod Keys
pub mod Notify
