-- ===== src/Tpcc.antt =====
-- src/executor/tpcc/: the executor of TPC-C transactions. The release build is modelled: debug
-- assertions are not checked, and machine integers wrap, signed ones as their two's complement.
pub mod Integers
pub mod Library
pub mod Data
pub mod Transactions
pub mod Rows
pub mod Execute
