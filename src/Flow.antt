-- ===== src/Flow.antt =====
-- src/core/flow_table.c: which WAN a flow's packets go out by.
pub mod Hash
pub mod Wrr
pub mod Table
