-- ===== src/Routing.antt =====
-- The forwarding table of an e-router (Edge/forwardingtable.cpp and Edge/Entries).
pub mod Entry
pub mod LeastImpedance
pub mod Random
pub mod ProportionalFairness
pub mod RoundRobin
pub mod Table
mod Tests
mod PolicyTests
mod RoundRobinTests
