-- ===== src/Estimating.antt =====
-- The estimates of response times: which descriptor stands for a lambda at a destination.
pub mod DestinationTable
pub mod Values
pub mod Utilization
mod Tests
