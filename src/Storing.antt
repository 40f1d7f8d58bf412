-- ===== src/Storing.antt =====
-- Edge/stateserver.cpp and Edge/stateclient.cpp: the server that keeps states of applications by
-- name, and its client.
pub mod Server
pub mod Client
pub mod Runs
mod Tests
