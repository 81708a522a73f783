-- ===== src/Examples.antt =====
-- The theorems at work on small inputs.
mod Pids
mod Tables
pub mod Family
mod Groups
mod Signals
mod Waits
mod Births
mod Starts
mod Paths
mod Calls
mod Programs
mod Polls
mod Sockets
mod Wasm
