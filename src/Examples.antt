-- ===== src/Examples.antt =====
-- Concrete runs: a kernel with a modem that answers, tests on it, and uses of the theorems.
pub mod Modem
mod Codec
mod Requests
mod Transactions
mod Stages
mod Runs
mod Peers
mod Resources
mod Dependencies
mod Timers
mod Votes
mod Buses
mod Headers
