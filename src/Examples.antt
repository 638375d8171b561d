-- ===== src/Examples.antt =====
-- The theorems at concrete inputs, and runs of the program's parts.
pub mod Data
pub mod Queries
pub mod Streams
pub mod Workers
pub mod Managers
mod Systems
mod Priorities
pub mod Accounts
pub mod Unmarshals
