-- ===== src/Samples.antt =====
-- Runs of the definitions on small inputs, and the theorems at concrete ones.
pub mod Accounts
pub mod Access
pub mod Nodes
pub mod Jobs
pub mod Groups
pub mod Streams
pub mod Versions
pub mod Collection
pub mod Services
pub mod Stores
