-- ===== src/Tests.antt =====
-- Runs on concrete inputs, and the theorems at inputs where their hypotheses hold.
mod Data
mod Compile
mod Optimize
mod Caches
mod Snapshots
mod Orm
mod Transactions
mod Migrating
mod Running
mod Scanning
mod Writing
mod Reading
mod Validating
