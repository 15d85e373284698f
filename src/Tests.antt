-- ===== src/Tests.antt =====
-- Concrete runs of the theorems.
mod Records
mod Policies
mod Serving
mod Transactions
mod Stored
mod Blocked
mod Storage
mod Controls
