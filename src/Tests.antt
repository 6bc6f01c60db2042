-- ===== src/Tests.antt =====
-- Concrete inputs, and the theorems at them.
mod JobClaims
mod Citations
mod Versions
mod Requests
mod Models
mod Searches
mod Spending
mod Runs
mod Clients
