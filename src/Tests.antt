-- ===== src/Tests.antt =====
-- The theorems at concrete inputs.
mod Balance
mod Schemes
mod Shares
mod Levels
mod Groups
mod Tensors
mod Grids
mod Managers
mod Systems
