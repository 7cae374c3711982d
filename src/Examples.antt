-- ===== src/Examples.antt =====
-- Concrete runs: each theorem of the development applied where its hypotheses hold.
pub mod Shop
pub mod Stock
pub mod Money
pub mod Office
pub mod Workshop
pub mod Files
pub mod Backups
pub mod Market
pub mod Accounts
pub mod Secrets
pub mod Floor
