-- ===== src/Vochain/Examples.antt =====
-- The theorems on the chain at concrete inputs.
mod Mempool
mod Setting
mod Votes
mod Chain
mod Processes
mod Keys
mod Accounts
mod Keepers
