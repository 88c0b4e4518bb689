-- ===== src/Vochain.antt =====
-- vochain/: the state of the chain, its transactions and the application that runs them.
pub mod Censusdownloader
pub mod Deps
pub mod State
pub mod Apputils
pub mod Transaction
pub mod App
pub mod Scrutinizer
pub mod Keykeeper
mod Examples
