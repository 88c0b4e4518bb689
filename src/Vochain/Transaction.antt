-- ===== src/Vochain/Transaction.antt =====
-- vochain/transaction.go: the checks of the four transactions, and AddTx over them.
pub mod Vote
pub mod NewProcess
pub mod CancelProcess
pub mod Admin
pub mod Unmarshal
pub mod AddTx
