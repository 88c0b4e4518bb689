-- ===== src/Types.antt =====
-- types/consts.go and types/vochain.go: constants, the data of the chain and the transactions.
pub mod Consts
mod Vochain
mod Tx
unfoldable pub use Vochain.*
unfoldable pub use Tx.*
