-- ===== src/Util.antt =====
-- util/helpers.go, and the part of Go's encoding/hex that the program calls.
pub mod Decimal
pub mod Hex
pub mod Split
