-- ===== src/Go.antt =====
-- What the program uses of Go itself: error values, results, durations and string maps.
pub mod Errors
pub mod Result
pub mod Exec
pub mod Runs
pub mod Table
pub mod Duration
pub mod Decimal
