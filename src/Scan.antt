-- ===== src/Scan.antt =====
-- wifi/iw/scan.c: `Suites` and `Rsn` print the element on security, `Simple`, `Interworking` and
-- `Operation` the others, `Printer` has one name for each, and `Elements` walks over a frame.
pub mod Suites
pub mod Rsn
pub mod Simple
pub mod Interworking
pub mod Operation
pub mod Printer
pub mod Elements
pub mod Request
pub mod Sched
