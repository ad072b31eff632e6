-- ===== src/Iw.antt =====
-- wifi/iw/iw.c: which command a command line of iw is, and what is called for it.
pub mod Commands
pub mod Dispatch
