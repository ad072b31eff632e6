-- ===== src/Util.antt =====
-- wifi/iw/util.c, a module for each group of its functions.
pub mod Hex
pub mod HexText
pub mod Mac
pub mod Channel
pub mod Chandef
pub mod HexMask
pub mod Keys
pub mod RandomMac
