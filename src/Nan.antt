-- ===== src/Nan.antt =====
-- wifi/iw/nan.c and what it uses: the Bloom filter of wifi/iw/bloom.c and the hash of wifi/iw/sha256.c.
pub mod Bloom
pub mod Sha256
pub mod Words
pub mod Filter
pub mod Function
