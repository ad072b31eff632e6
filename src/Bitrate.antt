-- ===== src/Bitrate.antt =====
-- wifi/iw/bitrate.c: `Chunk` is one word of rates and the tables filled from such words, `Words` and
-- `Parser` the command line of `set bitrates`, `Message` what it puts into the message.
pub mod Chunk
pub mod Words
pub mod Parser
pub mod Message
