-- ===== src/Encrypt.antt =====
-- The checksums and codecs of src/encrypt.
pub mod Crc32
pub mod Base64
