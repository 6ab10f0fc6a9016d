-- ===== src/Serialize.antt =====
-- The formats of messages: src/serialize and its headers.
pub mod Packet
pub mod MsgPack
