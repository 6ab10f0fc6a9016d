-- ===== src/Service.antt =====
-- src/service: what a game server is built on: messages to and from packets, the events of the
-- network, and the objects that handle messages.
pub mod MsgTrans
pub mod LogicObj
pub mod Fetch
pub mod LogicBase
mod Tests
