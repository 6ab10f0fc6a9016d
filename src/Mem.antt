-- ===== src/Mem.antt =====
-- The memory components of src/mem and publish/include/mem.
pub mod LoopBuf
pub mod LoopList
pub mod MallocState
