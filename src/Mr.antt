-- ===== src/Mr.antt =====
-- The memory regions and the three ring buffers of src/types/mr.rs.
pub mod Region
pub mod RemoteBufs
pub mod RecvBufs
pub mod SendBufs
