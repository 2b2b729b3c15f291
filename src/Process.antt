-- ===== src/Process.antt =====
-- userprog/process.c of pintos_pro3/src: the processes.
pub mod Files
pub mod Blocks
pub mod Descriptors
pub mod Stack
pub mod Memory
pub mod Arguments
pub mod Segment
pub mod Region
pub mod Load
pub mod Pages
pub mod UserPages
pub mod Children
pub mod Wait
