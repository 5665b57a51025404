-- ===== src/KernelHash.antt =====
-- model/kernel_hash: the deduplicating cache of TCP payload chunks, a kernel module.
pub mod Params
pub mod Rolling
pub mod Kfifo
pub mod Partition
pub mod Item
pub mod Memory
pub mod Bitmap
pub mod Area
pub mod Vfs
pub mod Write
pub mod Read
pub mod Sweep
pub mod Jen
pub mod Table
pub mod Dedup
pub mod Expire
pub mod Queue
pub mod Setup
