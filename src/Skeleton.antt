-- ===== src/Skeleton.antt =====
-- The user-space version in model/c-skeleton.
pub mod DArray
pub mod Hashmap
pub mod Algos
pub mod Chunk
pub mod KeyValue
pub mod Pack
pub mod Winnow
