-- ===== src/Tests.antt =====
-- Runs of the models at concrete inputs, and the theorems at inputs that meet their hypotheses.
mod Box
mod Partition
mod Sweep
mod Table
mod Memory
mod Disk
mod Write
mod Skeleton
mod Expire
mod Read
mod Dedup
mod SendModule
mod SendSetup
mod Pack
mod Queue
mod Setup
mod Winnow
