-- ===== src/SendModule.antt =====
-- model/send_module: the sender, a kernel module that finds the chunks of a packet that were sent
-- before, and works out the packet in which their digests stand.
pub mod Entries
pub mod Packet
pub mod Setup
