-- ===== src/Net.antt =====
-- The network stack: kernel/arp.c, kernel/ipv4.c and kernel/virtio_net.c.
pub mod Wire
pub mod Arp
pub mod Ipv4
pub mod Driver
pub mod Stack
mod Tests
