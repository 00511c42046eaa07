-- ===== src/Net.antt =====
-- net/: the network stack over the card of drivers/rtl8139.c.
pub mod Wire
pub mod State
mod Bench
pub mod Stack
pub mod Udp
pub mod Dns
pub mod Dhcp
pub mod Tcp
pub mod Icmp
