-- ===== src/Dns.antt =====
-- src/dns: the DNS server's protocol and stores.
pub mod Address
pub mod Record
pub mod Buffer
pub mod Name
pub mod Packet
pub mod Server
pub mod Wire
pub mod Cache
mod Tests
