-- ===== src/Probes.antt =====
-- internal/probes: the measurements, their workers and the traceroute.
mod Tests
pub mod Address
pub mod Jitter
pub mod Check
pub mod Recorded
pub mod Replies
pub mod Hops
pub mod Icmp
pub mod Dns
pub mod Tcp
pub mod Http
pub mod Speedtest
pub mod Trace
pub mod Mtr
pub mod Socket
pub mod Deadline
pub mod Clients
