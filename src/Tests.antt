-- ===== src/Tests.antt =====
-- The theorems at concrete inputs, and runs of the code.
mod Ready
mod Tables
mod Ports
mod Headers
mod Ipv4
mod Icmp
mod Dhcp
mod Worker
mod Sockets
