-- ===== src/Tests.antt =====
-- A system that behaves in one definite way, and the theorems applied to it.
mod Machine
mod Network
mod Udp
mod Settings
mod Service
mod Lifecycle
mod Exit
