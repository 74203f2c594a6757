-- ===== src/Tests.antt =====
-- The properties at concrete inputs.
mod Buffers
mod Conn
mod Heads
mod Index
mod Scan
mod Loop
mod Output
mod Pools
mod Radix
mod Serve
mod Site
mod Strings
mod Transfers
mod Uri
