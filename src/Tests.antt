-- ===== src/Tests.antt =====
-- The theorems applied to concrete states: the queues and locks, the lists, and memory.
mod Links
mod Locks
mod Conditions
mod Memory
mod Text
mod Processes
mod Letters
mod Tables
mod Shared
mod Swapping
mod Disk
mod Streams
mod Files
mod Network
