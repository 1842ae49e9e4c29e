-- ===== src/Tests.antt =====
-- Runs of the model on concrete tables and kernels.
mod Kernels
mod Queues
mod Calls
mod Heaps
mod Stores
mod Sleepers
mod Pages
mod Faults
mod Processes
mod Chars
mod Messages
