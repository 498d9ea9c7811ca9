-- ===== src/Tests.antt =====
-- Concrete states, runs of the model on them, and the theorems at these states.
pub mod Samples
mod Processes
mod Scheduling
mod Memory
mod Transactions
mod Pipes
mod Bytes
mod Tables
mod Texts
mod Files
mod Buffers
mod Descriptors
mod Commands
mod Devices
