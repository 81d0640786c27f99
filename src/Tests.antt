-- ===== src/Tests.antt =====
-- Runs of the theorems at concrete inputs.
mod Samples
mod Text
mod Wire
mod Dag
mod Client
mod Chunks
mod Serve
mod Swap
mod Submission
mod Steal
mod Queues
mod Notify
mod Record
mod Table
mod Server
mod Blob
