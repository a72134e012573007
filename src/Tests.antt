-- ===== src/Tests.antt =====
-- Runs of the model at concrete inputs, and each theorem at an input that meets its hypotheses.
mod Transfers
mod Options
mod Paths
mod Client
mod Downloads
mod Remap
mod Access
mod Negotiations
mod Polls
mod Messages
mod Requests
mod Sessions
mod Lines
mod Files
mod Threads
