-- ===== src/Examples.antt =====
-- Runs of the models on concrete inputs, and each theorem at an input that meets its hypotheses.
mod Sim
mod Sessions
mod Tasks
mod Loops
mod Writing
mod Clients
mod Batches
mod Progress
mod Thrifty
mod Service
mod Owners
