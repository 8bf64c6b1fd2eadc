-- ===== src/Examples.antt =====
-- Runs on concrete inputs, and the theorems at inputs that meet their hypotheses.
pub mod Toy
mod Policies
mod Sentinels
mod Conversations
mod Buses
mod Envelopes
mod Terminals
mod Flags
mod Orchestrations
mod Peers
mod Knobs
mod Screens
mod Stores
