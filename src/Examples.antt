-- ===== src/Examples.antt =====
-- Runs of the modelled code on concrete data, by component.
mod Transfers
mod Sockets
mod Tables
mod Apis
mod Beats
mod Starters
mod Nodes
mod Timers
mod Lines
mod Clients
mod Dials
mod Rounds
mod Types
mod Waiters
mod Races
mod Remote
mod Stamps
mod Figures
mod Requests
