-- ===== src/Examples.antt =====
-- Runs of the definitions at concrete inputs, and the theorems applied to them.
mod Patching
mod Paths
mod Keeping
mod Routing
mod Settings
mod Rewriting
mod Asking
mod Relaying
mod Running
mod Starting
