-- ===== src/Examples.antt =====
-- The theorems of the other modules at concrete inputs.
mod Trees
mod Inputs
mod Engine
mod Settings
mod Processes
mod Walks
mod Walkers
mod Views
mod Readings
