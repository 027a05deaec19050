-- ===== src/Tests.antt =====
-- Runs on concrete inputs, and the theorems at inputs where their hypotheses hold.
mod Pages
mod Keys
mod Words
mod Regions
mod Blocks
mod Devices
mod Screen
mod Clock
mod Sorting
