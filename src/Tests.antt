-- ===== src/Tests.antt =====
-- Runs at fixed inputs, and the theorems at inputs that meet their hypotheses.
mod Memory
mod Strings
mod Keys
mod Tasks
mod Printing
mod Devices
mod Shell
mod Archive
mod Program
mod System
mod Boot
mod Fork
