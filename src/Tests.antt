-- ===== src/Tests.antt =====
-- Runs of the definitions on small inputs.
mod Scanning
mod Compiling
mod Machine
mod Tables
mod Members
mod Collecting
mod Running
mod Natives
mod Parsing
