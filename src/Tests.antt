-- ===== src/Tests.antt =====
-- Runs of the modelled functions on concrete inputs.
mod Scan
mod Convert
mod Doubles
mod Parse
mod Programs
mod Lines
mod Build
mod Memory
mod Stages
mod Print
mod Platform
mod Debug
mod Match
mod Windows
mod Runtime
