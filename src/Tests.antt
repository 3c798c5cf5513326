-- ===== src/Tests.antt =====
-- Runs of the definitions at concrete inputs.
mod Ifcfg
mod Dcb
mod Eni
mod Mapping
mod Sriov
mod Nics
mod Routes
mod Tables
mod Objects
mod Build
