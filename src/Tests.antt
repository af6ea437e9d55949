-- ===== src/Tests.antt =====
-- Runs of the definitions, and uses of the theorems, at concrete inputs.
mod Selecting
mod Secured
mod Helper
mod Files
mod Disk
mod Stored
mod Commands
mod Memory
mod Session
mod MountTable
mod OnBus
mod Platforms
mod OnSystem
