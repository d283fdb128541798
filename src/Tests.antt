-- ===== src/Tests.antt =====
-- Runs of the models at concrete inputs, and the theorems applied at such inputs.
mod Bitmaps
mod Conditions
mod Directories
mod Machines
mod Mips
mod FileTables
mod Lists
mod Pages
mod Locks
mod Files
mod Volumes
mod Headers
mod Interrupts
mod Messages
