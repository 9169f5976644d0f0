-- ===== src/Tests.antt =====
-- Runs of the model on concrete inputs.
mod Machine
mod Table
mod Pipes
mod Crashes
mod Calls
mod Memory
mod Paging
mod Cache
mod Locks
mod Commands
mod Text
mod Typing
mod Files
mod DiskMap
mod Sleepers
mod Contents
