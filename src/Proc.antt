-- ===== src/Proc.antt =====
-- The process table, proc.c and proc.h. `Table` has the data, `Services` what proc.c calls of the
-- rest of the kernel; each other child has a group of functions, and its own children their laws.
pub mod Table
pub mod Services
pub mod Sleep
pub mod Info
pub mod Alloc
pub mod Life
pub mod Inv
pub mod Schedule
pub mod Steps
