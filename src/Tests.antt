-- ===== src/Tests.antt =====
-- Concrete states, and the theorems of the library applied to them.
mod Machine
mod Scheduling
mod Synchronisation
mod Files
mod Inodes
mod Processes
mod Jobs
mod Numbers
mod Exercises
