-- ===== src/Tests.antt =====
-- Runs of the model on concrete inputs: one module per part of the program, on the kernel and the
-- data of Tests/Fixtures.antt.
pub mod Fixtures
pub mod Contexts
pub mod Interfaces
pub mod Services
pub mod Processes
pub mod Starts
pub mod Reach
pub mod Sessions
