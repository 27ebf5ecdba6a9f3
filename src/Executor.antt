-- ===== src/Executor.antt =====
-- Package executor: the executors of a shell command.
pub mod Status
pub mod Retry
pub mod Script
pub mod Env
pub mod Docker
pub mod Tar
pub mod Shell
pub mod Output
pub mod New
