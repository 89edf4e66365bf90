-- ===== src/Machine.antt =====
-- include/vm.h and src/vm.c: the virtual machine as a whole, which runs the functions that the parser
-- has written.
pub mod State
pub mod Fetch
pub mod Calls
pub mod Values
pub mod Handlers
pub mod Holders
pub mod Run
mod Tests
pub mod Keeps
pub mod Frames
pub mod Callers
pub mod Runs
pub mod Owners
pub mod Safe
pub mod Goes
pub mod Returns
