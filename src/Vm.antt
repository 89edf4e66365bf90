-- ===== src/Vm.antt =====
-- src/vm.c and include/vm.h: the virtual machine.
pub mod Fetch
pub mod Constants
pub mod Jumps
pub mod Arith
pub mod Range
pub mod Unary
pub mod Twice
mod Tests
