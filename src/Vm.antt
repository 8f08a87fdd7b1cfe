-- ===== src/Vm.antt =====
-- xv6/vm.c: page tables, user memory, and copy-on-write.
pub mod Pte
pub mod Walk
pub mod Uvm
pub mod Cow
mod Tests
