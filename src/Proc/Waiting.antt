-- ===== src/Proc/Waiting.antt =====
-- xv6/proc.c: parents that sleep in `wait`, and their exited children.
pub mod Keeping
pub mod Parents
pub mod Tables
pub mod Reach
