-- ===== src/Lib.antt =====
-- A model of the core of the xv6 kernel of this repository (xv6/), which adds a copy-on-write fork to
-- the teaching kernel xv6: reference counts of pages, `copyuvmcow`, `forkcow` and a page fault
-- handler. The program's parts and the modules that model them:
--
-- Machine: the memory as pages of 32-bit words, the free list of kalloc.c, `pg_refcount` of vm.c
--   and the page table register, with the macros of mmu.h and memlayout.h. A kernel operation is a
--   step on this state that returns, panics, or hangs when a loop runs out of fuel.
--   Machine.Triples reasons about such steps by what holds before and after.
-- Kalloc: xv6/kalloc.c. Kalloc.Links has `kfree` and `kalloc` on the free list as the source keeps it,
--   threaded through the free pages. Kalloc has the specification of the two, on the list of the free
--   pages, which `freerange`, `kinit1`, `kinit2` and the other modules call; Kalloc.Links.Refine is about
--   the two together.
-- Vm: xv6/vm.c. Vm.Pte has the bits of an entry, Vm.Walk `walkpgdir` and `mappages`, Vm.Uvm
--   `setupkvm`, `inituvm`, `allocuvm`, `deallocuvm`, `freevm`, `clearpteu` and `uva2ka`, Vm.Cow
--   `copyuvm`, `copyuvmcow` and `pagefault`. Page tables live in the memory of the machine, so that
--   an address space is reached as the hardware reaches it.
-- Proc: xv6/proc.c. Proc has the process table and what only changes it, Proc.Switch the
--   scheduler, `yield`, `sleep`, `exit` and `wait`, which move processes between CPUs, Proc.Fork
--   `allocproc`, `fork`, `forkcow` and `growproc`, which call Kalloc, Vm.Cow and File. Proc.Steps is the state
--   machine of all of them.
-- File: the table of open files of xv6/file.c with its reference counts.
-- Sysfile: the descriptors of a process in xv6/sysfile.c, `argfd`, `fdalloc`, `dup` and `close`, over
--   Syscall and File; Sysfile.Pipes has `pipealloc` of xv6/pipe.c and `sys_pipe`, which calls it.
-- Pipe: `struct pipe` of xv6/pipe.c, `pipewrite`, `piperead`, `pipeclose`.
-- Console: the input ring of xv6/console.c, `consoleintr` and `consoleread`.
-- Log: xv6/log.c: `begin_op`, `end_op`, `log_write`, the commit and the recovery, as the list of
--   disk writes that they make, so that a crash is a prefix of that list.
-- Bio: the ring of buffers of xv6/bio.c, `bget` and `brelse`, as the list of buffers from the most
--   recently used one on.
-- Fs: xv6/fs.c. Fs.Blocks has the bitmap with `balloc` and `bfree`, Fs.Inodes the inode cache and the
--   inodes on the disk (`iget`, `idup`, `ialloc`, `iupdate`, `ilock`, `iunlock`), Fs.Contents `bmap`,
--   `itrunc`, `iput`, `readi` and `writei`, Fs.Dirs `dirlookup` and `dirlink`, Fs.Paths `skipelem`
--   and `namex`, Fs.Files `filestat`, `fileread` and `filewrite` of
--   xv6/file.c. A block is a function from the index of a byte to the byte, as `bread` gives it; each
--   write goes through `log_write` of Log. The sleep lock of an inode is a flag, and an operation that
--   finds it set stops there. Fs.Triples and Fs.Room reason about the steps.
-- Lock: the spin locks of xv6/spinlock.c, as the steps of the CPUs that contend for one, and the
--   operations of xv6/sleeplock.c.
-- Syscall: the arguments of system calls and the dispatch of xv6/syscall.c.
-- Str: xv6/string.c; `safestrcpy` stands in Proc.Fork, which calls it.
-- Ulib: the strings of xv6/ulib.c and `printint` of xv6/printf.c.
-- Sh: the parser of xv6/sh.c. A token is kept as its bytes, which is what `nulterminate` makes of the
--   pointers to its ends, and a command is a tree.
--
-- Common has the tests of C on numbers and lists measured by native numbers, Bits the laws of the bit
-- operations that page table entries need.
--
-- Words are natural numbers with their wrap-around written out (`add32`, `sub32`, counters of a pipe,
-- 8-bit reference counts). Loops over addresses take fuel for each page in their range and
-- one round more to stop, which is enough since a round goes on by a page at least; loops over
-- tables are recursion on the slots that are left. A call that may sleep stops there with what it has still to
-- do, and is called again after its wakeup. The source's panics are values.
--
-- The loops of xv6/fs.c over a file, and that of `filewrite`, take fuel for each byte, those over a directory for each entry
-- and those over a path for each byte of it; the parser of xv6/sh.c takes three units for each byte
-- of the line and three more, since at most three calls in a row read nothing.
--
-- Left out: what a spin lock protects is not run step by step (an operation that holds one from start to
-- end is one step), a device number other than that of the one disk, block numbers past 2^31,
-- segment registers and the task state of `switchuvm`, `loaduvm`, `copyout` and `kvmalloc` of
-- xv6/vm.c, the other file system calls (xv6/sysfile.c), the disk driver
-- (xv6/ide.c; the log sees blocks through `bread` and `bwrite`), the process system calls, traps, exec,
-- devices, boot code and user programs. `copy` in `fork_by` is `copyuvm` for `fork` and `copyuvmcow`
-- for `forkcow`.
pub mod Common
pub mod Bits
pub mod Machine
pub mod Kalloc
pub mod Vm
pub mod Pipe
pub mod Console
pub mod File
pub mod Proc
pub mod Lock
pub mod Log
pub mod Bio
pub mod Fs
pub mod Sh
pub mod Str
pub mod Syscall
pub mod Sysfile
pub mod Ulib
