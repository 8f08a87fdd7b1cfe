-- ===== src/File.antt =====
-- xv6/file.c: the table of open files and its reference counts. A file is named by its slot; the
-- lock of the table is not part of the state. What `fileclose` still has to do to the pipe or the
-- inode when the last reference goes is its result.
pub mod Refs
mod Tests
use tp2_ronaldo_joaopedro.Common.{
  ℕ, zero, suc, ◌+◌, ◌-◌, Bool, true, false, Option, none, some, ◌==◌, ltb, update, if◌then◌else◌,
}

abbrev pub nfile : ℕ
nfile = 100

pub data FileType : Type 0 where
  fd_none fd_pipe fd_inode : FileType

-- `struct file`; `pipe` and `ip` are addresses.
pub record File : Type 0 where
  pub kind : FileType
  pub ref : ℕ
  pub readable : Bool
  pub writable : Bool
  pub pipe : ℕ
  pub ip : ℕ
  pub off : ℕ

abbrev pub Files : Type 0
Files = ℕ → File

-- The loop of `filealloc` from slot `i` on, over the `n` slots that are left.
unfoldable pub filealloc_from : Files → ℕ → ℕ → Option (ℕ × Files)
filealloc_from files zero i = none
filealloc_from files (suc n) i =
    let rest = filealloc_from files n (i + 1) in
    let f = files i in if f.ref == 0 then some (i, update files i (record f { ref = 1 })) else rest

unfoldable pub filealloc : Files → Option (ℕ × Files)
unfolding filealloc_from
filealloc files = filealloc_from files nfile 0

-- `none` is the panic.
unfoldable pub filedup : Files → ℕ → Option Files
filedup files i =
    let f = files i in
    if ltb f.ref 1 then none else some (update files i (record f { ref = f.ref + 1 }))

-- What the last `fileclose` does after it has freed the slot: `pipeclose(ff.pipe, ff.writable)`,
-- or `iput(ff.ip)` inside a transaction.
pub data Closing : Type 0 where
  kept : Closing
  pipe_closed : ℕ → Bool → Closing
  inode_put : ℕ → Closing
  nothing : Closing

abbrev pub closing : File → Closing
closing f = elim f.kind [
  | fd_pipe ↦ pipe_closed f.pipe f.writable
  | fd_inode ↦ inode_put f.ip
  | fd_none ↦ nothing
]

unfoldable pub fileclose : Files → ℕ → Option (Files × Closing)
fileclose files i =
    let f = files i in
    if ltb f.ref 1
    then none
    else if ltb 0 (f.ref - 1)
    then some (update files i (record f { ref = f.ref - 1 }), kept)
    else some (update files i (record f { ref = 0; kind = fd_none }), closing f)
