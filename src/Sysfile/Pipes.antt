-- ===== src/Sysfile/Pipes.antt =====
-- xv6/sysfile.c: `sys_pipe`, with `pipealloc` of xv6/pipe.c, over the file table and the descriptors. What
-- `kalloc` would return is an argument; `none` as the result of a call is a panic.
pub mod Counts
pub mod Rollback
use tp2_ronaldo_joaopedro.Common.{ℕ, true, false, Option, none, some, List, [], ◌∷◌, update}
use tp2_ronaldo_joaopedro.File.{Files, File, Closing, fd_pipe, filealloc, fileclose}
use tp2_ronaldo_joaopedro.Syscall.{Caller, argptr}
use tp2_ronaldo_joaopedro.Sysfile.{Ofile, Task, minus_one, fdalloc}

abbrev also : Closing → Option (Files × List Closing) → Option (Files × List Closing)
also c none = none
also c (some (files, cs)) = some (files, c ∷ cs)

-- `fileclose` of files in a row.
abbrev pub close_all : Files → List ℕ → Option (Files × List Closing)
close_all files [] = some (files, [])
close_all files (f ∷ fs) = elim (fileclose files f) [
  | none ↦ none
  | some (files', c) ↦ also c (close_all files' fs)
]

-- The two ends, the file table, and what was closed.
abbrev pub Pipealloc : Type 0
Pipealloc = Option (Option (ℕ × ℕ) × Files × List Closing)

abbrev pub give_up : Option (Files × List Closing) → Pipealloc
give_up none = none
give_up (some (files, cs)) = some (none, files, cs)

abbrev pub pipe_ends : ℕ → ℕ → ℕ → Files → Files
pipe_ends f0 f1 p files =
    let files' =
      update files f0
        (record (files f0) { kind = fd_pipe; readable = true; writable = false; pipe = p }) in
    update files' f1
      (record (files' f1) { kind = fd_pipe; readable = false; writable = true; pipe = p })

abbrev pub with_page : ℕ → ℕ → Files → Option ℕ → Pipealloc
with_page f0 f1 files none = give_up (close_all files (f0 ∷ f1 ∷ []))
with_page f0 f1 files (some p) = some (some (f0, f1), pipe_ends f0 f1 p files, [])

abbrev pub second_file : ℕ → Files → Option ℕ → Option (ℕ × Files) → Pipealloc
second_file f0 files page none = give_up (close_all files (f0 ∷ []))
second_file f0 files page (some (f1, files')) = with_page f0 f1 files' page

abbrev pub first_file : Files → Option ℕ → Option (ℕ × Files) → Pipealloc
first_file files page none = some (none, files, [])
first_file files page (some (f0, files')) = second_file f0 files' page (filealloc files')

unfoldable pub pipealloc : Files → Option ℕ → Pipealloc
pipealloc files page = first_file files page (filealloc files)

-- The result, where the two descriptors are put and which they are, the task, and what was closed.
abbrev pub PipeCall : Type 0
PipeCall = Option (ℕ × Option (ℕ × ℕ × ℕ) × Task × List Closing)

abbrev pub pipe_failed : Ofile → Option (Files × List Closing) → PipeCall
pipe_failed o none = none
pipe_failed o (some (files, cs)) = some (minus_one, none, record { ofile = o; files = files }, cs)

-- The second descriptor; `fd0` is the first.
abbrev pub second_fd : ℕ → ℕ → ℕ → ℕ → Ofile → Files → Option (ℕ × Ofile) → PipeCall
second_fd addr rf wf fd0 o files none =
    pipe_failed (update o fd0 none) (close_all files (rf ∷ wf ∷ []))
second_fd addr rf wf fd0 o files (some (fd1, o')) =
    some (0, some (addr, fd0, fd1), record { ofile = o'; files = files }, [])

abbrev pub first_fd : ℕ → ℕ → ℕ → Ofile → Files → Option (ℕ × Ofile) → PipeCall
first_fd addr rf wf o files none = pipe_failed o (close_all files (rf ∷ wf ∷ []))
first_fd addr rf wf o files (some (fd0, o')) = second_fd addr rf wf fd0 o' files (fdalloc o' wf)

abbrev pub pipe_fds : ℕ → Ofile → Pipealloc → PipeCall
pipe_fds addr o none = none
pipe_fds addr o (some (none, files, cs)) =
    some (minus_one, none, record { ofile = o; files = files }, cs)
pipe_fds addr o (some (some (rf, wf), files, cs)) = first_fd addr rf wf o files (fdalloc o rf)

abbrev pub pipe_at : Task → Option ℕ → Option ℕ → PipeCall
pipe_at t page none = some (minus_one, none, t, [])
pipe_at t page (some addr) = pipe_fds addr t.ofile (pipealloc t.files page)

unfoldable pub sys_pipe : Caller → Option ℕ → Task → PipeCall
sys_pipe p page t = pipe_at t page (argptr p 0 8)
