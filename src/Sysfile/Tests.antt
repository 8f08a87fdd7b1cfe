-- ===== src/Sysfile/Tests.antt =====
-- The sysfile.c theorems on a process with one file open at descriptor 0, whose call has the argument 0.
use tp2_ronaldo_joaopedro.Common.{
  ℕ, true, Option, none, some, ◌≡◌, ◌⊎◌, if◌then◌else◌, refl, arith, ◌==◌, update,
}
use tp2_ronaldo_joaopedro.File.{
  File, fd_none, fd_inode, filedup, fileclose, filealloc, filealloc_from,
}
use tp2_ronaldo_joaopedro.Syscall.{Caller, fetchint, argint, argptr}
use tp2_ronaldo_joaopedro.Sysfile.{Task, argfd, fdalloc_from, fdalloc, sys_dup}
use tp2_ronaldo_joaopedro.Sysfile.Descriptors.{
  IsHeld, Duplicates, Closes, sys_dup-Duplicates, sys_close-Closes,
}
use tp2_ronaldo_joaopedro.Sysfile.Pipes.{PipeCall, pipealloc, sys_pipe}
use tp2_ronaldo_joaopedro.Sysfile.Pipes.Rollback.{IsTakenBack, IsPipe, sys_pipe-IsPipe}

abbrev caller : Caller
caller = record { sz = 8192; esp = 8000; memory = λ a. 0 }

abbrev unused : File
unused = record {
  kind = fd_none;
  ref = 0;
  readable = true;
  writable = true;
  pipe = 0;
  ip = 0;
  off = 0;
}

-- The file is held once more by another process.
abbrev task : Task
task = record {
  ofile = λ fd. if fd == 0 then some 3 else none;
  files = update (λ _. unused) 3 (record unused { kind = fd_inode; ref = 2 });
}

abbrev elsewhere : ℕ → ℕ
elsewhere i = if i == 3 then 1 else 0

task-IsHeld : IsHeld task elsewhere
task-IsHeld i = ground arith

sys_dup-Duplicates_example : Duplicates caller task elsewhere
sys_dup-Duplicates_example = sys_dup-Duplicates caller task elsewhere task-IsHeld

sys_close-Closes_example : Closes caller task elsewhere
sys_close-Closes_example = sys_close-Closes caller task elsewhere task-IsHeld

sys_pipe-IsPipe_example :
    IsTakenBack (sys_pipe caller (some 4096) task) task elsewhere
    ⊎ ((addr : ℕ) × (argptr caller 0 8 ≡ some addr)
        × IsPipe (sys_pipe caller (some 4096) task) addr (some 4096) task elsewhere)
sys_pipe-IsPipe_example = sys_pipe-IsPipe caller (some 4096) task elsewhere task-IsHeld

abbrev stored : PipeCall → Option (ℕ × ℕ × ℕ)
stored none = none
stored (some (n, fds, t, cs)) = fds

-- The two lowest free descriptors, at address 0.
pipe_made : stored (sys_pipe caller (some 4096) task) ≡ some (0, 1, 2)
unfolding sys_pipe argptr argint fetchint pipealloc filealloc filealloc_from fdalloc fdalloc_from
pipe_made = refl

no_page : stored (sys_pipe caller none task) ≡ none
unfolding sys_pipe argptr argint fetchint pipealloc filealloc filealloc_from fileclose
no_page = refl

abbrev result : Option (ℕ × Task) → ℕ
result none = 0
result (some (n, t)) = n

next_descriptor : result (sys_dup caller task) ≡ 1
unfolding sys_dup argfd argint fetchint fdalloc fdalloc_from filedup
next_descriptor = refl
