-- ===== src/Sysfile.antt =====
-- xv6/sysfile.c: the file descriptors of a process, with `dup` and `close`. A descriptor holds the slot
-- of a file in the file table; `none` as the result of a call is a panic.
pub mod Descriptors
pub mod Pipes
mod Tests
use tp2_ronaldo_joaopedro.Common.{
  ℕ, zero, suc, ◌+◌, ◌-◌, ◌^◌, ◌||◌, Option, none, some, leb, update, if◌then◌else◌,
}
use tp2_ronaldo_joaopedro.File.{Files, Closing, kept, filedup, fileclose}
use tp2_ronaldo_joaopedro.Syscall.{Caller, argint}

abbrev pub nofile : ℕ
nofile = 16

-- `ofile`, by descriptor.
abbrev pub Ofile : Type 0
Ofile = ℕ → Option ℕ

-- What the calls see: the descriptors of the running process and the file table.
pub record Task : Type 0 where
  pub ofile : Ofile
  pub files : Files

abbrev pub minus_one : ℕ
minus_one = 2 ^ 32 - 1

abbrev with_fd : ℕ → Option ℕ → Option (ℕ × ℕ)
with_fd fd none = none
with_fd fd (some f) = some (fd, f)

abbrev pub checked_fd : Ofile → Option ℕ → Option (ℕ × ℕ)
checked_fd ofile none = none
checked_fd ofile (some fd) =
    if leb (2 ^ 31) fd || leb nofile fd then none else with_fd fd (ofile fd)

-- The descriptor and the file.
unfoldable pub argfd : Caller → ℕ → Ofile → Option (ℕ × ℕ)
argfd p n ofile = checked_fd ofile (argint p n)

-- The loop of `fdalloc` from `fd` on, over the `n` descriptors that are left.
unfoldable pub fdalloc_from : Ofile → ℕ → ℕ → ℕ → Option (ℕ × Ofile)
fdalloc_from ofile f zero fd = none
fdalloc_from ofile f (suc n) fd = elim (ofile fd) [
  | none ↦ some (fd, update ofile fd (some f))
  | some _ ↦ fdalloc_from ofile f n (fd + 1)
]

unfoldable pub fdalloc : Ofile → ℕ → Option (ℕ × Ofile)
unfolding fdalloc_from
fdalloc ofile f = fdalloc_from ofile f nofile 0

abbrev pub counted : ℕ → Ofile → Option Files → Option (ℕ × Task)
counted fd ofile none = none
counted fd ofile (some files) = some (fd, record { ofile = ofile; files = files })

abbrev pub duplicated : Task → ℕ → Option (ℕ × Ofile) → Option (ℕ × Task)
duplicated t f none = some (minus_one, t)
duplicated t f (some (fd, ofile)) = counted fd ofile (filedup t.files f)

abbrev pub dup_fd : Task → Option (ℕ × ℕ) → Option (ℕ × Task)
dup_fd t none = some (minus_one, t)
dup_fd t (some (fd, f)) = duplicated t f (fdalloc t.ofile f)

unfoldable pub sys_dup : Caller → Task → Option (ℕ × Task)
sys_dup p t = dup_fd t (argfd p 0 t.ofile)

abbrev pub closed : Ofile → Option (Files × Closing) → Option (ℕ × Task × Closing)
closed ofile none = none
closed ofile (some (files, c)) = some (0, record { ofile = ofile; files = files }, c)

abbrev pub close_fd : Task → Option (ℕ × ℕ) → Option (ℕ × Task × Closing)
close_fd t none = some (minus_one, t, kept)
close_fd t (some (fd, f)) = closed (update t.ofile fd none) (fileclose t.files f)

-- The result, and what `fileclose` did to the pipe or the inode.
unfoldable pub sys_close : Caller → Task → Option (ℕ × Task × Closing)
sys_close p t = close_fd t (argfd p 0 t.ofile)
