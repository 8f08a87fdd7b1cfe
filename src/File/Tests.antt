-- ===== src/File/Tests.antt =====
-- Tests of xv6/file.c.
use tp2_ronaldo_joaopedro.Common.{ℕ, true, false, Option, none, some, ◌≡◌, refl, update}
use tp2_ronaldo_joaopedro.File.{Files, File, fd_none, fd_pipe, filealloc, filealloc_from, nfile}

abbrev unused_file : File
unused_file = record {
  kind = fd_none;
  ref = 0;
  readable = false;
  writable = false;
  pipe = 0;
  ip = 0;
  off = 0;
}

-- Slot 0 is the write end of a pipe, held twice.
abbrev one_pipe : Files
one_pipe =
    update (λ _. unused_file) 0
      (record unused_file { kind = fd_pipe; ref = 2; writable = true; pipe = 4096 })

abbrev handed_out : Option (ℕ × Files) → ℕ
handed_out none = nfile
handed_out (some (i, files)) = i

first_free : handed_out (filealloc one_pipe) ≡ 1
unfolding filealloc filealloc_from
first_free = refl
