-- ===== src/Fs/Dirs.antt =====
-- xv6/fs.c: directories. A directory entry is 16 bytes: the inode number and the name.
pub mod Locked
use tp2_ronaldo_joaopedro.Common.{
  ℕ, zero, suc, ◌+◌, ◌*◌, ◌/◌, ◌%◌, Bool, true, false, not, Option, none, some, List, ◌++◌, get_or,
  drop, ◌==◌, ◌!=◌, ltb, if◌then◌else◌,
}
use tp2_ronaldo_joaopedro.Str.{strncmp, strncpy}
use tp2_ronaldo_joaopedro.Fs.{
  F, hang, pure, fail, ◌>>=◌, ◌>>◌, get_inode, t_dir, not_a_directory, dirlookup_read, dirlink_read,
  dirlink_write,
}
use tp2_ronaldo_joaopedro.Fs.Inodes.{iget}
use tp2_ronaldo_joaopedro.Fs.Contents.{readi, writei, iput}

abbrev pub dirsiz : ℕ
dirsiz = 14

-- `struct dirent`
pub record Dirent : Type 0 where
  pub inum : ℕ
  pub name : List ℕ

abbrev pub dirent_of : List ℕ → Dirent
dirent_of bytes = record { inum = get_or bytes 0 0 + 256 * get_or bytes 1 0; name = drop 2 bytes }

abbrev bytes_of : Dirent → ℕ → ℕ
bytes_of de zero = de.inum % 256
bytes_of de (suc zero) = de.inum / 256 % 256
bytes_of de (suc (suc k)) = get_or de.name k 0

unfoldable pub namecmp : List ℕ → List ℕ → ℕ
namecmp s t = strncmp s t dirsiz

-- The entry at an offset; `none` is a short read.
unfoldable pub read_entry : ℕ → ℕ → F (Option Dirent)
read_entry i off = do
  (n, bytes) ← readi i off 16
  pure (if n == 16 then some (dirent_of bytes) else none)

-- The loop of `dirlookup`, with fuel: the number and the offset of the entry with a name.
unfoldable pub lookup_from : ℕ → ℕ → List ℕ → ℕ → F (Option (ℕ × ℕ))
unfolding namecmp
lookup_from zero i name off = λ s. hang
lookup_from (suc fuel) i name off =
    let rest = lookup_from fuel i name (off + 16) in
    do
      ip ← get_inode i
      if ltb off ip.size
          then (read_entry i off >>= λ entry. elim entry [
            | none ↦ fail dirlookup_read
            | some de ↦
                if de.inum == 0
                then rest
                else if namecmp name de.name == 0
                then pure (some (de.inum, off))
                else rest
          ])
          else pure none

abbrev pub get_found : ℕ → Option (ℕ × ℕ) → F (Option (ℕ × ℕ))
get_found dev none = pure none
get_found dev (some (inum, off)) = do j ← iget dev inum; pure (some (j, off))

unfoldable pub dirlookup : ℕ → List ℕ → F (Option (ℕ × ℕ))
unfolding lookup_from
dirlookup i name = do
  ip ← get_inode i
  if ip.type != t_dir
      then fail not_a_directory
      else lookup_from (ip.size / 16 + 2) i name 0 >>= get_found ip.dev

-- The loop of `dirlink` for an empty entry, with fuel; it ends at the end of the directory at last.
unfoldable pub empty_from : ℕ → ℕ → ℕ → F ℕ
empty_from zero i off = λ s. hang
empty_from (suc fuel) i off =
    let rest = empty_from fuel i (off + 16) in
    do
      ip ← get_inode i
      if ltb off ip.size
          then (read_entry i off >>= λ entry. elim entry [
            | none ↦ fail dirlink_read
            | some de ↦ if de.inum == 0 then pure off else rest
          ])
          else pure off

-- The last part of `dirlink`, for a name that is not present.
unfoldable pub add_entry : ℕ → List ℕ → ℕ → F Bool
unfolding empty_from
add_entry i name inum = do
  ip ← get_inode i
  off ← empty_from (ip.size / 16 + 2) i 0
  n ← writei i (bytes_of (record { inum = inum; name = strncpy name dirsiz })) off 16
  if n == 16 then pure true else fail dirlink_write

-- `false` is the result -1.
unfoldable pub link_found : ℕ → List ℕ → ℕ → Option (ℕ × ℕ) → F Bool
unfolding add_entry
link_found i name inum none = add_entry i name inum
link_found i name inum (some (j, off)) = iput j >> pure false

unfoldable pub dirlink : ℕ → List ℕ → ℕ → F Bool
unfolding dirlookup link_found
dirlink i name inum = dirlookup i name >>= link_found i name inum
