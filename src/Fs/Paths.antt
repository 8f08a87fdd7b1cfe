-- ===== src/Fs/Paths.antt =====
-- xv6/fs.c: path names. A path is the list of its bytes up to its end.
pub mod Elements
pub mod Ends
use tp2_ronaldo_joaopedro.Common.{
  ℕ, zero, suc, Bool, true, false, ◌&&◌, Option, none, some, List, [], ◌∷◌, length, take, ◌==◌,
  ◌!=◌, if◌then◌else◌,
}
use tp2_ronaldo_joaopedro.Fs.{F, hang, pure, ◌>>=◌, ◌>>◌, get_inode, t_dir}
use tp2_ronaldo_joaopedro.Fs.Inodes.{iget, idup, ilock, iunlock}
use tp2_ronaldo_joaopedro.Fs.Contents.{iput, iunlockput}
use tp2_ronaldo_joaopedro.Fs.Dirs.{dirlookup, dirsiz}

abbrev pub slash : ℕ
slash = b'/'

-- `while(*path == '/') path++;`
unfoldable pub skip_slashes : List ℕ → List ℕ
skip_slashes [] = []
skip_slashes (c ∷ cs) = let rest = skip_slashes cs in if c == slash then rest else c ∷ cs

-- `while(*path != '/' && *path != 0) path++;`: the element, and where it ends.
unfoldable pub element : List ℕ → List ℕ × List ℕ
element [] = ([], [])
element (c ∷ cs) =
    let rest = element cs in if c == slash then ([], c ∷ cs) else (c ∷ rest.0, rest.1)

-- The next element, cut to the size of a name, and the rest of the path.
unfoldable pub skipelem : List ℕ → Option (List ℕ × List ℕ)
unfolding skip_slashes element
skipelem path = elim (skip_slashes path) [
  | [] ↦ none
  | c ∷ cs ↦ let found = element (c ∷ cs) in some (take dirsiz found.0, skip_slashes found.1)
]

-- The loop of `namex`, with fuel: the inode, and the last element when the parent is asked for.
unfoldable pub walk : ℕ → Bool → ℕ → List ℕ → List ℕ → F (Option (ℕ × List ℕ))
unfolding skipelem
walk zero nameiparent i name path = λ s. hang
walk (suc fuel) nameiparent i name path = elim (skipelem path) [
  | none ↦ if nameiparent then iput i >> pure none else pure (some (i, name))
  | some (elem, path') ↦ do
    ilock i
    ip ← get_inode i
    if ip.type != t_dir
        then iunlockput i >> pure none
        else if nameiparent && (length path' == 0)
        then iunlock i >> pure (some (i, elem))
        else dirlookup i elem >>= λ found. elim found [
          | none ↦ iunlockput i >> pure none
          | some (next, off) ↦ iunlockput i >> walk fuel nameiparent next elem path'
        ]
]

abbrev pub starts_at_root : List ℕ → Bool
starts_at_root [] = false
starts_at_root (c ∷ cs) = c == slash

-- `cwd` is `myproc()->cwd`; the root directory is inode 1 of device 1.
unfoldable pub namex : ℕ → List ℕ → Bool → F (Option (ℕ × List ℕ))
unfolding walk
namex cwd path nameiparent = do
  ip ← if starts_at_root path then iget 1 1 else idup cwd
  walk (suc (length path)) nameiparent ip [] path

unfoldable pub namei : ℕ → List ℕ → F (Option (ℕ × List ℕ))
unfolding namex
namei cwd path = namex cwd path false

unfoldable pub nameiparent : ℕ → List ℕ → F (Option (ℕ × List ℕ))
unfolding namex
nameiparent cwd path = namex cwd path true
