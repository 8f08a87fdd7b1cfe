-- ===== src/Fs/Paths/Ends.antt =====
-- xv6/fs.c: the loops of the lookup of a path.
use tp2_ronaldo_joaopedro.Common.{
  ℕ, zero, suc, ◌+◌, ◌*◌, ◌/◌, ◌<◌, ◌≤◌, Bool, ◌&&◌, Option, none, some, List, [], length, ◌≢◌,
  refl, arith, inl, inr, ◌==◌, ◌!=◌, ltb, Bool-cases, Option-cases, if◌then◌else◌,
}
use tp2_ronaldo_joaopedro.Fs.{Fs, hang, pure, fail, ◌>>◌, dirlookup_read}
use tp2_ronaldo_joaopedro.Fs.Triples.{
  not_hang, After, Triple, bind, branch, returns, fails, Sizes, Keeps, Ends, Anything, After-weaken,
  After-bind,
}
use tp2_ronaldo_joaopedro.Fs.Inodes.{Search, cached, spare, claim, search, iget, idup}
use tp2_ronaldo_joaopedro.Fs.Contents.{iunlockput}
use tp2_ronaldo_joaopedro.Fs.Contents.Ends.{
  and_then, get_inode-Ends, readi-Keeps, iput-Ends, iunlock-Ends, iunlockput-Ends, ilock-Ends,
}
use tp2_ronaldo_joaopedro.Fs.Dirs.{
  Dirent, dirent_of, namecmp, read_entry, lookup_from, dirlookup, get_found,
}
use tp2_ronaldo_joaopedro.Fs.Paths.{skipelem, walk, namex, starts_at_root}
use tp2_ronaldo_joaopedro.Fs.Paths.Elements.{skipelem-shorter}

read_entry-Keeps : (i off : ℕ) → Keeps (read_entry i off)
unfolding read_entry
read_entry-Keeps i off f =
    bind (λ _. Sizes f) (readi-Keeps i off 16 f)
      (λ (n, bytes). returns (if n == 16 then some (dirent_of bytes) else none) (λ s h. h))

lookup_from-Keeps :
    (f : ℕ → ℕ) (fuel i off : ℕ) (name : List ℕ)
    → f i + 16 ≤ off + 16 * fuel
    → off < f i + 16
    → Triple (Sizes f) (lookup_from fuel i name off) (λ _. Sizes f)
unfolding lookup_from
lookup_from-Keeps f zero i off name enough near = absurd (omega arith)
lookup_from-Keeps f (suc fuel) i off name enough near = record {
  apply = λ s h. elim (Bool-cases (ltb off (s.inodes i).size)) [
    | inr past ↦ rw past h
    | inl more ↦
        let later =
          lookup_from-Keeps f fuel i (off + 16) name (omega (arith, enough))
            (ground (arith, more, h i)) in
        rw more (
          (bind (λ _. Sizes f) (read_entry-Keeps i off f) (λ entry. by_entry later entry)).apply s
            h)
  ];
}
  where
    by_entry :
        Triple (Sizes f) (lookup_from fuel i name (off + 16)) (λ _. Sizes f)
        → (entry : Option Dirent)
        → Triple {A = Option (ℕ × ℕ)}
            (Sizes f)
            (elim entry [
              | none ↦ fail dirlookup_read
              | some de ↦
                  if de.inum == 0
                  then lookup_from fuel i name (off + 16)
                  else if namecmp name de.name == 0
                  then pure (some (de.inum, off))
                  else lookup_from fuel i name (off + 16)
            ])
            (λ _. Sizes f)
    by_entry later none = fails dirlookup_read
    by_entry later (some de) =
        branch (de.inum == 0) (λ e. later)
          (λ e.
            branch (namecmp name de.name == 0) (λ e. returns (some (de.inum, off)) (λ s h. h))
              (λ e. later))

claim-Ends : (dev inum : ℕ) (r : Search) → Ends (claim dev inum r)
claim-Ends dev inum (cached i) = record { apply = λ s h. tt }
claim-Ends dev inum (spare none) = record { apply = λ s h. tt }
claim-Ends dev inum (spare (some i)) = record { apply = λ s h. tt }

iget-Ends : (dev inum : ℕ) → Ends (iget dev inum)
unfolding iget
iget-Ends dev inum = record {
  apply = λ s h. (claim-Ends dev inum (search s.inodes dev inum 0 50 none)).apply s tt;
}

idup-Ends : (i : ℕ) → Ends (idup i)
unfolding idup
idup-Ends i = record { apply = λ s h. tt }

lookup_entry-Ends :
    (i : ℕ) (name : List ℕ) (s : Fs)
    → After (λ _. Anything) (lookup_from ((s.inodes i).size / 16 + 2) i name 0 s)
lookup_entry-Ends i name s =
    After-weaken (λ _. Sizes (λ j. (s.inodes j).size)) (λ _. Anything)
      (lookup_from ((s.inodes i).size / 16 + 2) i name 0 s) (λ a s' h. tt)
      ((lookup_from-Keeps (λ j. (s.inodes j).size) ((s.inodes i).size / 16 + 2) i 0 name
          (omega arith) (omega arith)).apply
        s (λ j. refl))

get_found-Ends : (dev : ℕ) (found : Option (ℕ × ℕ)) → Ends (get_found dev found)
get_found-Ends dev none = returns none (λ s h. tt)
get_found-Ends dev (some (inum, off)) =
    and_then (iget-Ends dev inum) (λ j. returns (some (j, off)) (λ s h. tt))

dirlookup-Ends : (i : ℕ) (name : List ℕ) → Ends (dirlookup i name)
unfolding dirlookup
dirlookup-Ends i name = record {
  apply = λ s h. elim (Bool-cases ((s.inodes i).type != 1)) [
    | inl other ↦ rw other tt
    | inr dir ↦ rw dir (
        After-bind (λ _. Anything) (λ _. Anything)
          (lookup_from ((s.inodes i).size / 16 + 2) i name 0 s) (get_found (s.inodes i).dev)
          (lookup_entry-Ends i name s) (get_found-Ends (s.inodes i).dev))
  ];
}

walk-Ends :
    (fuel : ℕ) (parent : Bool) (i : ℕ) (name path : List ℕ)
    → length path < fuel
    → Ends (walk fuel parent i name path)
unfolding walk
walk-Ends zero parent i name path lt = absurd (omega arith)
walk-Ends (suc fuel) parent i name path lt = elim (Option-cases (skipelem path)) [
  | inl nothing ↦
      rw (nothing, walk)
        (branch parent (λ e. and_then (iput-Ends i) (λ _. returns none (λ s h. tt)))
          (λ e. returns (some (i, name)) (λ s h. tt)))
  | inr ((elem, path'), found) ↦
      let shorter = skipelem-shorter path elem path' found in
      rw (found, walk)
        (and_then (ilock-Ends i) (λ _. and_then (get_inode-Ends i) (λ ip.
          branch (ip.type != 1) (λ e. and_then (iunlockput-Ends i) (λ _. returns none (λ s h. tt)))
            (λ e.
              branch (parent && (length path' == 0))
                (λ e. and_then (iunlock-Ends i) (λ _. returns (some (i, elem)) (λ s h. tt)))
                (λ e. and_then (dirlookup-Ends i elem) (λ next.
                  by_next elem path' (λ j. walk-Ends fuel parent j elem path' (omega arith))
                    next))))))
]
  where
    by_next :
        (elem path' : List ℕ)
        → ((j : ℕ) → Ends (walk fuel parent j elem path'))
        → (next : Option (ℕ × ℕ))
        → Ends {A = Option (ℕ × List ℕ)} (elim next [
          | none ↦ iunlockput i >> pure none
          | some (next, off) ↦ iunlockput i >> walk fuel parent next elem path'
        ])
    by_next elem path' later none = and_then (iunlockput-Ends i) (λ _. returns none (λ s h. tt))
    by_next elem path' later (some (j, off)) = and_then (iunlockput-Ends i) (λ _. later j)

-- The lookup of a path, from every state of the file system and every current directory, comes to
-- an end: the fuel of its loops, over the path, the directories, their blocks and the bitmap, is
-- never used up.
pub namex_ends : (cwd : ℕ) (path : List ℕ) (parent : Bool) (s : Fs) → namex cwd path parent s ≢ hang
unfolding namex
namex_ends cwd path parent s = not_hang _ (
    (and_then (branch (starts_at_root path) (λ e. iget-Ends 1 1) (λ e. idup-Ends cwd))
        (λ ip. walk-Ends (suc (length path)) parent ip [] path (omega arith))).apply
      s tt)
