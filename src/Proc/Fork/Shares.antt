-- ===== src/Proc/Fork/Shares.antt =====
-- xv6/proc.c: the files and the directory that `fork` shares with the child, and their counts.
use tp2_ronaldo_joaopedro.Common.{
  ℕ, zero, suc, ◌+◌, ◌<◌, ◌==◌, if◌then◌else◌, length, get_or, update, ap, subst, ◌∙◌, ltb,
  Bool-cases, Option, none, some, List, [], ◌∷◌, ◌≡◌, inl, inr, arith, Option-cases,
}
use tp2_ronaldo_joaopedro.File.{Files, File, filedup}
use tp2_ronaldo_joaopedro.Proc.Fork.{dup_files, idup, inherit}

-- How many entries of `ofile` are the file `j`, and whether a current directory is the inode `j`.
abbrev pub opens : ℕ → List (Option ℕ) → ℕ
opens j [] = 0
opens j (none ∷ fs) = opens j fs
opens j (some f ∷ fs) = (if f == j then 1 else 0) + opens j fs

abbrev pub refers : ℕ → Option ℕ → ℕ
refers j none = 0
refers j (some d) = if d == j then 1 else 0

abbrev pub more_refs : ℕ → File → File
more_refs n f = record f { ref = f.ref + n }

pub inherit-some :
    (fs own : List (Option ℕ)) (fd f : ℕ)
    → fd < length own
    → get_or fs fd none ≡ some f
    → get_or (inherit fs own) fd none ≡ some f
unfolding inherit
inherit-some [] own fd f lt e = absurd (ground (arith, e))
inherit-some (x ∷ fs) [] fd f lt e = absurd (omega (arith, lt))
inherit-some (none ∷ fs) (o ∷ own) zero f lt e = absurd (ground (arith, e))
inherit-some (none ∷ fs) (o ∷ own) (suc fd) f lt e = inherit-some fs own fd f (omega (arith, lt)) e
inherit-some (some g ∷ fs) (o ∷ own) zero f lt e = e
inherit-some (some g ∷ fs) (o ∷ own) (suc fd) f lt e =
    inherit-some fs own fd f (omega (arith, lt)) e

more_refs-zero : (f : File) → f ≡ more_refs 0 f
more_refs-zero f = ap (λ n. record f { ref = n }) (omega arith)

-- One filedup.
filedup-counts :
    (files files' : Files) (f j : ℕ)
    → filedup files f ≡ some files'
    → files' j ≡ more_refs (if f == j then 1 else 0) (files j)
unfolding filedup
filedup-counts files files' f j e = elim (Bool-cases (ltb (files f).ref 1)) [
  | inl unused_file ↦ absurd (ground (arith, unused_file, e))
  | inr used ↦
      let is : update files f (more_refs 1 (files f)) ≡ files' = ground (arith, used, e) in
      subst (λ g. g j ≡ more_refs (if f == j then 1 else 0) (files j)) is
        (elim (Bool-cases (f == j)) [
          | inl here ↦
              let same : f ≡ j = ground (arith, here) in
              rw here (ap (λ k. more_refs 1 (files k)) same)
          | inr there ↦ rw there (more_refs-zero (files j))
        ])
]

pub dup_files-counts :
    (fs : List (Option ℕ)) (files files' : Files) (j : ℕ)
    → dup_files fs files ≡ some files'
    → files' j ≡ more_refs (opens j fs) (files j)
unfolding dup_files
dup_files-counts [] files files' j e =
    let is : files ≡ files' = ground (arith, e) in
    subst (λ g. g j ≡ more_refs 0 (files j)) is (more_refs-zero (files j))
dup_files-counts (none ∷ fs) files files' j e = dup_files-counts fs files files' j e
dup_files-counts (some f ∷ fs) files files' j e = elim (Option-cases (filedup files f)) [
  | inl bad ↦ absurd (ground (arith, bad, e))
  | inr (mid, one) ↦
      let first = filedup-counts files mid f j one in
      let rest = dup_files-counts fs mid files' j (rw (one, dup_files) at e) in
      rest
      ∙ ap (more_refs (opens j fs)) first
      ∙ ap (λ n. record (files j) { ref = n }) (omega arith)
]

pub idup-counts : (cwd : Option ℕ) (iref : ℕ → ℕ) (j : ℕ) → idup cwd iref j ≡ iref j + refers j cwd
unfolding idup
idup-counts none iref j = omega arith
idup-counts (some d) iref j = ground arith
