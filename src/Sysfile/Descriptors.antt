-- ===== src/Sysfile/Descriptors.antt =====
-- xv6/sysfile.c: the descriptors of a process and the reference counts of the files.
use tp2_ronaldo_joaopedro.Common.{
  ℕ, zero, suc, ◌+◌, ◌-◌, ◌^◌, ◌<◌, ◌≤◌, false, Option, Option-cases, none, some, ◌≡◌, ◌≢◌, ◌⊎◌,
  refl, ap, ◌∙◌, inl, inr, arith, ◌||◌, ◌==◌, ltb, leb, update, if◌then◌else◌, Bool-cases,
}
use tp2_ronaldo_joaopedro.File.{Files, File, fd_none, filedup, fileclose, kept, closing}
use tp2_ronaldo_joaopedro.Syscall.{Caller, argint}
use tp2_ronaldo_joaopedro.Sysfile.{
  Ofile, Task, nofile, minus_one, checked_fd, argfd, fdalloc_from, fdalloc, duplicated, sys_dup,
  closed, sys_close,
}

abbrev pub holds : ℕ → Option ℕ → ℕ
holds i none = 0
holds i (some f) = if i == f then 1 else 0

-- How many of the first `n` descriptors hold the file `i`.
abbrev pub opened : Ofile → ℕ → ℕ → ℕ
opened o i zero = 0
opened o i (suc n) = holds i (o n) + opened o i n

-- The count of each file is what the process's descriptors and `others` hold.
abbrev pub IsHeld : Task → (ℕ → ℕ) → Type 0
IsHeld t others = (i : ℕ) → (t.files i).ref ≡ others i + opened t.ofile i nofile

opened-above :
    (o : Ofile) (x : Option ℕ) (i n fd : ℕ) → n ≤ fd → opened (update o fd x) i n ≡ opened o i n
opened-above o x i zero fd le = refl
opened-above o x i (suc n) fd le =
    let other : (fd == n) ≡ false = ground (arith, le) in
    rw other (ap (λ k. holds i (o n) + k) (opened-above o x i n fd (omega (arith, le))))

pub opened-update :
    (o : Ofile) (x : Option ℕ) (i n fd : ℕ)
    → fd < n
    → opened (update o fd x) i n + holds i (o fd) ≡ opened o i n + holds i x
opened-update o x i zero fd lt = absurd (omega (arith, lt))
opened-update o x i (suc n) fd lt = elim (Bool-cases (fd == n)) [
  | inl here ↦
      let e : fd ≡ n = ground (arith, here) in
      let same : holds i (o fd) ≡ holds i (o n) = ap (λ k. holds i (o k)) e in
      rw here (omega (arith, same, opened-above o x i n fd (omega (arith, e))))
  | inr there ↦ rw there (omega (arith, opened-update o x i n fd (ground (arith, there, lt))))
]

-- A search of `n` descriptors from `j` on takes the first that is free, or none is.
abbrev pub Fdalloc : Ofile → ℕ → ℕ → ℕ → Option (ℕ × Ofile) → Type 0
Fdalloc o f n j none = (k : ℕ) → j ≤ k → k < j + n → o k ≢ none
Fdalloc o f n j (some (fd, o')) =
    (j ≤ fd)
    × (fd < j + n)
    × (o fd ≡ none)
    × (o' ≡ update o fd (some f))
    × ((k : ℕ) → j ≤ k → k < fd → o k ≢ none)

taken_later :
    (o : Ofile) (f n j : ℕ) (r : Option (ℕ × Ofile))
    → o j ≢ none
    → Fdalloc o f n (j + 1) r
    → Fdalloc o f (suc n) j r
taken_later o f n j none used h = λ k a b. elim (Bool-cases (j == k)) [
  | inl here ↦ let e : j ≡ k = ground (arith, here) in rw e at used
  | inr there ↦ h k (ground (arith, there, a)) (omega (arith, b))
]
taken_later o f n j (some (fd, o')) used h = (
  omega (arith, h.0),
  omega (arith, h.1),
  h.2,
  h.3,
  λ k a b. elim (Bool-cases (j == k)) [
    | inl here ↦ let e : j ≡ k = ground (arith, here) in rw e at used
    | inr there ↦ h.4 k (ground (arith, there, a)) b
  ],
)

fdalloc_from-Fdalloc : (o : Ofile) (f n j : ℕ) → Fdalloc o f n j (fdalloc_from o f n j)
unfolding fdalloc_from
fdalloc_from-Fdalloc o f zero j = λ k a b. absurd (omega (arith, a, b))
fdalloc_from-Fdalloc o f (suc n) j = elim (Option-cases (o j)) [
  | inl free ↦
      rw (free, fdalloc_from)
        (omega arith, omega arith, free, refl, λ k a b. absurd (omega (arith, a, b)))
  | inr (x, e) ↦
      rw (e, fdalloc_from)
        (taken_later o f n j (fdalloc_from o f n (j + 1)) (λ h. absurd (ground (arith, h, e)))
          (fdalloc_from-Fdalloc o f n (j + 1)))
]

pub fdalloc-Fdalloc : (o : Ofile) (f : ℕ) → Fdalloc o f nofile 0 (fdalloc o f)
unfolding fdalloc
fdalloc-Fdalloc o f = fdalloc_from-Fdalloc o f nofile 0

-- A descriptor that `argfd` lets through is below NOFILE and open.
checked_fd-open :
    (o : Ofile) (fd f : ℕ) (a : Option ℕ)
    → checked_fd o a ≡ some (fd, f)
    → (fd < nofile) × (o fd ≡ some f)
checked_fd-open o fd f none e = absurd (ground (arith, e))
checked_fd-open o fd f (some x) e = elim (Bool-cases (leb (2 ^ 31) x || leb nofile x)) [
  | inl bad ↦ absurd (ground (arith, bad, e))
  | inr fine ↦ elim (Option-cases (o x)) [
    | inl closed ↦ absurd (ground (arith, fine, closed, e))
    | inr (g, there) ↦ ground (arith, fine, there, e)
  ]
]

argfd-open :
    (p : Caller) (n fd f : ℕ) (o : Ofile)
    → argfd p n o ≡ some (fd, f)
    → (fd < nofile) × (o fd ≡ some f)
unfolding argfd
argfd-open p n fd f o e = checked_fd-open o fd f (argint p n) e

-- A file that a descriptor holds.
opened-positive : (o : Ofile) (n fd f : ℕ) → fd < n → o fd ≡ some f → 0 < opened o f n
opened-positive o n fd f lt e =
    let u = opened-update o none f n fd lt in
    let one : holds f (o fd) ≡ 1 = rw e (ground arith) in omega (arith, u, one)

lt-false : (k : ℕ) → 1 ≤ k → ltb k 1 ≡ false
lt-false k h = ground (arith, h)

count_changed :
    (files : Files) (others : ℕ → ℕ) (o : Ofile) (m f i n : ℕ)
    → n < m
    → o n ≡ none
    → (files i).ref ≡ others i + opened o i m
    → (update files f (record (files f) { ref = (files f).ref + 1 }) i).ref
      ≡ others i + opened (update o n (some f)) i m
count_changed files others o m f i n lt free h =
    let u = opened-update o (some f) i m n lt in
    let none_there : holds i (o n) ≡ 0 = rw free refl in
    elim (Bool-cases (f == i)) [
      | inl here ↦
          let e : f ≡ i = ground (arith, here) in
          let one : holds i (some f) ≡ 1 = ground (arith, here) in
          let same : (files f).ref ≡ (files i).ref = ap (λ k. (files k).ref) e in
          rw here (omega (arith, same, u, none_there, one, h))
      | inr there ↦
          let zero_more : holds i (some f) ≡ 0 = ground (arith, there) in
          rw there (omega (arith, u, none_there, zero_more, h))
    ]

-- What `dup` comes to: -1 and nothing changed without an open descriptor or a free one, else the
-- lowest free descriptor for the same file.
abbrev pub Duplicates : Caller → Task → (ℕ → ℕ) → Type 0
Duplicates p t others =
    ((sys_dup p t ≡ some (minus_one, t))
      × ((argfd p 0 t.ofile ≡ none) ⊎ ((k : ℕ) → k < nofile → t.ofile k ≢ none)))
    ⊎ ((fd : ℕ) × (f : ℕ) × (n : ℕ) × (t' : Task) × (sys_dup p t ≡ some (n, t'))
        × (argfd p 0 t.ofile ≡ some (fd, f))
        × (n < nofile)
        × (t.ofile n ≡ none)
        × ((k : ℕ) → k < n → t.ofile k ≢ none)
        × (t'.ofile ≡ update t.ofile n (some f))
        × IsHeld t' others)

duplicated-Duplicates :
    (p : Caller) (t : Task) (others : ℕ → ℕ) (fd f : ℕ) (r : Option (ℕ × Ofile))
    → IsHeld t others
    → argfd p 0 t.ofile ≡ some (fd, f)
    → Fdalloc t.ofile f nofile 0 r
    → sys_dup p t ≡ duplicated t f r
    → Duplicates p t others
unfolding filedup
duplicated-Duplicates p t others fd f none h e a d =
    inl (d, inr (λ k lt. a k (omega arith) (omega (arith, lt))))
duplicated-Duplicates p t others fd f (some (n, o')) h e a d =
    let (lt, there) = argfd-open p 0 fd f t.ofile e in
    let held = opened-positive t.ofile nofile fd f lt there in
    let some_ref : 1 ≤ (t.files f).ref = omega (arith, h f, held) in
    let used : ltb (t.files f).ref 1 ≡ false = lt-false (t.files f).ref some_ref in
    let free = a.2 in
    let files = update t.files f (record (t.files f) { ref = (t.files f).ref + 1 }) in
    let t' : Task = record { ofile = update t.ofile n (some f); files = files } in
    inr (
      fd,
      f,
      n,
      t',
      d ∙ rw (used, a.3) refl,
      e,
      omega (arith, a.1),
      free,
      λ k b. a.4 k (omega arith) b,
      refl,
      λ i. count_changed t.files others t.ofile nofile f i n (omega (arith, a.1)) free (h i),
    )

-- dup, in a process whose descriptors, with what others hold, are the counts of the file table, meets
-- no panic: it returns -1 and changes nothing where its argument is no open descriptor or no
-- descriptor is free; else it returns the lowest free descriptor, which is now one for the same file,
-- with the other descriptors as before and the counts right again.
pub sys_dup-Duplicates :
    (p : Caller) (t : Task) (others : ℕ → ℕ) → IsHeld t others → Duplicates p t others
unfolding sys_dup
sys_dup-Duplicates p t others h = elim (Option-cases (argfd p 0 t.ofile)) [
  | inl bad ↦ inl (rw bad refl, inl bad)
  | inr ((fd, f), e) ↦
      duplicated-Duplicates p t others fd f (fdalloc t.ofile f) h e (fdalloc-Fdalloc t.ofile f)
        (rw e refl)
]

-- What `close` comes to.
abbrev pub Closes : Caller → Task → (ℕ → ℕ) → Type 0
Closes p t others =
    ((sys_close p t ≡ some (minus_one, t, kept)) × (argfd p 0 t.ofile ≡ none))
    ⊎ ((fd : ℕ) × (f : ℕ) × (t' : Task) × (argfd p 0 t.ofile ≡ some (fd, f))
        × (t'.ofile ≡ update t.ofile fd none)
        × (sys_close p t
            ≡ some (
              0,
              t',
              if others f + opened t'.ofile f nofile == 0 then closing (t.files f) else kept,
            ))
        × IsHeld t' others)

pub fileclose-held :
    (files : Files) (f left : ℕ)
    → (files f).ref ≡ suc left
    → (g : File) × (fileclose files f
        ≡ some (update files f g, if left == 0 then closing (files f) else kept))
      × (g.ref ≡ left)
unfolding fileclose
fileclose-held files f left e = elim (Bool-cases (left == 0)) [
  | inl last ↦
      (record (files f) { ref = 0; kind = fd_none }, ground (arith, e, last), ground (arith, last))
  | inr more ↦
      (record (files f) { ref = (files f).ref - 1 }, ground (arith, e, more), omega (arith, e))
]

count_dropped :
    (files : Files) (g : File) (others : ℕ → ℕ) (o : Ofile) (m f i fd : ℕ)
    → fd < m
    → o fd ≡ some f
    → g.ref ≡ others f + opened (update o fd none) f m
    → (files i).ref ≡ others i + opened o i m
    → (update files f g i).ref ≡ others i + opened (update o fd none) i m
count_dropped files g others o m f i fd lt there left h = elim (Bool-cases (f == i)) [
  | inl here ↦
      let e : f ≡ i = ground (arith, here) in
      rw here (left ∙ ap (λ k. others k + opened (update o fd none) k m) e)
  | inr other ↦
      let u = opened-update o none i m fd lt in
      let nothing : holds i (o fd) ≡ 0 = rw there (ground (arith, other)) in
      rw other (omega (arith, u, nothing, h))
]

one_less :
    (o : Ofile) (m f fd others ref : ℕ)
    → fd < m
    → o fd ≡ some f
    → ref ≡ others + opened o f m
    → ref ≡ suc (others + opened (update o fd none) f m)
one_less o m f fd others ref lt there h =
    let u = opened-update o none f m fd lt in
    let one : holds f (o fd) ≡ 1 = rw there (ground arith) in omega (arith, u, one, h)

-- close, in a process whose descriptors, with what others hold, are the counts of the file table, meets
-- no panic: it returns -1 and changes nothing where its argument is no open descriptor; else the
-- descriptor is free, the others are as before and the counts are right again, and the pipe or inode
-- behind the file is closed exactly if nothing holds the file any more.
pub sys_close-Closes :
    (p : Caller) (t : Task) (others : ℕ → ℕ) → IsHeld t others → Closes p t others
unfolding sys_close
sys_close-Closes p t others h = elim (Option-cases (argfd p 0 t.ofile)) [
  | inl bad ↦ inl (rw bad refl, bad)
  | inr ((fd, f), e) ↦
      let (lt, there) = argfd-open p 0 fd f t.ofile e in
      let o' : Ofile = update t.ofile fd none in
      let left = others f + opened o' f nofile in
      let (g, done, ref) =
        fileclose-held t.files f left (one_less t.ofile nofile f fd (others f) _ lt there (h f)) in
      inr (
        fd,
        f,
        record { ofile = o'; files = update t.files f g },
        e,
        refl,
        rw (e, done) refl,
        λ i. count_dropped t.files g others t.ofile nofile f i fd lt there ref (h i),
      )
]
