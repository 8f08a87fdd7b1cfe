-- ===== src/Sysfile/Pipes/Rollback.antt =====
-- xv6/sysfile.c: what `sys_pipe` takes, and takes back.
use tp2_ronaldo_joaopedro.Common.{
  ℕ, zero, suc, ◌+◌, ◌<◌, true, false, Option, Option-cases, none, some, List, [], ◌≡◌, ◌≢◌, ◌⊎◌,
  refl, ap, sym, ◌∙◌, inl, inr, arith, ◌==◌, ltb, update, if◌then◌else◌, Bool-cases, ap₂,
}
use tp2_ronaldo_joaopedro.File.{Files, Closing}
use tp2_ronaldo_joaopedro.Syscall.{Caller, argptr}
use tp2_ronaldo_joaopedro.Sysfile.{Ofile, Task, nofile, minus_one, fdalloc}
use tp2_ronaldo_joaopedro.Sysfile.Descriptors.{
  holds, opened, opened-update, IsHeld, Fdalloc, fdalloc-Fdalloc,
}
use tp2_ronaldo_joaopedro.Sysfile.Pipes.{
  PipeCall, pipe_fds, first_fd, second_fd, sys_pipe, pipealloc,
}
use tp2_ronaldo_joaopedro.Sysfile.Pipes.Counts.{
  HasCounts, plus, IsEnd, IsPiped, close_two, pipealloc-IsPiped,
}

opened-same : (o o' : Ofile) (i n : ℕ) → ((k : ℕ) → o' k ≡ o k) → opened o' i n ≡ opened o i n
opened-same o o' i zero h = refl
opened-same o o' i (suc n) h = ap₂ (λ x y. holds i x + y) (h n) (opened-same o o' i n h)

gained :
    (o : Ofile) (m f i fd : ℕ)
    → fd < m
    → o fd ≡ none
    → opened (update o fd (some f)) i m ≡ (if f == i then 1 else 0) + opened o i m
gained o m f i fd lt free =
    let u = opened-update o (some f) i m fd lt in
    let nothing : holds i (o fd) ≡ 0 = rw free refl in
    let one : holds i (some f) ≡ (if f == i then 1 else 0) = ground arith in
    omega (arith, u, nothing, one)

-- A descriptor that is taken and given back.
taken_back : (o : Ofile) (f fd k : ℕ) → o fd ≡ none → update (update o fd (some f)) fd none k ≡ o k
taken_back o f fd k free = elim (Bool-cases (fd == k)) [
  | inl here ↦ let e : fd ≡ k = ground (arith, here) in rw here (sym free ∙ ap o e)
  | inr there ↦ rw there refl
]

-- What holds of a call of `pipe` that fails, and of one that succeeds.
abbrev pub IsTakenBack : PipeCall → Task → (ℕ → ℕ) → Type 0
IsTakenBack r t others =
    (t' : Task) × (cs : List Closing) × (r ≡ some (minus_one, none, t', cs))
    × ((fd : ℕ) → t'.ofile fd ≡ t.ofile fd)
    × IsHeld t' others

abbrev pub IsPipe : PipeCall → ℕ → Option ℕ → Task → (ℕ → ℕ) → Type 0
IsPipe r addr page t others =
    (fd0 : ℕ) × (fd1 : ℕ) × (rf : ℕ) × (wf : ℕ) × (p : ℕ) × (t' : Task) × (r
      ≡ some (0, some (addr, fd0, fd1), t', []))
    × (page ≡ some p)
    × ((t.ofile fd0 ≡ none) × (t.ofile fd1 ≡ none) × (fd0 < fd1) × (fd1 < nofile))
    × ((fd : ℕ) → t'.ofile fd ≡ update (update t.ofile fd0 (some rf)) fd1 (some wf) fd)
    × ((rf ≢ wf) × IsEnd (t'.files rf) true p × IsEnd (t'.files wf) false p)
    × IsHeld t' others

same_hold :
    (o o' : Ofile) (files : Files) (others : ℕ → ℕ)
    → ((fd : ℕ) → o' fd ≡ o fd)
    → HasCounts files (λ i. others i + opened o i nofile)
    → IsHeld (record { ofile = o'; files = files }) others
same_hold o o' files others same h i =
    h i ∙ ap (λ k. others i + k) (sym (opened-same o o' i nofile same))

-- A descriptor that is free after another has been taken.
second_free :
    (o : Ofile) (f fd0 fd1 : ℕ)
    → ((k : ℕ) → k < fd0 → o k ≢ none)
    → update o fd0 (some f) fd1 ≡ none
    → (fd0 < fd1) × (o fd1 ≡ none)
second_free o f fd0 fd1 below free = elim (Bool-cases (fd0 == fd1)) [
  | inl here ↦ absurd (ground (arith, here, free))
  | inr there ↦
      let free1 : o fd1 ≡ none = rw there at free in
      elim (Bool-cases (ltb fd1 fd0)) [
        | inl low ↦ absurd (below fd1 (ground (arith, low)) free1)
        | inr high ↦ (ground (arith, there, high), free1)
      ]
]

held_both :
    (o : Ofile) (m rf wf fd0 fd1 i k : ℕ)
    → fd0 < m
    → fd1 < m
    → o fd0 ≡ none
    → update o fd0 (some rf) fd1 ≡ none
    → plus rf (plus wf (λ j. k + opened o j m)) i
      ≡ k + opened (update (update o fd0 (some rf)) fd1 (some wf)) i m
held_both o m rf wf fd0 fd1 i k lt0 lt1 free0 free1 =
    omega
      (arith, gained o m rf i fd0 lt0 free0, gained (update o fd0 (some rf)) m wf i fd1 lt1 free1)

second_fd_lem :
    (t : Task) (others : ℕ → ℕ) (addr rf wf p fd0 : ℕ) (files : Files) (page : Option ℕ)
    (r : Option (ℕ × Ofile))
    → page ≡ some p
    → IsPiped t.files (λ i. others i + opened t.ofile i nofile) rf wf p files
    → fd0 < nofile
    → t.ofile fd0 ≡ none
    → ((k : ℕ) → k < fd0 → t.ofile k ≢ none)
    → Fdalloc (update t.ofile fd0 (some rf)) wf nofile 0 r
    → IsTakenBack (second_fd addr rf wf fd0 (update t.ofile fd0 (some rf)) files r) t others
      ⊎ IsPipe (second_fd addr rf wf fd0 (update t.ofile fd0 (some rf)) files r) addr page t others
second_fd_lem t others addr rf wf p fd0 files page none there v lt free below a =
    let w : ℕ → ℕ = λ i. others i + opened t.ofile i nofile in
    let (files', cs, e, h) = close_two files rf wf w v.5 in
    let o' : Ofile = update (update t.ofile fd0 (some rf)) fd0 none in
    let same : (k : ℕ) → o' k ≡ t.ofile k = λ k. taken_back t.ofile rf fd0 k free in
    inl (
      record { ofile = o'; files = files' },
      cs,
      rw e refl,
      same,
      same_hold t.ofile o' files' others same h,
    )
second_fd_lem t others addr rf wf p fd0 files page (some (fd1, o2)) there v lt free below a =
    let (later, free1) = second_free t.ofile rf fd0 fd1 below a.2 in
    let o1 : Ofile = update t.ofile fd0 (some rf) in
    inr (
      fd0,
      fd1,
      rf,
      wf,
      p,
      record { ofile = o2; files = files },
      refl,
      there,
      (free, free1, later, omega (arith, a.1)),
      λ k. ap (λ o. o k) a.3,
      (v.2, v.3, v.4),
      λ i.
          v.5 i
          ∙ held_both t.ofile nofile rf wf fd0 fd1 i (others i) lt (omega (arith, a.1)) free a.2
          ∙ ap (λ o. others i + opened o i nofile) (sym a.3),
    )

first_fd_lem :
    (t : Task) (others : ℕ → ℕ) (addr rf wf p : ℕ) (files : Files) (page : Option ℕ)
    (r : Option (ℕ × Ofile))
    → page ≡ some p
    → IsPiped t.files (λ i. others i + opened t.ofile i nofile) rf wf p files
    → Fdalloc t.ofile rf nofile 0 r
    → IsTakenBack (first_fd addr rf wf t.ofile files r) t others
      ⊎ IsPipe (first_fd addr rf wf t.ofile files r) addr page t others
first_fd_lem t others addr rf wf p files page none there v a =
    let w : ℕ → ℕ = λ i. others i + opened t.ofile i nofile in
    let (files', cs, e, h) = close_two files rf wf w v.5 in
    inl (record { ofile = t.ofile; files = files' }, cs, rw e refl, λ k. refl, h)
first_fd_lem t others addr rf wf p files page (some (fd0, o1)) there v a = rw a.3 (
    second_fd_lem t others addr rf wf p fd0 files page (fdalloc (update t.ofile fd0 (some rf)) wf)
      there v (omega (arith, a.1)) a.2 (λ k b. a.4 k (omega arith) b)
      (fdalloc-Fdalloc (update t.ofile fd0 (some rf)) wf))

pipe_fds_lem :
    (t : Task) (others : ℕ → ℕ) (addr : ℕ) (page : Option ℕ)
    → IsHeld t others
    → IsTakenBack (pipe_fds addr t.ofile (pipealloc t.files page)) t others
      ⊎ IsPipe (pipe_fds addr t.ofile (pipealloc t.files page)) addr page t others
pipe_fds_lem t others addr page h =
    elim (pipealloc-IsPiped t.files (λ i. others i + opened t.ofile i nofile) page h) [
      | inl (files', cs, e, h') ↦
          inl (record { ofile = t.ofile; files = files' }, cs, rw e refl, λ k. refl, h')
      | inr (rf, wf, p, files', e, there, v) ↦ rw e (
          first_fd_lem t others addr rf wf p files' page (fdalloc t.ofile rf) there v
            (fdalloc-Fdalloc t.ofile rf))
    ]

-- pipe, in a process whose descriptors, with what others hold, are the counts of the file table, meets
-- no panic, and the counts are right afterwards. Either it returns -1 and every descriptor is as
-- before, or it stores two descriptors that were free at the address of its argument, the lower one for
-- a file that is the read end of the pipe in the page from kalloc, the other for one that is its write
-- end.
pub sys_pipe-IsPipe :
    (p : Caller) (page : Option ℕ) (t : Task) (others : ℕ → ℕ)
    → IsHeld t others
    → IsTakenBack (sys_pipe p page t) t others
      ⊎ ((addr : ℕ) × (argptr p 0 8 ≡ some addr) × IsPipe (sys_pipe p page t) addr page t others)
unfolding sys_pipe
sys_pipe-IsPipe p page t others h = elim (Option-cases (argptr p 0 8)) [
  | inl bad ↦ inl (t, [], rw bad refl, λ k. refl, h)
  | inr (addr, e) ↦ elim (pipe_fds_lem t others addr page h) [
    | inl back ↦ inl (rw e back)
    | inr made ↦ inr (addr, e, rw e made)
  ]
]
